-- ===== src/ServerLib/Http/Unkeyed.antt =====
-- Which instance a client is assigned to.
use snowflake.Common.{◌%◌, ◌≡◌, sym, ap, List, [], length, get_elem?}
use snowflake.Common.Bytes.{Bytes, take-append}
use snowflake.ServerLib.Http.{little_endian, lookup_packet_conn}

-- A client id of eight bytes chooses the instance alone, as a number in little-endian order modulo the number of
-- instances: neither the key nor the HMAC has a part in it.
pub lookup_packet_conn-unkeyed :
    {A : Type 0} (mac : (key message : Bytes) → Bytes) (pconns : List A) (key client_id : Bytes)
    → length client_id ≡ 8
    → lookup_packet_conn mac pconns key client_id
      ≡ get_elem? pconns (little_endian client_id % length pconns)
unfolding lookup_packet_conn
lookup_packet_conn-unkeyed mac pconns key client_id eight =
    ap (λ (s : Bytes). get_elem? pconns (little_endian s % length pconns))
      (take-append 8 client_id (mac key []) (sym eight))
