-- ===== src/ServerLib/Http/Tests.antt =====
-- A client that sends two packets, and a client id that chooses its instance.
use snowflake.Common.{ℕ, some, List, [], ◌∷◌, ◌++◌, ◌+◌, ◌≡◌, length, arith, refl}
use snowflake.Common.Bytes.{Bytes}
use snowflake.Turbotunnel.QueuePacketConn.{QueuePacketConn, new_queue_packet_conn}
use snowflake.Turbotunnel.QueuePacketConn.Steps.{contents}
use snowflake.Turbotunnel.QueuePacketConn.Runs.{new-IsValid}
use snowflake.ServerLib.Http.{token, accept, read_loop, lookup_packet_conn}
use snowflake.ServerLib.Http.Unkeyed.{lookup_packet_conn-unkeyed}
use snowflake.ServerLib.Http.Delivered.{write_each, write_each-delivered}

abbrev id : Bytes
id = 1 ∷ 2 ∷ 3 ∷ 4 ∷ 5 ∷ 6 ∷ 7 ∷ 8 ∷ []

abbrev packets : List Bytes
packets = (9 ∷ 9 ∷ []) ∷ (7 ∷ []) ∷ []

abbrev conn : QueuePacketConn
conn = new_queue_packet_conn [] 1400

abbrev instances : List ℕ
instances = 0 ∷ 1 ∷ 2 ∷ []

lookup_packet_conn-unkeyed_example :
    lookup_packet_conn (λ key message. 0 ∷ []) instances (5 ∷ []) id ≡ some 0
lookup_packet_conn-unkeyed_example =
    lookup_packet_conn-unkeyed (λ key message. 0 ∷ []) instances (5 ∷ []) id refl

write_each-delivered_example :
    (rest : Bytes) × (d : QueuePacketConn) × (accept
        (write_each (record { written = token ++ id; room = 20 }) packets).written
      ≡ some (id, rest))
    × (read_loop (length rest + 1) conn (λ i. 0) id rest ≡ some d)
    × (contents d.recv_queue ≡ contents conn.recv_queue ++ ((9 ∷ 9 ∷ [], id) ∷ (7 ∷ [], id) ∷ []))
unfolding new_queue_packet_conn
write_each-delivered_example =
    write_each-delivered 1400 id packets 20 conn (λ i. 0) refl (new-IsValid [] 1400) refl
      (omega arith) ((omega arith, omega arith), ((omega arith, omega arith), tt)) (omega arith)
