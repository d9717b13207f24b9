-- ===== src/Turbotunnel/ClientMap/Tests.antt =====
-- Two clients, of which one is seen again and the other expires.
use snowflake.Common.{some, [], ◌∷◌, ◌≡◌}
use snowflake.Common.Bytes.{Bytes}
use snowflake.Turbotunnel.ClientMap.{ClientMapInner, new_client_map, send_queue, remove_expired}
use snowflake.Turbotunnel.ClientMap.Records.{
  IsValid, Sends, queue_of, send_queue-Sends, new_client_map-IsValid,
}
use snowflake.Turbotunnel.ClientMap.Expiry.{Expires, remove_expired-Expires}

abbrev alice : Bytes
alice = 1 ∷ 2 ∷ []

send_queue-Sends_example :
    (s : ClientMapInner) × (send_queue new_client_map alice 40
      ≡ some (queue_of new_client_map alice, s))
    × IsValid s
    × Sends new_client_map alice 40 (queue_of new_client_map alice) s
send_queue-Sends_example = send_queue-Sends new_client_map alice 40 new_client_map-IsValid

-- The map behind the first call, from the theorem.
abbrev one_client : ClientMapInner
one_client = (send_queue-Sends new_client_map alice 40 new_client_map-IsValid).0

remove_expired-Expires_example :
    (s : ClientMapInner) × (remove_expired one_client 100 60 ≡ some s)
    × IsValid s
    × Expires one_client 100 60 s
remove_expired-Expires_example =
    remove_expired-Expires one_client 100 60
      (send_queue-Sends new_client_map alice 40 new_client_map-IsValid).2
