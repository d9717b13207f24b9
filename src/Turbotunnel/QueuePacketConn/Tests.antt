-- ===== src/Turbotunnel/QueuePacketConn/Tests.antt =====
-- A packet that is cut to an MTU of three bytes, an answer, and a close.
use snowflake.Common.{true, false, none, some, List, [], ◌∷◌, ◌++◌, ◌≡◌, refl, arith}
use snowflake.Common.Members.{All}
use snowflake.Turbotunnel.QueuePacketConn.{
  QueuePacketConn, new_queue_packet_conn, Event, incoming, reading, writing, closing, restoring,
  Result, was_closed, run, kept_error,
}
use snowflake.Turbotunnel.QueuePacketConn.Steps.{IsValid, contents}
use snowflake.Turbotunnel.QueuePacketConn.Runs.{
  Keeps, accepted, delivered, Refuses, new-IsValid, run-InOrder, close-Refuses,
}

abbrev calls : List Event
calls =
    incoming 0 (1 ∷ 2 ∷ 3 ∷ 4 ∷ []) (9 ∷ [])
    ∷ reading 3 true
    ∷ writing 3 (5 ∷ []) (9 ∷ []) 40
    ∷ restoring 3
    ∷ closing none
    ∷ []

calls-Keeps : All (Keeps 3) calls
calls-Keeps = (tt, (omega arith, (tt, (omega arith, (tt, tt)))))

run-InOrder_example :
    (rs : List Result) × (d : QueuePacketConn) × (run (new_queue_packet_conn [] 3) calls
      ≡ some (rs, d))
    × IsValid 3 d
    × (delivered rs ++ contents d.recv_queue ≡ accepted 3 (new_queue_packet_conn [] 3) calls)
run-InOrder_example = run-InOrder [] 3 calls calls-Keeps

new_open : (new_queue_packet_conn [] 3).closed ≡ false
unfolding new_queue_packet_conn
new_open = refl

close-Refuses_example :
    (rs : List Result) × (d : QueuePacketConn) × (run
        (new_queue_packet_conn [] 3)
        (closing none ∷ calls)
      ≡ some (was_closed none ∷ rs, d))
    × Refuses d (kept_error none)
close-Refuses_example =
    close-Refuses 3 (new_queue_packet_conn [] 3) none calls (new-IsValid [] 3) new_open calls-Keeps
