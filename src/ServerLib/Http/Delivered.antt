-- ===== src/ServerLib/Http/Delivered.antt =====
-- The packets that a client writes are the packets that the server queues.
use mathlib.Core.List.{append_assoc, append-nil}
use snowflake.Common.{
  ℕ, zero, suc, ◌+◌, ◌≤◌, ◌<◌, ◌≡◌, refl, sym, ap, ◌∙◌, true, false, Option, none, some, List, [],
  ◌∷◌, ◌++◌, length, take-all, length-append, arith, ltb, leb, if_either,
}
use snowflake.Common.Bytes.{Bytes, eqb, take-append, drop-append}
use snowflake.Common.Members.{All}
use snowflake.Encapsulation.{Writer, read_data, read_data_loop, read_round}
use snowflake.Encapsulation.Padding.{wrote}
use snowflake.Encapsulation.RoundTrip.{write_data_read, read_chunk-whole}
use snowflake.Turbotunnel.QueuePacketConn.{
  TaggedPacket, QueuePacketConn, queue_incoming, get_buffer, queue_size,
}
use snowflake.Turbotunnel.QueuePacketConn.Steps.{
  IsValid, contents, taken, queue_incoming-After, get_buffer-Same, restore-Same,
}
use snowflake.ServerLib.Http.{token, write_result, write_to, read_full, read_loop, accept}

-- WriteTo of one packet after the other.
unfoldable pub write_each : Writer → List Bytes → Writer
unfolding write_to
write_each w [] = w
write_each w (p ∷ ps) = write_each (write_to w p).2 ps

-- Enough room for the packets and their prefixes.
abbrev pub room_for : List Bytes → ℕ
room_for [] = 0
room_for (p ∷ ps) = length p + 3 + room_for ps

abbrev pub addressed : Bytes → List Bytes → List (Bytes × Bytes)
addressed client_id [] = []
addressed client_id (p ∷ ps) = (p, client_id) ∷ addressed client_id ps

module _ (mtu : ℕ) (client_id : Bytes) where
  abbrev pub IsPacket : Bytes → Type 0
  IsPacket p = (length p ≤ 2048) × (length p ≤ mtu)

  abbrev IsOpen : QueuePacketConn → Type 0
  IsOpen c = c.closed ≡ false

  queue_incoming-IsOpen :
      (c : QueuePacketConn) (pick : ℕ) (p : Bytes)
      → c.closed ≡ false
      → (queue_incoming c pick p client_id).closed ≡ false
  unfolding queue_incoming
  queue_incoming-IsOpen c pick p e =
      let same = get_buffer-Same c pick in
      if_either IsOpen c.closed _ _ (λ h. e)
        λ h.
          if_either IsOpen (ltb (length (get_buffer c pick).1.recv_queue) queue_size) _ _
            (λ k. same.1 ∙ e)
            λ k. (restore-Same (get_buffer c pick).1 (get_buffer c pick).0).1 ∙ (same.1 ∙ e)

  -- One packet, into a queue with room.
  queued :
      (c : QueuePacketConn) (pick : ℕ) (p : Bytes)
      → IsValid mtu c
      → c.closed ≡ false
      → length c.recv_queue < queue_size
      → IsPacket p
      → let d = queue_incoming c pick p client_id in
        IsValid mtu d
        × (d.closed ≡ false)
        × (contents d.recv_queue ≡ contents c.recv_queue ++ (p, client_id) ∷ [])
  queued c pick p v e few (short, small) =
      let after = queue_incoming-After mtu c pick p client_id v in
      let goal = λ (l : List (Bytes × Bytes)). l ≡ (p, client_id) ∷ [] in
      let news : taken mtu c p client_id ≡ (p, client_id) ∷ [] =
        if_either goal c.closed _ _ (λ h. absurd (ground arith))
          λ h.
            if_either goal (ltb (length c.recv_queue) queue_size) _ _
              (λ k. ap (λ (q : Bytes). (q, client_id) ∷ []) (take-all mtu p small))
              λ k. absurd (ground arith) in
      (
        after.valid,
        queue_incoming-IsOpen c pick p e,
        sym after.order ∙ ap (◌++◌ (contents c.recv_queue)) news,
      )

  -- The read loop on the packets, ps, and what it has put into the queue.
  IsRead : QueuePacketConn → List Bytes → Option QueuePacketConn → Type 0
  IsRead c ps r =
      (d : QueuePacketConn) × (r ≡ some d)
      × (contents d.recv_queue ≡ contents c.recv_queue ++ addressed client_id ps)

  length-contents : (ts : List TaggedPacket) → length (contents ts) ≡ length ts
  length-contents [] = refl
  length-contents (t ∷ ts) = ap suc (length-contents ts)

  at_end :
      (f : ℕ) (c : QueuePacketConn) (picks : ℕ → ℕ)
      → IsRead c [] (read_loop (suc f) c picks client_id [])
  unfolding IsRead read_loop read_data read_data_loop read_round
  at_end f c picks = (c, refl, sym (append-nil (contents c.recv_queue)))

  -- A packet that is written is the chunk that is read.
  framed :
      (w : Writer) (p : Bytes)
      → IsPacket p
      → length p + 3 ≤ w.room
      → (q : Bytes) × ((write_to w p).2 ≡ (wrote w 0 q).writer)
        × (0 < length q)
        × (length q ≤ length p + 3)
        × ((r : Bytes)
            → read_data (q ++ r) 2048 ≡ some (record { chunk = p; error = none; rest = r }))
  unfolding write_to write_result
  framed w p (short, small) room =
      let (q, run, size, read) = write_data_read w p (omega arith) (ground arith) in
      (
        q,
        ap (λ s. (write_result (length p) s).2) run,
        ground (arith, size),
        ground (arith, size),
        λ r. read r 2048 ∙ ap some (read_chunk-whole p r 2048 short),
      )

  delivered :
      (ps : List Bytes) (w : Writer) (c : QueuePacketConn) (picks : ℕ → ℕ)
      → IsValid mtu c
      → c.closed ≡ false
      → length c.recv_queue + length ps ≤ queue_size
      → All IsPacket ps
      → room_for ps ≤ w.room
      → (q : Bytes) × ((write_each w ps).written ≡ w.written ++ q)
        × ((f : ℕ) → length q < f → IsRead c ps (read_loop f c picks client_id q))
  unfolding write_each write_to IsRead read_loop
  delivered [] w c picks v e few packets room = (
    [],
    sym (append-nil w.written),
    λ f. elim f as (λ k. 0 < k → IsRead c [] (read_loop k c picks client_id [])) [
      | zero ↦ λ h. absurd (omega arith)
      | suc f' ↦ λ h. at_end f' c picks
    ],
  )
  delivered (p ∷ ps) w c picks v e few (packet, packets) room =
      let (q, wrote_it, some_bytes, few_bytes, read) = framed w p packet (omega arith) in
      let d = queue_incoming c (picks 0) p client_id in
      let (v', e', order) = queued c (picks 0) p v e (omega arith) packet in
      let longer : length d.recv_queue ≡ length c.recv_queue + 1 = omega (
        arith,
        length-contents d.recv_queue,
        length-contents c.recv_queue,
        ap length order,
        length-append (contents c.recv_queue) ((p, client_id) ∷ []),
      ) in
      let (q', written, loops) =
        delivered ps (wrote w 0 q).writer d (λ i. picks (suc i)) v' e' (omega (arith, longer))
          packets (omega arith) in
      let again =
        append_assoc (contents c.recv_queue) ((p, client_id) ∷ []) (addressed client_id ps) in
      (
        q ++ q',
        ap (λ (u : Writer). (write_each u ps).written) wrote_it
            ∙ written
            ∙ append_assoc w.written q q',
        λ f.
            elim f
              as (λ k.
                length (q ++ q') < k
                → IsRead c (p ∷ ps) (read_loop k c picks client_id (q ++ q'))) [
                  | zero ↦ λ h. absurd (omega arith)
                  | suc f' ↦ λ h.
                      let (last, ran, all) = loops f' (omega (arith, length-append q q')) in
                      (
                        last,
                        rw (read_loop, read q') ran,
                        all
                            ∙ ap (λ (x : List (Bytes × Bytes)). x ++ addressed client_id ps) order
                            ∙ again,
                      )
                ],
      )

  read_full-append : (p r : Bytes) → length p ≡ 8 → read_full 8 (p ++ r) ≡ some (p, r)
  unfolding read_full
  read_full-append p r eight =
      let sum : leb 8 (length (p ++ r)) ≡ true = ground (arith, length-append p r) in
      rw (sum, take-append 8 p r (sym eight), drop-append 8 p r (sym eight)) refl

  accept-token :
      (r : Bytes) → length client_id ≡ 8 → accept ((token ++ client_id) ++ r) ≡ some (client_id, r)
  unfolding accept eqb
  accept-token r eight = rw (append_assoc token client_id r) (
      rw (accept, read_full-append token (client_id ++ r) refl)
        (read_full-append client_id r eight))

  -- A client that writes the token, a client id of eight bytes and packets of at most 2048 bytes and the MTU, into a
  -- stream with room for them, to a server whose queue is open and has room for the packets: the server accepts the
  -- stream under that client id, its read loop ends, and it has queued the packets in order, and no others.
  pub write_each-delivered :
      (ps : List Bytes) (room : ℕ) (c : QueuePacketConn) (picks : ℕ → ℕ)
      → length client_id ≡ 8
      → IsValid mtu c
      → c.closed ≡ false
      → length c.recv_queue + length ps ≤ queue_size
      → All IsPacket ps
      → room_for ps ≤ room
      → (rest : Bytes) × (d : QueuePacketConn) × (accept
            (write_each (record { written = token ++ client_id; room = room }) ps).written
          ≡ some (client_id, rest))
        × (read_loop (length rest + 1) c picks client_id rest ≡ some d)
        × (contents d.recv_queue ≡ contents c.recv_queue ++ addressed client_id ps)
  unfolding IsRead
  write_each-delivered ps room c picks eight v e few packets enough =
      let w : Writer = record { written = token ++ client_id; room = room } in
      let (q, written, loops) = delivered ps w c picks v e few packets enough in
      let (d, ran, all) = loops (length q + 1) (omega arith) in
      (q, d, ap accept written ∙ accept-token q eight, ran, all)
