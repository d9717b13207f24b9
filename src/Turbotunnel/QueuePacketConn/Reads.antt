-- ===== src/Turbotunnel/QueuePacketConn/Reads.antt =====
-- Reads on a valid connection, and calls that fail.
use snowflake.Common.{
  ℕ, ◌≤◌, ◌≡◌, refl, ap, ◌∙◌, Bool, true, Option, some, List, [], ◌∷◌, length, min, ◌&&◌, arith,
  if_either, take-all,
}
use mathlib.Core.List.{append-nil}
use mathlib.Core.Path.{subst}
use snowflake.ContainerHeap.{◌>>=◌}
use snowflake.Common.Members.{All}
use snowflake.Turbotunnel.QueuePacketConn.{
  PacketError, TaggedPacket, QueuePacketConn, queue_size, op_error, Op, OpError, read_queue,
  read_select, read_from, read_failed, waiting, Result, was_read, read,
}
use snowflake.Turbotunnel.QueuePacketConn.Steps.{
  IsSmall, IsValid, contents, delivered_by, After, restore-Same, restore-IsValid, After-Same,
}

module _ (mtu : ℕ) where
  -- A call returns, here with a part of the result.
  abbrev pub Goes :
      {A : Type 0} → QueuePacketConn → (A → Result) → Option (A × QueuePacketConn) → Type 0
  Goes {A} c f o = (r : A) × (d : QueuePacketConn) × (o ≡ some (r, d)) × After mtu c [] (f r) d

  op_error-some :
      (c : QueuePacketConn) (op : Op) (v : IsValid mtu c) (h : c.closed ≡ true)
      → op_error c op ≡ some (record { op = op; addr = c.local_addr; err = (v.reason h).0 })
  unfolding op_error
  op_error-some c op v h =
      ap
        (λ (o : Option PacketError).
          o >>= λ e. some (record { op = op; addr = c.local_addr; err = e }))
        (v.reason h).1

  pub op_failed :
      {A : Type 0} (c : QueuePacketConn) (op : Op) (f : OpError → A) (g : A → Result)
      (v : IsValid mtu c)
      → ((e : OpError) → delivered_by (g (f e)) ≡ [])
      → c.closed ≡ true
      → Goes c g (op_error c op >>= λ e. some (f e, c))
  op_failed c op f g v nothing h =
      let e : OpError = record { op = op; addr = c.local_addr; err = (v.reason h).0 } in
      (
        f e,
        c,
        ap (λ (o : Option OpError). o >>= λ e. some (f e, c)) (op_error-some c op v h),
        After-Same mtu c c (g (f e)) (nothing e) v (refl, refl, refl),
      )

  read_queue-Goes :
      (c : QueuePacketConn) (n : ℕ) (pick : Bool) (queue : List TaggedPacket)
      → c.recv_queue ≡ queue
      → mtu ≤ n
      → IsValid mtu c
      → Goes c was_read (read_queue c n pick queue)
  unfolding read_queue
  read_queue-Goes c n pick [] here l v =
      if_either (Goes c was_read) c.closed _ _
        (λ h. op_failed c read (λ e. read_failed e) was_read v (λ e. refl) h)
        λ h. (waiting, c, refl, After-Same mtu c c (was_read waiting) refl v (refl, refl, refl))
  read_queue-Goes c n pick (packet ∷ rest) here l v =
      let few : length (packet ∷ rest) ≤ queue_size =
        subst (λ (q : List TaggedPacket). length q ≤ queue_size) here v.few in
      let (small, smalls) = subst (All (λ (t : TaggedPacket). IsSmall mtu t.p)) here v.received in
      let d = record c { recv_queue = rest } in
      let (q, s, x) = restore-Same d packet.p.cap in
      if_either (Goes c was_read) (c.closed && pick) _ _
        (λ h. op_failed c read (λ e. read_failed e) was_read v (λ e. refl) (ground arith))
        λ h. (
          _,
          _,
          refl,
          record {
            valid = restore-IsValid mtu d packet.p.cap small.1 (record {
              clients = v.clients;
              few = omega arith;
              room = v.room;
              once = v.once;
              reason = v.reason;
              mtu_is = v.mtu_is;
              received = smalls;
              sent = v.sent;
              pooled = v.pooled;
            });
            order =
                append-nil (contents c.recv_queue)
                ∙ ap contents here
                ∙ rw
                    (
                      q,
                      take-all (min n (length packet.p.bytes)) packet.p.bytes
                          (omega (arith, small.0)),
                    )
                    refl;
            shut = λ e. (s ∙ e, x);
          },
        )

  pub read_select-Goes :
      (c : QueuePacketConn) (n : ℕ) (pick : Bool)
      → mtu ≤ n
      → IsValid mtu c
      → Goes c was_read (read_select c n pick)
  unfolding read_select
  read_select-Goes c n pick l v = read_queue-Goes c n pick c.recv_queue refl l v

  pub read_from-Goes :
      (c : QueuePacketConn) (n : ℕ) (pick : Bool)
      → mtu ≤ n
      → IsValid mtu c
      → Goes c was_read (read_from c n pick)
  unfolding read_from
  read_from-Goes c n pick l v =
      if_either (Goes c was_read) c.closed _ _
        (λ h. op_failed c read (λ e. read_failed e) was_read v (λ e. refl) h)
        λ h. read_select-Goes c n pick l v
