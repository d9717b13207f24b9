-- ===== src/Turbotunnel/QueuePacketConn/Steps.antt =====
-- The invariant of the connection, and that every method keeps it and does not panic.
use snowflake.Common.{
  ℕ, ◌<◌, ◌≤◌, ◌≡◌, refl, ap, ◌∙◌, true, some, List, [], ◌∷◌, ◌++◌, length, take, ltb, leb,
  if◌then◌else◌, arith, inl, inr, Bool-cases, if_either, length-append, length-take, take-all, map,
  sym, if_both,
}
use mathlib.Core.List.{append-nil, map-append}
use mathlib.Core.Path.{subst}
use snowflake.Common.Bytes.{Bytes}
use snowflake.Common.Members.{All, All-append}
use snowflake.Turbotunnel.ClientMap.Records.{
  Sends, queue_of, send_queue-Sends, new_client_map-IsValid, queue-open,
}
use snowflake.Turbotunnel.ClientMap.Records
use snowflake.Turbotunnel.QueuePacketConn.{
  PacketError, Buffer, TaggedPacket, QueuePacketConn, queue_size, get_buffer, restore, copy_packet,
  queue_incoming, returned, Result, done, was_read,
}

abbrev pub IsSmall : ℕ → Buffer → Type 0
IsSmall mtu b = (length b.bytes ≤ mtu) × (b.cap ≤ mtu)

-- The client map is valid, no queue is over its capacity, a closed connection has an error, and no packet is longer
-- than the MTU.
pub record IsValid (mtu : ℕ) (c : QueuePacketConn) : Type 0 where
  pub clients : Records.IsValid c.clients
  pub few : length c.recv_queue ≤ queue_size
  pub room : (q : ℕ) → length (c.outgoing q) ≤ queue_size
  pub once : c.close_once ≡ c.closed
  pub reason : c.closed ≡ true → (e : PacketError) × (c.err ≡ some e)
  pub mtu_is : c.mtu ≡ mtu
  pub received : All (λ (t : TaggedPacket). IsSmall mtu t.p) c.recv_queue
  pub sent : (q : ℕ) → All (IsSmall mtu) (c.outgoing q)
  pub pooled : (k : ℕ) → 0 < c.buf_pool k → k ≡ mtu

abbrev pub contents : List TaggedPacket → List (Bytes × Bytes)
contents ts = map (λ (t : TaggedPacket). (t.p.bytes, t.addr)) ts

-- What a call has given to a reader.
abbrev pub delivered_by : Result → List (Bytes × Bytes)
delivered_by (was_read (returned n bytes addr)) = (bytes, addr) ∷ []
delivered_by _ = []

abbrev pub Same : QueuePacketConn → QueuePacketConn → Type 0
Same c d = (d.recv_queue ≡ c.recv_queue) × (d.closed ≡ c.closed) × (d.err ≡ c.err)

-- What a call leaves: a valid connection, the packets in order with the ones that it took in, and a closed connection
-- with its error.
pub record After (mtu : ℕ) (c : QueuePacketConn) (news : List (Bytes × Bytes)) (r : Result)
    (d : QueuePacketConn) : Type 0 where
  pub valid : IsValid mtu d
  pub order : contents c.recv_queue ++ news ≡ delivered_by r ++ contents d.recv_queue
  pub shut : c.closed ≡ true → (d.closed ≡ true) × (d.err ≡ c.err)

pub restore-Same : (c : QueuePacketConn) (cap : ℕ) → Same c (restore c cap)
unfolding restore
restore-Same c cap =
    if_either (Same c) (leb c.mtu cap) _ _ (λ e. (refl, refl, refl)) λ e. (refl, refl, refl)

pub get_buffer-Same : (c : QueuePacketConn) (pick : ℕ) → Same c (get_buffer c pick).1
unfolding get_buffer
get_buffer-Same c pick =
    if_either (λ (x : ℕ × QueuePacketConn). Same c x.1) (ltb 0 (c.buf_pool pick)) _ _
      (λ e. (refl, refl, refl)) λ e. (refl, refl, refl)

module _ (mtu : ℕ) where
  pub get_buffer-IsValid :
      (c : QueuePacketConn) (pick : ℕ)
      → IsValid mtu c
      → IsValid mtu (get_buffer c pick).1 × ((get_buffer c pick).0 ≡ mtu)
  unfolding get_buffer
  get_buffer-IsValid c pick v =
      if_either (λ (x : ℕ × QueuePacketConn). IsValid mtu x.1 × (x.0 ≡ mtu))
        (ltb 0 (c.buf_pool pick)) _ _
        (λ h. (
          record {
            clients = v.clients;
            few = v.few;
            room = v.room;
            once = v.once;
            reason = v.reason;
            mtu_is = v.mtu_is;
            received = v.received;
            sent = v.sent;
            pooled = λ k. ground (arith, v.pooled k);
          },
          v.pooled pick (ground arith),
        ))
        λ h. (v, v.mtu_is)

  pub restore-IsValid :
      (c : QueuePacketConn) (cap : ℕ) → cap ≤ mtu → IsValid mtu c → IsValid mtu (restore c cap)
  unfolding restore
  restore-IsValid c cap small v =
      if_either (IsValid mtu) (leb c.mtu cap) _ _
        (λ h. record {
          clients = v.clients;
          few = v.few;
          room = v.room;
          once = v.once;
          reason = v.reason;
          mtu_is = v.mtu_is;
          received = v.received;
          sent = v.sent;
          pooled = λ k. ground (arith, v.pooled k, v.mtu_is);
        })
        λ h. v

  copy_packet_mtu : (p : Bytes) → (copy_packet mtu p).bytes ≡ take mtu p
  unfolding copy_packet
  copy_packet_mtu p = elim (Bool-cases (ltb (length p) mtu)) [
    | inl short ↦
        rw short (take-all (length p) p (omega arith) ∙ sym (take-all mtu p (ground arith)))
    | inr long ↦ rw long refl
  ]

  pub copy_packet-IsSmall : (cap : ℕ) (p : Bytes) → cap ≤ mtu → IsSmall mtu (copy_packet cap p)
  unfolding copy_packet
  copy_packet-IsSmall cap p small = elim (Bool-cases (ltb (length p) cap)) [
    | inl short ↦ rw short (ground (arith, length-take (length p) p), small)
    | inr long ↦ rw long (ground (arith, length-take cap p), small)
  ]

  -- Nothing of the queue is touched.
  pub After-Same :
      (c d : QueuePacketConn) (r : Result)
      → delivered_by r ≡ []
      → IsValid mtu d
      → Same c d
      → After mtu c [] r d
  After-Same c d r nothing v (same, shut, err) = record {
    valid = v;
    order = append-nil (contents c.recv_queue) ∙ rw (nothing, same) refl;
    shut = λ h. (shut ∙ h, err);
  }

  -- What QueueIncoming puts into the queue.
  abbrev pub taken : QueuePacketConn → Bytes → (addr : Bytes) → List (Bytes × Bytes)
  taken c p addr =
      if c.closed
      then []
      else (if ltb (length c.recv_queue) queue_size then (take mtu p, addr) ∷ [] else [])

  pub queue_incoming-After :
      (c : QueuePacketConn) (pick : ℕ) (p addr : Bytes)
      → IsValid mtu c
      → After mtu c (taken c p addr) done (queue_incoming c pick p addr)
  unfolding queue_incoming
  queue_incoming-After c pick p addr v =
      let (w, mtu_sized) = get_buffer-IsValid c pick v in
      let same = get_buffer-Same c pick in
      let d = (get_buffer c pick).1 in
      let cap = (get_buffer c pick).0 in
      let t : TaggedPacket = record { p = copy_packet cap p; addr = addr } in
      let R = λ (news : List (Bytes × Bytes)) (e : QueuePacketConn). After mtu c news done e in
      if_both R c.closed [] _ c _ (λ h. After-Same c c done refl v (refl, refl, refl))
        λ h.
          subst
            (λ (q : List TaggedPacket).
              After mtu c (if ltb (length q) queue_size then (take mtu p, addr) ∷ [] else []) done (
                if ltb (length d.recv_queue) queue_size
                then record d { recv_queue = d.recv_queue ++ t ∷ [] }
                else restore d cap))
            same.0
            (if_both R (ltb (length d.recv_queue) queue_size) _ _ _ _
              (λ free. record {
                valid = record {
                  clients = w.clients;
                  few = ground (arith, length-append d.recv_queue (t ∷ []));
                  room = w.room;
                  once = w.once;
                  reason = w.reason;
                  mtu_is = w.mtu_is;
                  received =
                      All-append (λ (t : TaggedPacket). IsSmall mtu t.p) d.recv_queue t w.received
                        (copy_packet-IsSmall cap p (omega arith));
                  sent = w.sent;
                  pooled = w.pooled;
                };
                order =
                    ap (λ (q : List TaggedPacket). contents q ++ (take mtu p, addr) ∷ [])
                      (sym same.0)
                    ∙ ap (λ (b : Bytes). contents d.recv_queue ++ (b, addr) ∷ [])
                        (sym (copy_packet_mtu p))
                    ∙ ap (λ (k : ℕ). contents d.recv_queue ++ ((copy_packet k p).bytes, addr) ∷ [])
                        (sym mtu_sized)
                    ∙ sym (
                        map-append (λ (t : TaggedPacket). (t.p.bytes, t.addr)) d.recv_queue
                          (t ∷ []));
                shut = λ e. absurd (ground arith);
              })
              λ full.
                let (q, s, x) = restore-Same d cap in
                After-Same c (restore d cap) done refl (restore-IsValid d cap (omega arith) w)
                  (q ∙ same.0, s ∙ same.1, x ∙ same.2))
