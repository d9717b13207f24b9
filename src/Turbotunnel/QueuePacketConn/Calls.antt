-- ===== src/Turbotunnel/QueuePacketConn/Calls.antt =====
-- Every call on a valid connection returns, and what it leaves.
use snowflake.Common.{
  ℕ, ◌≤◌, ◌≡◌, refl, ap, ◌∙◌, false, Option, some, List, [], ◌∷◌, length, ltb, ◌==◌, if◌then◌else◌,
  arith, if_either, length-append, sym,
}
use mathlib.Core.List.{append-nil}
use snowflake.Common.Bytes.{Bytes}
use snowflake.ContainerHeap.{◌>>=◌}
use snowflake.Turbotunnel.ClientMap.{ClientMapInner}
use snowflake.Common.Members.{All, All-append}
use snowflake.Turbotunnel.ClientMap.Records.{
  Sends, queue_of, send_queue-Sends, new_client_map-IsValid, queue-open,
}
use snowflake.Turbotunnel.ClientMap.Records
use snowflake.Turbotunnel.ClientMap.Expiry.{remove_expired-Expires}
use snowflake.Turbotunnel.QueuePacketConn.{
  close, PacketError, Buffer, QueuePacketConn, queue_size, get_buffer, copy_packet, write_failed,
  write_to, send_packet, outgoing_queue, close_with_error, expire, receive, done, was_written,
  queue_is, was_closed, write,
}
use snowflake.Turbotunnel.QueuePacketConn.Reads.{Goes, op_failed}
use snowflake.Turbotunnel.QueuePacketConn.Steps.{
  IsSmall, IsValid, contents, Same, After, restore-Same, get_buffer-Same, get_buffer-IsValid,
  restore-IsValid, copy_packet-IsSmall, After-Same,
}

module _ (mtu : ℕ) where
  with_clients :
      (c : QueuePacketConn) (s : ClientMapInner)
      → IsValid mtu c
      → Records.IsValid s
      → IsValid mtu (record c { clients = s })
  with_clients c s v w = record {
    clients = w;
    few = v.few;
    room = v.room;
    once = v.once;
    reason = v.reason;
    mtu_is = v.mtu_is;
    received = v.received;
    sent = v.sent;
    pooled = v.pooled;
  }

  send_packet-Goes :
      (b c : QueuePacketConn) (queue : ℕ) (p : Bytes) (cap : ℕ)
      → Same b c
      → IsValid mtu c
      → cap ≤ mtu
      → c.clients.closed queue ≡ false
      → Goes mtu b was_written (send_packet c queue p cap)
  unfolding send_packet
  send_packet-Goes b c queue p cap same v small alive =
      let buf = copy_packet cap p in
      let (q, s, x) = restore-Same c cap in
      if_either (Goes mtu b was_written) (c.clients.closed queue) _ _ (λ h. absurd (ground arith))
        λ h.
          if_either (Goes mtu b was_written) (ltb (length (c.outgoing queue)) queue_size) _ _
            (λ free. (
              _,
              _,
              refl,
              After-Same mtu b _ _ refl
                  (record {
                    clients = v.clients;
                    few = v.few;
                    room = λ q.
                        if_either (λ (bs : List Buffer). length bs ≤ queue_size) (q == queue) _ _
                          (λ e. ground (arith, length-append (c.outgoing queue) (buf ∷ [])))
                          λ e. v.room q;
                    once = v.once;
                    reason = v.reason;
                    mtu_is = v.mtu_is;
                    received = v.received;
                    sent = λ q.
                        if_either (All (IsSmall mtu)) (q == queue) _ _
                          (λ e.
                            All-append (IsSmall mtu) (c.outgoing queue) buf (v.sent queue)
                              (copy_packet-IsSmall mtu cap p small))
                          λ e. v.sent q;
                    pooled = v.pooled;
                  })
                  same,
            ))
            λ full. (
              _,
              _,
              refl,
              After-Same mtu b _ _ refl (restore-IsValid mtu c cap small v)
                  (q ∙ same.0, s ∙ same.1, x ∙ same.2),
            )

  pub write_to-Goes :
      (c : QueuePacketConn) (pick : ℕ) (p addr : Bytes) (now : ℕ)
      → IsValid mtu c
      → Goes mtu c was_written (write_to c pick p addr now)
  unfolding write_to
  write_to-Goes c pick p addr now v =
      let (w, mtu_sized) = get_buffer-IsValid mtu c pick v in
      let d = (get_buffer c pick).1 in
      let cap = (get_buffer c pick).0 in
      let (s, sends, valid, after) = send_queue-Sends d.clients addr now w.clients in
      let q = queue_of d.clients addr in
      let (r, c', e, a) =
        send_packet-Goes c (record d { clients = s }) q p cap (get_buffer-Same c pick)
          (with_clients d s w valid) (omega arith)
          (queue-open d.clients addr now q s valid after) in
      if_either (Goes mtu c was_written) c.closed _ _
        (λ h. op_failed mtu c write (λ e. write_failed e) was_written v (λ e. refl) h)
        λ h. (
          r,
          c',
          ap
                (λ (o : Option (ℕ × ClientMapInner)). o >>= λ (queue, clients).
                  send_packet (record d { clients = clients }) queue p cap)
                sends
              ∙ e,
          a,
        )

  pub outgoing_queue-Goes :
      (c : QueuePacketConn) (addr : Bytes) (now : ℕ)
      → IsValid mtu c
      → Goes mtu c queue_is (outgoing_queue c addr now)
  unfolding outgoing_queue
  outgoing_queue-Goes c addr now v =
      let (s, sends, valid, after) = send_queue-Sends c.clients addr now v.clients in
      (
        _,
        _,
        ap
            (λ (o : Option (ℕ × ClientMapInner)).
              o >>= λ (queue, clients). some (queue, record c { clients = clients }))
            sends,
        After-Same mtu c _ _ refl (with_clients c s v valid) (refl, refl, refl),
      )

  pub close_with_error-Goes :
      (c : QueuePacketConn) (err : Option PacketError)
      → IsValid mtu c
      → Goes mtu c was_closed (close_with_error c err)
  unfolding close_with_error
  close_with_error-Goes c err v =
      if_either (Goes mtu c was_closed) c.close_once _ _
        (λ h. op_failed mtu c close (λ e. some e) was_closed v (λ e. refl) (sym v.once ∙ h))
        λ h.
          if_either (Goes mtu c was_closed) c.closed _ _ (λ k. absurd (ground (arith, v.once)))
            λ k. (
              _,
              _,
              refl,
              record {
                valid = record {
                  clients = v.clients;
                  few = v.few;
                  room = v.room;
                  once = refl;
                  reason = λ e. (_, refl);
                  mtu_is = v.mtu_is;
                  received = v.received;
                  sent = v.sent;
                  pooled = v.pooled;
                };
                order = append-nil (contents c.recv_queue);
                shut = λ e. absurd (ground arith);
              },
            )

  pub expire-After :
      (c : QueuePacketConn) (now timeout : ℕ)
      → IsValid mtu c
      → (d : QueuePacketConn) × (expire c now timeout ≡ some d) × After mtu c [] done d
  unfolding expire
  expire-After c now timeout v =
      let (s, removes, valid, after) = remove_expired-Expires c.clients now timeout v.clients in
      (
        _,
        ap (λ (o : Option ClientMapInner). o >>= λ clients. some (record c { clients = clients }))
            removes,
        After-Same mtu c _ done refl (with_clients c s v valid) (refl, refl, refl),
      )

  receive_kept :
      (c : QueuePacketConn) (queue : ℕ) (bs : List Buffer)
      → length bs ≤ queue_size
      → All (IsSmall mtu) bs
      → IsValid mtu c
      → IsValid mtu (record c { outgoing = λ q. if q == queue then bs else c.outgoing q })
  receive_kept c queue bs l small v = record {
    clients = v.clients;
    few = v.few;
    room = λ q.
        if_either (λ (bs : List Buffer). length bs ≤ queue_size) (q == queue) _ _ (λ e. l)
          λ e. v.room q;
    once = v.once;
    reason = v.reason;
    mtu_is = v.mtu_is;
    received = v.received;
    sent = λ q. if_either (All (IsSmall mtu)) (q == queue) _ _ (λ e. small) λ e. v.sent q;
    pooled = v.pooled;
  }

  receive_from :
      (c : QueuePacketConn) (queue : ℕ) (bs : List Buffer)
      → length bs ≤ queue_size
      → All (IsSmall mtu) bs
      → IsValid mtu c
      → After mtu c [] done (elim bs [
        | [] ↦ c
        | buf ∷ rest ↦ record c { outgoing = λ q. if q == queue then rest else c.outgoing q }
      ])
  receive_from c queue [] l small v = After-Same mtu c c done refl v (refl, refl, refl)
  receive_from c queue (b ∷ bs) l small v =
      After-Same mtu c _ done refl (receive_kept c queue bs (omega arith) small.1 v)
        (refl, refl, refl)

  pub receive-After :
      (c : QueuePacketConn) (queue : ℕ) → IsValid mtu c → After mtu c [] done (receive c queue)
  unfolding receive
  receive-After c queue v = receive_from c queue (c.outgoing queue) (v.room queue) (v.sent queue) v
