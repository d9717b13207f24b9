-- ===== src/Turbotunnel/QueuePacketConn/Runs.antt =====
-- Runs of calls: the packets come out in the order in which they went in, and a closed connection stays closed.
use snowflake.Common.{
  ℕ, ◌≤◌, ◌≡◌, refl, ap, ◌∙◌, Bool, true, false, Option, none, some, List, [], ◌∷◌, ◌++◌,
  if◌then◌else◌, arith, if_either, sym,
}
use mathlib.Core.List.{append-nil, append_assoc}
use snowflake.Common.Bytes.{Bytes}
use snowflake.ContainerHeap.{◌>>=◌}
use snowflake.Common.Members.{All}
use snowflake.Turbotunnel.ClientMap.Records.{new_client_map-IsValid}
use snowflake.Turbotunnel.QueuePacketConn.{
  close, PacketError, QueuePacketConn, new_queue_packet_conn, op_error, Op, OpError, read_from,
  read_failed, write_failed, write_to, close_with_error, kept_error, Event, Result, step, run,
  incoming, reading, selecting, writing, opening, restoring, closing, expiring, receiving, done,
  was_read, was_written, queue_is, was_closed, read, write,
}
use snowflake.Turbotunnel.QueuePacketConn.Reads.{read_select-Goes, read_from-Goes}
use snowflake.Turbotunnel.QueuePacketConn.Calls.{
  write_to-Goes, outgoing_queue-Goes, close_with_error-Goes, expire-After, receive-After,
}
use snowflake.Turbotunnel.QueuePacketConn.Steps.{
  IsValid, contents, delivered_by, After, restore-Same, restore-IsValid, After-Same, taken,
  queue_incoming-After,
}

-- The calls that keep to the MTU: reads have room for a packet, and no larger buffer is restored.
abbrev pub Keeps : (mtu : ℕ) → Event → Type 0
Keeps mtu (reading n pick) = mtu ≤ n
Keeps mtu (selecting n pick) = mtu ≤ n
Keeps mtu (restoring cap) = cap ≤ mtu
Keeps mtu _ = Unit

abbrev pub news_of : (mtu : ℕ) → QueuePacketConn → Event → List (Bytes × Bytes)
news_of mtu c (incoming pick p addr) = taken mtu c p addr
news_of mtu c _ = []

module _ (mtu : ℕ) where
  Steps : QueuePacketConn → Event → Type 0
  Steps c e =
      (r : Result) × (d : QueuePacketConn) × (step c e ≡ some (r, d))
      × After mtu c (news_of mtu c e) r d

  lifted :
      {A : Type 0} (f : A → Result) (o : Option (A × QueuePacketConn)) (r : A) (d : QueuePacketConn)
      → o ≡ some (r, d)
      → ◌>>=◌ {B = Result × QueuePacketConn} o (λ (r, c'). some (f r, c')) ≡ some (f r, d)
  lifted {A} f o r d e =
      ap
        (λ (o : Option (A × QueuePacketConn)).
          ◌>>=◌ {B = Result × QueuePacketConn} o λ (r, c'). some (f r, c'))
        e

  step-After : (c : QueuePacketConn) (e : Event) → Keeps mtu e → IsValid mtu c → Steps c e
  unfolding Steps step
  step-After c (incoming pick p addr) k v =
      (done, _, refl, queue_incoming-After mtu c pick p addr v)
  step-After c (reading n pick) k v =
      let (r, d, e, a) = read_from-Goes mtu c n pick k v in
      (_, d, lifted (λ r. was_read r) _ r d e, a)
  step-After c (selecting n pick) k v =
      let (r, d, e, a) = read_select-Goes mtu c n pick k v in
      (_, d, lifted (λ r. was_read r) _ r d e, a)
  step-After c (writing pick p addr now) k v =
      let (r, d, e, a) = write_to-Goes mtu c pick p addr now v in
      (_, d, lifted (λ r. was_written r) _ r d e, a)
  step-After c (opening addr now) k v =
      let (r, d, e, a) = outgoing_queue-Goes mtu c addr now v in
      (_, d, lifted (λ r. queue_is r) _ r d e, a)
  step-After c (restoring cap) k v = (
    done,
    _,
    refl,
    After-Same mtu c _ done refl (restore-IsValid mtu c cap k v) (restore-Same c cap),
  )
  step-After c (closing err) k v =
      let (r, d, e, a) = close_with_error-Goes mtu c err v in
      (_, d, lifted (λ r. was_closed r) _ r d e, a)
  step-After c (expiring now timeout) k v =
      let (d, e, a) = expire-After mtu c now timeout v in
      (done, d, ap (λ (o : Option QueuePacketConn). o >>= λ c'. some (done, c')) e, a)
  step-After c (receiving queue) k v = (done, _, refl, receive-After mtu c queue v)

-- The packets that the calls of a run take in, cut to the MTU, with their sources.
unfoldable pub accepted : (mtu : ℕ) → QueuePacketConn → List Event → List (Bytes × Bytes)
accepted mtu c [] = []
accepted mtu c (e ∷ es) =
    news_of mtu c e ++ elim (step c e) [ none ↦ [] | some x ↦ accepted mtu x.1 es ]

abbrev pub delivered : List Result → List (Bytes × Bytes)
delivered [] = []
delivered (r ∷ rs) = delivered_by r ++ delivered rs

-- The calls of a run return, the connection stays valid, what readers were given and what is still queued is what was
-- queued and taken in, and a closed connection keeps its error.
abbrev pub Runs : (mtu : ℕ) → QueuePacketConn → List Event → Type 0
Runs mtu c es =
    (rs : List Result) × (d : QueuePacketConn) × (run c es ≡ some (rs, d))
    × IsValid mtu d
    × (delivered rs ++ contents d.recv_queue ≡ contents c.recv_queue ++ accepted mtu c es)
    × (c.closed ≡ true → (d.closed ≡ true) × (d.err ≡ c.err))

splice :
    {A : Type 0} (before new out held outs left taken_in : List A)
    → before ++ new ≡ out ++ held
    → outs ++ left ≡ held ++ taken_in
    → (out ++ outs) ++ left ≡ before ++ (new ++ taken_in)
splice before new out held outs left taken_in first rest =
    append_assoc out outs left
    ∙ ap (◌++◌ out) rest
    ∙ sym (append_assoc out held taken_in)
    ∙ ap (λ xs. xs ++ taken_in) (sym first)
    ∙ append_assoc before new taken_in

run-Runs :
    (mtu : ℕ) (c : QueuePacketConn) (es : List Event)
    → All (Keeps mtu) es
    → IsValid mtu c
    → Runs mtu c es
unfolding run accepted Steps
run-Runs mtu c [] k v = ([], c, refl, v, sym (append-nil (contents c.recv_queue)), λ h. (h, refl))
run-Runs mtu c (e ∷ es) (k, ks) v =
    let (r, d, goes, a) = step-After mtu c e k v in
    let (rs, d', goes', v', order, shut) = run-Runs mtu d es ks a.valid in
    (
      r ∷ rs,
      d',
      rw (run, goes, goes') refl,
      v',
      splice (contents c.recv_queue) (news_of mtu c e) (delivered_by r) (contents d.recv_queue)
            (delivered rs) (contents d'.recv_queue) (accepted mtu d es) a.order order
          ∙ rw goes refl,
      λ h. let (s, x) = a.shut h in let (s', x') = shut s in (s', x' ∙ x),
    )

pub new-IsValid :
    (local_addr : Bytes) (mtu : ℕ) → IsValid mtu (new_queue_packet_conn local_addr mtu)
unfolding new_queue_packet_conn
new-IsValid local_addr mtu = record {
  clients = new_client_map-IsValid;
  few = omega arith;
  room = λ q. omega arith;
  once = refl;
  reason = λ h. absurd (ground arith);
  mtu_is = refl;
  received = tt;
  sent = λ q. tt;
  pooled = λ k h. absurd (omega arith);
}

-- Of a new connection: whatever calls follow each other, as long as reads have room for a packet and no buffer larger
-- than the MTU is restored, none of them panics, no queue gets more than 512 packets and no packet is longer than the
-- MTU; and what ReadFrom has returned, followed by what is still queued, is what QueueIncoming took in, cut to the MTU.
pub run-InOrder :
    (local_addr : Bytes) (mtu : ℕ) (es : List Event)
    → All (Keeps mtu) es
    → (rs : List Result) × (d : QueuePacketConn) × (run (new_queue_packet_conn local_addr mtu) es
        ≡ some (rs, d))
      × IsValid mtu d
      × (delivered rs ++ contents d.recv_queue
          ≡ accepted mtu (new_queue_packet_conn local_addr mtu) es)
unfolding new_queue_packet_conn
run-InOrder local_addr mtu es keeps =
    let (rs, d, goes, v, order, shut) =
      run-Runs mtu (new_queue_packet_conn local_addr mtu) es keeps (new-IsValid local_addr mtu) in
    (rs, d, goes, v, order)

-- ReadFrom, WriteTo and a second close return the error and leave the connection as it is.
abbrev pub Refuses : QueuePacketConn → PacketError → Type 0
Refuses d e =
    ((n : ℕ) (pick : Bool)
      → read_from d n pick
        ≡ some (read_failed (record { op = read; addr = d.local_addr; err = e }), d))
    × ((pick : ℕ) (p addr : Bytes) (now : ℕ)
        → write_to d pick p addr now
          ≡ some (write_failed (record { op = write; addr = d.local_addr; err = e }), d))
    × ((err : Option PacketError)
        → close_with_error d err
          ≡ some (some (record { op = close; addr = d.local_addr; err = e }), d))

module _ (d : QueuePacketConn) (e : PacketError) (shut : d.closed ≡ true)
    (kept : d.err ≡ some e) where
  refused :
      {A : Type 0} (op : Op) (f : OpError → A) (b : Bool) (o : Option (A × QueuePacketConn))
      → b ≡ true
      → (if b then ◌>>=◌ {B = A × QueuePacketConn} (op_error d op) (λ x. some (f x, d)) else o)
        ≡ some (f (record { op = op; addr = d.local_addr; err = e }), d)
  unfolding op_error
  refused {A} op f b o h =
      ap
        (λ b. if b then ◌>>=◌ {B = A × QueuePacketConn} (op_error d op) (λ x. some (f x, d)) else o)
        h
      ∙ ap
          (λ (x : Option PacketError).
            ◌>>=◌ {B = A × QueuePacketConn}
              (◌>>=◌ {B = OpError} x λ e. some (record { op = op; addr = d.local_addr; err = e }))
              (λ x. some (f x, d)))
          kept

  closed-Refuses : d.close_once ≡ true → Refuses d e
  unfolding read_from write_to close_with_error
  closed-Refuses once = (
    λ n pick. refused read (λ x. read_failed x) d.closed _ shut,
    λ pick p addr now. refused write (λ x. write_failed x) d.closed _ shut,
    λ err. refused close (λ x. some x) d.close_once _ once,
  )

closing_once :
    (c : QueuePacketConn) (err : Option PacketError)
    → c.close_once ≡ false
    → c.closed ≡ false
    → close_with_error c err
      ≡ some (none, record c { close_once = true; err = some (kept_error err); closed = true })
unfolding close_with_error
closing_once c err first alive =
    let d : QueuePacketConn = record c {
      close_once = true;
      err = some (kept_error err);
      closed = true;
    } in
    let P = λ (o : Option (Option OpError × QueuePacketConn)). o ≡ some (none, d) in
    if_either P c.close_once _ _ (λ h. absurd (ground arith))
      λ h. if_either P c.closed _ _ (λ k. absurd (ground arith)) λ k. refl

-- When a valid connection is closed, whatever calls that keep to the MTU follow, none of them panics, and from then on
-- ReadFrom, WriteTo and a second close fail with the error that the first close was given, or with errClosedPacketConn
-- if it was given none, whatever is still queued.
pub close-Refuses :
    (mtu : ℕ) (c : QueuePacketConn) (err : Option PacketError) (es : List Event)
    → IsValid mtu c
    → c.closed ≡ false
    → All (Keeps mtu) es
    → (rs : List Result) × (d : QueuePacketConn) × (run c (closing err ∷ es)
        ≡ some (was_closed none ∷ rs, d))
      × Refuses d (kept_error err)
unfolding run step
close-Refuses mtu c err es v alive keeps =
    let d : QueuePacketConn = record c {
      close_once = true;
      err = some (kept_error err);
      closed = true;
    } in
    let w : IsValid mtu d = record {
      clients = v.clients;
      few = v.few;
      room = v.room;
      once = refl;
      reason = λ e. (_, refl);
      mtu_is = v.mtu_is;
      received = v.received;
      sent = v.sent;
      pooled = v.pooled;
    } in
    let (rs, d', goes, v', order, shut) = run-Runs mtu d es keeps w in
    let (s, x) = shut refl in
    (
      rs,
      d',
      rw (run, step, closing_once c err (v.once ∙ alive) alive, goes) refl,
      closed-Refuses d' (kept_error err) s x (v'.once ∙ s),
    )
