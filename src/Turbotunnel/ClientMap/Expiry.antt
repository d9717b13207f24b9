-- ===== src/Turbotunnel/ClientMap/Expiry.antt =====
-- removeExpired against the abstract map.
use mathlib.Core.List.{Mem, Perm}
use native.Mathlib.Bridge.{le_prop}
use snowflake.Common.{
  ℕ, zero, suc, ◌+◌, ◌<◌, ◌≤◌, ◌≡◌, refl, ◌∙◌, true, false, Option, none, some, List, [], ◌∷◌,
  length, get_elem?, arith, some_or_none, inl, inr, leb, Bool-cases, if◌then◌else◌, ltb,
}
use snowflake.Common.Array.{get_elem?-get_or, length-perm}
use snowflake.Common.Bytes.{Bytes, eqb}
use snowflake.Common.Text.{bytes_eq}
use snowflake.Common.GoMap
use snowflake.Common.Members.{Mem_place, get_or-Mem}
use snowflake.ContainerHeap.Laws.{heap_pop-Popped}
use snowflake.Turbotunnel.ClientMap.{ClientRecord, ClientMapInner, remove_loop, remove_expired}
use snowflake.Turbotunnel.ClientMap.Index.{IsIndexed, at, no_record}
use snowflake.Turbotunnel.ClientMap.Ends.{heap_model, IsGone}
use snowflake.Turbotunnel.ClientMap.Search.{client, client_iff, client-none}
use snowflake.Turbotunnel.ClientMap.Records.{IsValid, client-popped}

abbrev pub unexpired : (now timeout : ℕ) → Option ClientRecord → Option ClientRecord
unexpired now timeout none = none
unexpired now timeout (some r) = if leb (r.last_seen + timeout) now then none else some r

-- What removeExpired leaves.
pub record Expires (s : ClientMapInner) (now timeout : ℕ) (s' : ClientMapInner) : Type 0 where
  -- the clients that were seen less than the timeout ago, with their records
  pub clients : (a : Bytes) → client s' a ≡ unexpired now timeout (client s a)
  -- the queues of the others are closed
  pub closes :
      (a : Bytes) (r : ClientRecord)
      → client s a ≡ some r
      → r.last_seen + timeout ≤ now
      → s'.closed r.send_queue ≡ true
  pub keeps : (q : ℕ) → s.closed q ≡ true → s'.closed q ≡ true

get_elem?_empty : {A : Type 0} (xs : List A) → length xs ≡ 0 → get_elem? xs 0 ≡ none
get_elem?_empty [] h = refl
get_elem?_empty (x ∷ xs) h = absurd (omega arith)

client_empty :
    (s : ClientMapInner) → IsIndexed s → length s.by_age ≡ 0 → (a : Bytes) → client s a ≡ none
client_empty s v size a = elim (some_or_none (GoMap.lookup a s.by_addr)) [
  | inl e ↦ client-none s a e
  | inr (i, e) ↦
      let (inside, here) : (i < length s.by_age) × ((at s.by_age i).addr ≡ a) =
        rw e at (v.points a) in
      absurd (omega arith)
]

module _ (now timeout : ℕ) where
  Result : ℕ → ClientMapInner → Type 0
  Result fuel s =
      (s' : ClientMapInner) × (remove_loop fuel s now timeout ≡ some s')
      × IsValid s'
      × Expires s now timeout s'

  nobody : (s : ClientMapInner) → ((a : Bytes) → client s a ≡ none) → Expires s now timeout s
  nobody s none_of = record {
    clients = λ a. rw (none_of a) refl;
    closes = λ a r e h. ground (arith, none_of a);
    keeps = λ q h. h;
  }

  -- Nobody is older than the first of the heap.
  all_young :
      (s : ClientMapInner)
      → IsValid s
      → 0 < length s.by_age
      → leb ((at s.by_age 0).last_seen + timeout) now ≡ false
      → Expires s now timeout s
  all_young s v pos young =
      let (run, least) =
        heap_pop-Popped (heap_model s.closed) s
          (record { inv = (v.indexed, λ q h. h); order = v.order }) pos in
      let old = λ (a : Bytes) (r : ClientRecord) (h : client s a ≡ some r).
        Mem_place no_record {P = (at s.by_age 0).last_seen ≤ r.last_seen} r s.by_age le_prop
          (λ i l e. rw (← e) (least i l)) ((client_iff s v.indexed a r).0 h).0 in
      record {
        clients = λ a. elim (some_or_none (client s a)) [
          | inl e ↦ rw e refl
          | inr (r, e) ↦ rw e (ground (arith, old a r e))
        ];
        closes = λ a r e h. absurd (ground (arith, old a r e));
        keeps = λ q h. h;
      }

  expired-Expires :
      (s t s' : ClientMapInner) (x : ClientRecord)
      → IsIndexed s
      → IsIndexed t
      → Mem x s.by_age
      → x.last_seen + timeout ≤ now
      → Perm (x ∷ t.by_age) s.by_age
      → IsGone x t
      → ((q : ℕ) → s.closed q ≡ true → t.closed q ≡ true)
      → Expires t now timeout s'
      → Expires s now timeout s'
  expired-Expires s t s' x v w m old perm gone keeps e =
      let after = client-popped s t v w x perm gone.0 in
      let here : client s x.addr ≡ some x = (client_iff s v x.addr x).1 (m, refl) in
      record {
        clients = λ a.
            e.clients a
            ∙ rw (after a) (elim (Bool-cases (eqb x.addr a)) [
              | inl same ↦ rw (same, ← (bytes_eq.beq_iff x.addr a).0 same, here) (ground arith)
              | inr other ↦ rw other refl
            ]);
        closes = λ a r h k. elim (Bool-cases (eqb x.addr a)) [
          | inl same ↦
              let is_x : x ≡ r = ground (arith, here, bytes_eq.beq_iff x.addr a) in
              e.keeps r.send_queue (rw (← is_x) gone.1)
          | inr other ↦ e.closes a r (after a ∙ rw other h) k
        ];
        keeps = λ q h. e.keeps q (keeps q h);
      }

  remove_loop-Expires :
      (fuel : ℕ) (s : ClientMapInner) → length s.by_age < fuel → IsValid s → Result fuel s
  unfolding Result remove_loop
  remove_loop-Expires zero s l v = absurd (omega arith)
  remove_loop-Expires (suc fuel) s l v = elim (Bool-cases (ltb 0 (length s.by_age))) [
    | inr empty ↦
        let none_left : get_elem? s.by_age 0 ≡ none = get_elem?_empty s.by_age (ground arith) in
        (s, rw (remove_loop, none_left) refl, v, nobody s (client_empty s v.indexed (ground arith)))
    | inl some_left ↦
        let pos : 0 < length s.by_age = ground arith in
        let front = get_elem?-get_or no_record s.by_age 0 pos in
        elim (Bool-cases (leb ((at s.by_age 0).last_seen + timeout) now)) [
          | inr young ↦ (s, rw (remove_loop, front, young) refl, v, all_young s v pos young)
          | inl old ↦
              let ((t, run, ordered, perm, gone), least) =
                heap_pop-Popped (heap_model s.closed) s
                  (record { inv = (v.indexed, λ q h. h); order = v.order }) pos in
              let w : IsValid t = record { indexed = ordered.inv.0; order = ordered.order } in
              let size : length (at s.by_age 0 ∷ t.by_age) ≡ length s.by_age = length-perm perm in
              let (s', run', v', e) = remove_loop-Expires fuel t (omega arith) w in
              (
                s',
                rw (remove_loop, front, old, run) run',
                v',
                expired-Expires s t s' (at s.by_age 0) v.indexed w.indexed
                    (get_or-Mem no_record s.by_age 0 pos) (ground arith) perm gone ordered.inv.1 e,
              )
        ]
  ]

-- removeExpired on a valid map ends without a panic and keeps it valid: the clients that were seen at least the
-- timeout ago are gone and their queues closed, and the others are as they were.
pub remove_expired-Expires :
    (s : ClientMapInner) (now timeout : ℕ)
    → IsValid s
    → (s' : ClientMapInner) × (remove_expired s now timeout ≡ some s')
      × IsValid s'
      × Expires s now timeout s'
unfolding remove_expired Result
remove_expired-Expires s now timeout v =
    remove_loop-Expires now timeout (length s.by_age + 1) s (omega arith) v
