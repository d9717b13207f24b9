-- ===== src/ClientLib/Peers/Valid.antt =====
-- What holds of the peers whatever the calls do: every peer in the channel, or at a send, is closed or active.
use snowflake.Common.{
  ℕ, ◌≤◌, ◌≡◌, refl, Bool, true, false, Option, some, List, [], ◌∷◌, ◌++◌, ◌||◌, ◌==◌, arith, not,
  ◌&&◌, if_either, none, length, leb, ltb, inl, inr, Bool-cases, length-append, some_or_none, ◌∙◌,
}
use mathlib.Core.Option.{some-injective}
use snowflake.ClientLib.Peers.{
  Peers, new_peers, elem, purge, count, collect, pop, pop_loop, nil, melt, end_locked, send_on,
  is_free, collect_unless, close_peer, Event, collecting, sent, popping, melting, ending, closing,
  step, replay,
}

-- Every peer of the channel is closed or active.
abbrev Known : (ℕ → Bool) → List ℕ → List ℕ → Type 0
Known closed active [] = Unit
Known closed active (q ∷ qs) = ((closed q || elem q active) ≡ true) × Known closed active qs

pub record IsValid (capacity : ℕ) (p : Peers) : Type 0 where
  pub known : Known p.closed p.active_peers p.snowflake_chan
  pub sent : (q : ℕ) → p.at_send ≡ some q → (p.closed q || elem q p.active_peers) ≡ true
  pub ended : p.chan_closed ≡ true → (p.melted ≡ true) × (p.active_peers ≡ []) × (p.at_send ≡ none)
  pub few : length p.active_peers ≤ capacity
  pub fits : length p.snowflake_chan ≤ capacity

elem-purge :
    (closed : ℕ → Bool) (q : ℕ) (qs : List ℕ)
    → (closed q || elem q (purge closed qs)) ≡ (closed q || elem q qs)
unfolding elem purge
elem-purge closed q [] = refl
elem-purge closed q (p ∷ ps) = elim (Bool-cases (q == p)) [
  | inl e ↦ let same : q ≡ p = ground arith in rw same (ground (arith, elem-purge closed p ps))
  | inr e ↦ ground (arith, elem-purge closed q ps)
]

length-purge : (closed : ℕ → Bool) (qs : List ℕ) → length (purge closed qs) ≤ length qs
unfolding purge
length-purge closed [] = omega arith
length-purge closed (q ∷ qs) = ground (arith, length-purge closed qs)

elem-append : (q r : ℕ) (qs : List ℕ) → elem q (qs ++ r ∷ []) ≡ (elem q qs || q == r)
unfolding elem
elem-append q r [] = ground arith
elem-append q r (p ∷ ps) = ground (arith, elem-append q r ps)

-- More peers are closed or active.
Known-more :
    (c d : ℕ → Bool) (xs ys qs : List ℕ)
    → ((q : ℕ) → (c q || elem q xs) ≡ true → (d q || elem q ys) ≡ true)
    → Known c xs qs
    → Known d ys qs
Known-more c d xs ys [] h k = tt
Known-more c d xs ys (q ∷ qs) h (k, ks) = (h q k, Known-more c d xs ys qs h ks)

Known-append :
    (c : ℕ → Bool) (xs : List ℕ) (r : ℕ) (qs : List ℕ)
    → (c r || elem r xs) ≡ true
    → Known c xs qs
    → Known c xs (qs ++ r ∷ [])
Known-append c xs r [] h k = (h, tt)
Known-append c xs r (q ∷ qs) h (k, ks) = (k, Known-append c xs r qs h ks)

pop_loop-Known :
    (c : ℕ → Bool) (ended : Bool) (xs qs : List ℕ)
    → Known c xs qs
    → Known c xs (pop_loop c ended qs).1 × (length (pop_loop c ended qs).1 ≤ length qs)
unfolding pop_loop
pop_loop-Known c ended xs [] k = (tt, omega arith)
pop_loop-Known c ended xs (q ∷ qs) (k, ks) = elim (Bool-cases (c q)) [
  | inl e ↦ let (ih, l) = pop_loop-Known c ended xs qs ks in rw e (ih, omega arith)
  | inr e ↦ rw e (ks, omega arith)
]

-- Of a closed channel with closed peers only.
pub pop_loop_nil : (c : ℕ → Bool) (qs : List ℕ) → Known c [] qs → (pop_loop c true qs).0 ≡ nil
unfolding pop_loop elem
pop_loop_nil c [] k = refl
pop_loop_nil c (q ∷ qs) (k, ks) = ground (arith, pop_loop_nil c qs ks)

module _ (capacity : ℕ) (p : Peers) (v : IsValid capacity p) where
  count-IsValid : IsValid capacity (count p).1
  unfolding count purge
  count-IsValid = record {
    known =
        Known-more p.closed p.closed p.active_peers (purge p.closed p.active_peers) p.snowflake_chan
          (λ q h. elem-purge p.closed q p.active_peers ∙ h) v.known;
    sent = λ q h. elem-purge p.closed q p.active_peers ∙ v.sent q h;
    ended = λ m. let (melted, gone, free) = v.ended m in (melted, rw gone refl, free);
    few = omega (arith, v.few, length-purge p.closed p.active_peers);
    fits = v.fits;
  }

  pop-IsValid : IsValid capacity (pop p).1
  unfolding pop
  pop-IsValid =
      let (k, l) = pop_loop-Known p.closed p.chan_closed p.active_peers p.snowflake_chan v.known in
      record {
        known = k;
        sent = v.sent;
        ended = v.ended;
        few = v.few;
        fits = omega (arith, v.fits);
      }

  close_peer-IsValid : (q : ℕ) → IsValid capacity (close_peer q p)
  unfolding close_peer
  close_peer-IsValid q = record {
    known =
        Known-more p.closed (λ r. r == q || p.closed r) p.active_peers p.active_peers
          p.snowflake_chan (λ r h. ground arith) v.known;
    sent = λ r h. ground (arith, v.sent r h);
    ended = v.ended;
    few = v.few;
    fits = v.fits;
  }

  melt-IsValid : IsValid capacity (melt p)
  unfolding melt
  melt-IsValid = record {
    known = v.known;
    sent = v.sent;
    ended = λ m. let (melted, gone, free) = v.ended m in (refl, gone, free);
    few = v.few;
    fits = v.fits;
  }

  end_locked-IsValid : p.melted ≡ true → p.at_send ≡ none → IsValid capacity (end_locked p)
  unfolding end_locked count
  end_locked-IsValid m free = record {
    known =
        Known-more p.closed (λ q. p.closed q || elem q (purge p.closed p.active_peers))
          p.active_peers [] p.snowflake_chan
          (λ q h. rw (elem-purge p.closed q p.active_peers, h) refl) v.known;
    sent = λ q h. absurd (ground arith);
    ended = λ h. (m, refl, free);
    few = omega arith;
    fits = v.fits;
  }

  send_on-IsValid : (q : Option ℕ) → p.at_send ≡ q → IsValid capacity (send_on capacity q p)
  unfolding send_on
  send_on-IsValid none s = v
  send_on-IsValid (some q) s =
      if_either (IsValid capacity) (ltb (length p.snowflake_chan) capacity) _ _
        (λ room. record {
          known = Known-append p.closed p.active_peers q p.snowflake_chan (v.sent q s) v.known;
          sent = λ r h. absurd (ground arith);
          ended = λ h. absurd (ground (arith, (v.ended h).2));
          few = v.few;
          fits = ground (arith, length-append p.snowflake_chan (q ∷ []));
        })
        λ full. v

  abbrev with_peer : ℕ → List ℕ
  with_peer q = purge p.closed p.active_peers ++ q ∷ []

  -- What was closed or active stays so when a peer is added.
  with_peer_more :
      (q r : ℕ)
      → (p.closed r || elem r p.active_peers) ≡ true
      → (p.closed r || elem r (with_peer q)) ≡ true
  with_peer_more q r h =
      let active = purge p.closed p.active_peers in
      ground (arith, elem-append r q active, elem-purge p.closed r p.active_peers)

  with_peer_new : (q : ℕ) → (p.closed q || elem q (with_peer q)) ≡ true
  with_peer_new q = ground (arith, elem-append q q (purge p.closed p.active_peers))

  module _ (q : ℕ) (m : p.melted ≡ false)
      (more : leb capacity (length (purge p.closed p.active_peers)) ≡ false) where
    with_peer_few : length (with_peer q) ≤ capacity
    with_peer_few = ground (arith, length-append (purge p.closed p.active_peers) (q ∷ []))

    with_peer-Known : Known p.closed (with_peer q) p.snowflake_chan
    with_peer-Known =
        Known-more p.closed p.closed p.active_peers (with_peer q) p.snowflake_chan
          (with_peer_more q) v.known

    added-IsValid :
        p.at_send ≡ none
        → ltb (length p.snowflake_chan) capacity ≡ true
        → IsValid capacity
            (record p { active_peers = with_peer q; snowflake_chan = p.snowflake_chan ++ q ∷ [] })
    added-IsValid free room = record {
      known =
          Known-append p.closed (with_peer q) q p.snowflake_chan (with_peer_new q) with_peer-Known;
      sent = λ r h. absurd (ground arith);
      ended = λ h. absurd (ground (arith, (v.ended h).0));
      few = with_peer_few;
      fits = ground (arith, length-append p.snowflake_chan (q ∷ []));
    }

    waiting-IsValid : IsValid capacity (record p { active_peers = with_peer q; at_send = some q })
    waiting-IsValid = record {
      known = with_peer-Known;
      sent = λ r h. let same : q ≡ r = some-injective q r h in rw (← same) (with_peer_new q);
      ended = λ h. absurd (ground (arith, (v.ended h).0));
      few = with_peer_few;
      fits = v.fits;
    }

  collect_unless-IsValid :
      (b : Bool) (caught : Option ℕ)
      → p.melted ≡ b
      → p.at_send ≡ none
      → IsValid capacity (collect_unless b capacity caught p).1
  unfolding collect_unless count
  collect_unless-IsValid true caught m free = v
  collect_unless-IsValid false caught m free =
      elim (Bool-cases (leb capacity (length (purge p.closed p.active_peers)))) [
        | inl full ↦ rw full count-IsValid
        | inr more ↦ elim (some_or_none caught) [
          | inl failed ↦ rw (more, failed) count-IsValid
          | inr (q, caught_one) ↦ elim (Bool-cases (ltb (length p.snowflake_chan) capacity)) [
            | inl room ↦ rw (more, caught_one, room) (added-IsValid q m more free room)
            | inr none_left ↦ rw (more, caught_one, none_left) (waiting-IsValid q m more)
          ]
        ]
      ]

is_free_lem : (p : Peers) → is_free p ≡ true → p.at_send ≡ none
is_free_lem p h = elim (some_or_none p.at_send) [ inl e ↦ e | inr (q, e) ↦ ground arith ]

step-IsValid :
    (capacity : ℕ) (e : Event) (p : Peers)
    → IsValid capacity p
    → IsValid capacity (step capacity e p)
unfolding step collect
step-IsValid capacity (collecting caught) p v =
    if_either (IsValid capacity) (is_free p) _ _
      (λ free. collect_unless-IsValid capacity p v p.melted caught refl (is_free_lem p free))
      λ busy. v
step-IsValid capacity sent p v = send_on-IsValid capacity p v p.at_send refl
step-IsValid capacity popping p v = pop-IsValid capacity p v
step-IsValid capacity melting p v = melt-IsValid capacity p v
step-IsValid capacity ending p v =
    if_either (IsValid capacity) (is_free p && (p.melted && not p.chan_closed)) _ _
      (λ h. end_locked-IsValid capacity p v (ground arith) (is_free_lem p (ground arith))) λ h. v
step-IsValid capacity (closing q) p v = close_peer-IsValid capacity p v q

pub replay-IsValid :
    (capacity : ℕ) (es : List Event) (p : Peers)
    → IsValid capacity p
    → IsValid capacity (replay capacity es p)
unfolding replay
replay-IsValid capacity [] p v = v
replay-IsValid capacity (e ∷ es) p v =
    replay-IsValid capacity es (step capacity e p) (step-IsValid capacity e p v)

pub start-IsValid : (capacity : ℕ) (closed : ℕ → Bool) → IsValid capacity (new_peers closed)
unfolding new_peers
start-IsValid capacity closed = record {
  known = tt;
  sent = λ q h. absurd (ground arith);
  ended = λ h. absurd (ground arith);
  few = omega arith;
  fits = omega arith;
}
