-- ===== src/Broker/Exchange/Stuck.antt =====
-- ClientOffers takes a snowflake from its pool and then sends it the offer, without a timeout. If the timer of the
-- snowflake's poll fires between the two, nobody receives the offer any more.
use Prim.Native.String.{String}
use snowflake.Common.{ℕ, ◌==◌, ◌≡◌, arith, inl, inr, ◌∙◌, ap, Bool-cases}
use mathlib.Core.Path.{subst}
use snowflake.Broker.Context.{Ref, ProxyPoll}
use snowflake.Broker.Exchange.{
  PollPhase, unstarted, pushed, waiting, offered, removed, closed, idle, sending, awaiting,
  answered, timed_out, denied, left, System, update, Step, push, enter, expire, close, match, deny,
  send, look_up, miss, answer, give_up, finish_answered, finish_timed_out, Steps, stay, go,
}
use snowflake.Broker.Exchange.Sound.{IsSound, Serves, update_kept, Step-IsSound}

-- The timer of the poll has fired.
abbrev pub IsOver : PollPhase → Ref → Type 0
IsOver (removed q) r = q ≡ r
IsOver (closed q) r = q ≡ r
IsOver _ r = ⊥

-- The client is about to send its offer to a snowflake whose poll is over.
abbrev pub IsStuck : System → ℕ → ℕ → Ref → Type 0
IsStuck s c k r = (s.clients c ≡ sending r) × IsOver (s.polls k) r

over-Serves : (phase : PollPhase) (r : Ref) → IsOver phase r → Serves phase r
over-Serves unstarted r h = absurd h
over-Serves (pushed _) r h = absurd h
over-Serves (waiting _) r h = absurd h
over-Serves (offered _ _) r h = absurd h
over-Serves (removed q) r h = h
over-Serves (closed q) r h = h

poll_kept :
    (f : ℕ → PollPhase) (k l : ℕ) (old new : PollPhase) (r : Ref)
    → f l ≡ old
    → (IsOver old r → IsOver new r)
    → IsOver (f k) r
    → IsOver (update f l new k) r
unfolding update
poll_kept f k l old new r e next h = elim (Bool-cases (k == l)) [
  | inl same ↦
      let at : k ≡ l = ground arith in rw same (next (subst (λ x. IsOver x r) (ap f at ∙ e) h))
  | inr apart ↦ rw apart h
]

module _ (poll : ℕ → ProxyPoll) (nat_type sid : ℕ → String) (c k : ℕ) (r : Ref) where
  Step-IsStuck :
      (s t : System)
      → IsSound nat_type s
      → IsStuck s c k r
      → Step poll nat_type sid s t
      → IsStuck t c k r
  Step-IsStuck s _ ok (h, over) (push l q ctx e run) =
      (h, poll_kept s.polls k l unstarted (pushed q) r e (λ x. x) over)
  Step-IsStuck s _ ok (h, over) (enter l q e) =
      (h, poll_kept s.polls k l (pushed q) (waiting q) r e (λ x. x) over)
  Step-IsStuck s _ ok (h, over) (expire l q ctx e run) =
      (h, poll_kept s.polls k l (waiting q) (removed q) r e (λ x. absurd x) over)
  Step-IsStuck s _ ok (h, over) (close l q e) =
      (h, poll_kept s.polls k l (removed q) (closed q) r e (λ x. x) over)
  Step-IsStuck s _ ok (h, over) (match d q ctx e run) =
      (update_kept s.clients c d idle (sending q) (sending r) e (λ x. ground arith) h, over)
  Step-IsStuck s _ ok (h, over) (deny d ctx e run) =
      (update_kept s.clients c d idle denied (sending r) e (λ x. ground arith) h, over)
  Step-IsStuck s _ ok (h, over) (send d l q e f) =
      let other : ¬ (sending q ≡ sending r) = λ x.
        let q' : q ≡ r = ground arith in
        let same : k ≡ l = ok.own k l r (over-Serves (s.polls k) r over) (rw f q') in
        subst (λ y. IsOver y r) (ap s.polls same ∙ f) over in
      (
        update_kept s.clients c d (sending q) (awaiting q) (sending r) e other h,
        poll_kept s.polls k l (waiting q) (offered q d) r f (λ x. x) over,
      )
  Step-IsStuck s _ ok h (look_up a q e run) = h
  Step-IsStuck s _ ok h (miss a e run) = h
  Step-IsStuck s _ ok (h, over) (answer a d q e f) = (
    update_kept s.clients c d (awaiting q) (answered q) (sending r) f (λ x. ground arith) h,
    over,
  )
  Step-IsStuck s _ ok (h, over) (give_up d q e) = (
    update_kept s.clients c d (awaiting q) (timed_out q) (sending r) e (λ x. ground arith) h,
    over,
  )
  Step-IsStuck s _ ok (h, over) (finish_answered d q e) =
      (update_kept s.clients c d (answered q) left (sending r) e (λ x. ground arith) h, over)
  Step-IsStuck s _ ok (h, over) (finish_timed_out d q e) =
      (update_kept s.clients c d (timed_out q) left (sending r) e (λ x. ground arith) h, over)

  after :
      (s t : System)
      → IsSound nat_type s
      → IsStuck s c k r
      → Steps poll nat_type sid s t
      → IsSound nat_type t × IsStuck t c k r
  after s _ ok h stay = (ok, h)
  after s t ok h (go u _ before step) =
      let (ok', h') = after s u ok h before in
      (Step-IsSound poll nat_type sid u t ok' step, Step-IsStuck u t ok' h' step)

  -- In a sound state, a client that is about to send its offer to a snowflake whose poll is over stays there,
  -- whatever the handlers do: it has no timeout, and no goroutine receives.
  pub sending_forever :
      (s t : System)
      → IsSound nat_type s
      → s.clients c ≡ sending r
      → IsOver (s.polls k) r
      → Steps poll nat_type sid s t
      → t.clients c ≡ sending r
  sending_forever s t ok h over steps = (after s t ok (h, over) steps).1.0
