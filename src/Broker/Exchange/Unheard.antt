-- ===== src/Broker/Exchange/Unheard.antt =====
-- ProxyAnswers looks the snowflake up, and then sends it the answer without a timeout. If the client is gone by then,
-- or another answer has come first, nobody receives the answer any more.
use Prim.Native.String.{String}
use snowflake.Common.{ℕ, ◌≡◌, refl, arith, inl, inr, ◌∙◌, ap, Option, none, some, one_value}
use mathlib.Core.Path.{subst}
use mathlib.Core.Option.{some-injective, none-ne-some}
use snowflake.Broker.Context.{Ref, BrokerContext, ProxyPoll, register, forget_id}
use snowflake.Broker.Context.Evolves.{
  Evolves, IsTaken, Evolves-refl, push_poll-Evolves, remove_snowflake-Evolves, Matches,
  match_snowflake-Matches,
}
use snowflake.Broker.Exchange.{
  PollPhase, pushed, waiting, offered, removed, closed, ClientPhase, sending, awaiting, answered,
  timed_out, denied, left, AnswerPhase, fresh, gone, answering, delivered, System, update, Step,
  push, enter, expire, close, match, deny, send, look_up, miss, answer, give_up, finish_answered,
  finish_timed_out, Steps, stay, go,
}
use snowflake.Broker.Exchange.Sound.{
  IsSound, Holds, Step-IsSound, update-at, update_kept, register-Evolves, forget_id-Evolves,
  client_stays, leaves,
}

-- An answer is at its send, and no client has its snowflake, which was taken from its pool.
pub record IsUnheard (s : System) (a : ℕ) (r : Ref) : Type 0 where
  pub at_send : s.answers a ≡ answering r
  pub taken : IsTaken s.ctx r
  pub alone : (c : ℕ) → ¬ Holds (s.clients c) r

module _ (poll : ℕ → ProxyPoll) (nat_type sid : ℕ → String) (a : ℕ) (r : Ref) where
  module _ (s : System) (ok : IsSound nat_type s) (h : IsUnheard s a r) where
    unheard :
        (ctx : BrokerContext) (polls : ℕ → PollPhase) (clients : ℕ → ClientPhase)
        (answers : ℕ → AnswerPhase)
        → Evolves s.ctx ctx
        → ((c : ℕ) (q : Ref) → Holds (clients c) q → Holds (s.clients c) q)
        → answers a ≡ answering r
        → IsUnheard (record { ctx = ctx; polls = polls; clients = clients; answers = answers }) a r
    unheard ctx polls clients answers evolves holds at_send = record {
      at_send = at_send;
      taken = (evolves r.restricted).kept r.ptr h.taken;
      alone = λ c x. h.alone c (holds c r x);
    }

    -- The clients may only keep or drop their snowflakes.
    client_step :
        (ctx : BrokerContext) (polls : ℕ → PollPhase) (clients : ℕ → ClientPhase)
        → Evolves s.ctx ctx
        → ((c : ℕ) (q : Ref) → Holds (clients c) q → Holds (s.clients c) q)
        → IsUnheard (record s { ctx = ctx; polls = polls; clients = clients }) a r
    client_step ctx polls clients evolves holds =
        unheard ctx polls clients s.answers evolves holds h.at_send

    poll_step :
        (ctx : BrokerContext) (polls : ℕ → PollPhase)
        → Evolves s.ctx ctx
        → IsUnheard (record s { ctx = ctx; polls = polls }) a r
    poll_step ctx polls evolves = client_step ctx polls s.clients evolves (λ c q x. x)

    answer_step :
        (b : ℕ) (old new : AnswerPhase) (clients : ℕ → ClientPhase)
        → s.answers b ≡ old
        → ¬ (old ≡ answering r)
        → ((c : ℕ) (q : Ref) → Holds (clients c) q → Holds (s.clients c) q)
        → IsUnheard (record s { clients = clients; answers = update s.answers b new }) a r
    answer_step b old new clients e other holds =
        unheard s.ctx s.polls clients (update s.answers b new) (Evolves-refl s.ctx ok.valid) holds
          (update_kept s.answers a b old new (answering r) e other h.at_send)

    match_step :
        (c : ℕ) (q : Ref) (ctx : BrokerContext) (o : Option Ref) (ctx' : BrokerContext)
        → Evolves s.ctx ctx'
        → Matches s.ctx (nat_type c) o ctx'
        → ◌≡◌ {A = Option Ref × BrokerContext} (o, ctx') (some q, ctx)
        → IsUnheard (record s { ctx = ctx; clients = update s.clients c (sending q) }) a r
    match_step c q ctx none ctx' evolves matches same = absurd (none-ne-some q (ap (λ x. x.0) same))
    match_step c q ctx (some p) ctx' evolves (fits, priority, pops, not_old, new) same = record {
      at_send = h.at_send;
      taken = rw (← ap (λ x. x.1) same) ((evolves r.restricted).kept r.ptr h.taken);
      alone = λ d x. elim (update-at (λ y. Holds y r) s.clients c (sending q) d x) [
        | inl (e, q') ↦ not_old (rw (some-injective p q (ap (λ y. y.0) same) ∙ q') h.taken)
        | inr x' ↦ h.alone d x'
      ];
    }

    Step-IsUnheard : (t : System) → Step poll nat_type sid s t → IsUnheard t a r
    Step-IsUnheard _ (push k q ctx e run) =
        let (p, ctx', run', evolves, new, not_old) = push_poll-Evolves s.ctx (poll k) ok.valid in
        poll_step ctx (update s.polls k (pushed q))
          (subst (λ x. Evolves s.ctx x.1) (one_value run' run) evolves)
    Step-IsUnheard _ (enter k q e) =
        poll_step (register s.ctx q) (update s.polls k (waiting q))
          (register-Evolves s.ctx q ok.valid)
    Step-IsUnheard _ (expire k q ctx e run) =
        let (ctx', run', evolves, out) =
          remove_snowflake-Evolves s.ctx q ok.valid (ok.allocated k q (rw e refl)) in
        poll_step ctx (update s.polls k (removed q)) (rw (← one_value run' run) evolves)
    Step-IsUnheard _ (close k q e) =
        poll_step (forget_id s.ctx q) (update s.polls k (closed q))
          (forget_id-Evolves s.ctx q ok.valid)
    Step-IsUnheard _ (match c q ctx e run) =
        let (o, ctx', run', evolves, matches) =
          match_snowflake-Matches s.ctx (nat_type c) ok.valid in
        match_step c q ctx o ctx' evolves matches (one_value run' run)
    Step-IsUnheard _ (deny c ctx e run) =
        let (o, ctx', run', evolves, matches) =
          match_snowflake-Matches s.ctx (nat_type c) ok.valid in
        client_step ctx s.polls (update s.clients c denied)
          (subst (λ x. Evolves s.ctx x.1) (one_value run' run) evolves)
          (leaves s ok c denied (λ q x. x))
    Step-IsUnheard _ (send c k q e f) =
        client_step s.ctx (update s.polls k (offered q c)) (update s.clients c (awaiting q))
          (Evolves-refl s.ctx ok.valid) (client_stays s ok c (awaiting q) q (rw e refl) (λ p x. x))
    Step-IsUnheard _ (look_up b q e run) =
        answer_step b fresh (answering q) s.clients e (λ x. ground arith) (λ c p x. x)
    Step-IsUnheard _ (miss b e run) =
        answer_step b fresh gone s.clients e (λ x. ground arith) (λ c p x. x)
    Step-IsUnheard _ (answer b c q e f) =
        answer_step b (answering q) delivered (update s.clients c (answered q)) e
          (λ x. let q' : q ≡ r = ground arith in h.alone c (rw f q'))
          (client_stays s ok c (answered q) q (rw f refl) (λ p x. x))
    Step-IsUnheard _ (give_up c q e) =
        client_step s.ctx s.polls (update s.clients c (timed_out q)) (Evolves-refl s.ctx ok.valid)
          (client_stays s ok c (timed_out q) q (rw e refl) (λ p x. x))
    Step-IsUnheard _ (finish_answered c q e) =
        client_step (forget_id s.ctx q) s.polls (update s.clients c left)
          (forget_id-Evolves s.ctx q ok.valid) (leaves s ok c left (λ q x. x))
    Step-IsUnheard _ (finish_timed_out c q e) =
        client_step (forget_id s.ctx q) s.polls (update s.clients c left)
          (forget_id-Evolves s.ctx q ok.valid) (leaves s ok c left (λ q x. x))

  after :
      (s t : System)
      → IsSound nat_type s
      → IsUnheard s a r
      → Steps poll nat_type sid s t
      → IsSound nat_type t × IsUnheard t a r
  after s _ ok h stay = (ok, h)
  after s t ok h (go u _ before step) =
      let (ok', h') = after s u ok h before in
      (Step-IsSound poll nat_type sid u t ok' step, Step-IsUnheard u ok' h' t step)

  -- In a sound state, an answer that is about to be sent to a snowflake that was taken from its pool and that no client
  -- has any more stays there, whatever the handlers do.
  pub answering_forever :
      (s t : System)
      → IsSound nat_type s
      → IsUnheard s a r
      → Steps poll nat_type sid s t
      → t.answers a ≡ answering r
  answering_forever s t ok h steps = (after s t ok h steps).1.at_send
