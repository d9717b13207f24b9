-- ===== src/Broker/Exchange/Sound.antt =====
-- What holds of the broker after any number of steps.
use Prim.Native.String.{String}
use snowflake.Common.{
  ℕ, ◌==◌, ◌≡◌, refl, true, false, Option, none, some, arith, inl, inr, sym, ◌∙◌, ap, Bool-cases,
  ◌⊎◌, one_value,
}
use mathlib.Core.Path.{subst}
use mathlib.Core.Option.{some-injective, none-ne-some}
use snowflake.Common.Text.{str_eq}
use snowflake.Messages.{nat_unrestricted}
use snowflake.Broker.Context.{Ref, BrokerContext, ProxyPoll, register, forget_id}
use snowflake.Broker.Context.Evolves.{
  AreValid, Evolves, IsAllocated, IsTaken, push_poll-Evolves, remove_snowflake-Evolves,
  match_snowflake-Matches, Evolves-refl, Matches,
}
use snowflake.Broker.Exchange.{
  PollPhase, unstarted, pushed, waiting, offered, removed, closed, ClientPhase, sending, awaiting,
  answered, timed_out, denied, left, AnswerPhase, System, update, start, Step, push, enter, expire,
  close, match, deny, send, look_up, miss, answer, give_up, finish_answered, finish_timed_out,
  Steps, stay, go, answering, delivered, gone,
}

-- The client has the snowflake from its pool, until it leaves.
abbrev pub Holds : ClientPhase → Ref → Type 0
Holds (sending q) r = q ≡ r
Holds (awaiting q) r = q ≡ r
Holds (answered q) r = q ≡ r
Holds (timed_out q) r = q ≡ r
Holds _ r = ⊥

-- The snowflake was made for the poll.
abbrev pub Serves : PollPhase → Ref → Type 0
Serves unstarted r = ⊥
Serves (pushed q) r = q ≡ r
Serves (waiting q) r = q ≡ r
Serves (offered q c) r = q ≡ r
Serves (removed q) r = q ≡ r
Serves (closed q) r = q ≡ r

pub record IsSound (nat_type : ℕ → String) (s : System) : Type 0 where
  -- Every index of both heaps is right, so that no method of a pool panics.
  pub valid : AreValid s.ctx
  -- A snowflake that a client has is in no pool.
  pub taken : (c : ℕ) (r : Ref) → Holds (s.clients c) r → IsTaken s.ctx r
  -- No two clients have one snowflake.
  pub alone : (c d : ℕ) (r : Ref) → Holds (s.clients c) r → Holds (s.clients d) r → c ≡ d
  -- Only a client with an unrestricted NAT has a restricted snowflake.
  pub suits :
      (c : ℕ) (r : Ref)
      → Holds (s.clients c) r
      → r.restricted ≡ true
      → str_eq (nat_type c) nat_unrestricted ≡ true
  pub allocated : (k : ℕ) (r : Ref) → Serves (s.polls k) r → IsAllocated s.ctx r
  -- No two polls have one snowflake.
  pub own : (k l : ℕ) (r : Ref) → Serves (s.polls k) r → Serves (s.polls l) r → k ≡ l

pub update-at :
    {A : Type 0} (P : A → Type 0) (f : ℕ → A) (k : ℕ) (a : A) (i : ℕ)
    → P (update f k a i)
    → ((i ≡ k) × P a) ⊎ P (f i)
unfolding update
update-at P f k a i h = elim (Bool-cases (i == k)) [
  | inl e ↦ inl (ground arith, rw e at h)
  | inr e ↦ inr (rw e at h)
]

-- An update leaves a value in place that the updated entry has not got.
pub update_kept :
    {A : Type 0} (f : ℕ → A) (i k : ℕ) (old new a : A)
    → f k ≡ old
    → ¬ (old ≡ a)
    → f i ≡ a
    → update f k new i ≡ a
unfolding update
update_kept f i k old new a e other h = elim (Bool-cases (i == k)) [
  | inl same ↦ absurd (other (sym e ∙ ap f (ground arith) ∙ h))
  | inr apart ↦ rw apart h
]

pub register-Evolves : (ctx : BrokerContext) (r : Ref) → AreValid ctx → Evolves ctx (register ctx r)
unfolding register
register-Evolves ctx r v true = Evolves-refl ctx v true
register-Evolves ctx r v false = Evolves-refl ctx v false

pub forget_id-Evolves :
    (ctx : BrokerContext) (r : Ref) → AreValid ctx → Evolves ctx (forget_id ctx r)
unfolding forget_id
forget_id-Evolves ctx r v true = Evolves-refl ctx v true
forget_id-Evolves ctx r v false = Evolves-refl ctx v false

module _ {nat_type : ℕ → String} (s : System) (ok : IsSound nat_type s) where
  -- A step that takes no snowflake from a pool and pushes none.
  carry :
      (ctx : BrokerContext) (polls : ℕ → PollPhase) (clients : ℕ → ClientPhase)
      (answers : ℕ → AnswerPhase)
      → Evolves s.ctx ctx
      → ((k : ℕ) (r : Ref) → Serves (polls k) r → Serves (s.polls k) r)
      → ((c : ℕ) (r : Ref) → Holds (clients c) r → Holds (s.clients c) r)
      → IsSound nat_type (record { ctx = ctx; polls = polls; clients = clients; answers = answers })
  carry ctx polls clients answers evolves p c = record {
    valid = λ b. (evolves b).valid;
    taken = λ d r h. (evolves r.restricted).kept r.ptr (ok.taken d r (c d r h));
    alone = λ d e r h k. ok.alone d e r (c d r h) (c e r k);
    suits = λ d r h. ok.suits d r (c d r h);
    allocated = λ k r h. omega (arith, ok.allocated k r (p k r h), (evolves r.restricted).grows);
    own = λ k l r h g. ok.own k l r (p k r h) (p l r g);
  }

  poll_stays :
      (k : ℕ) (phase : PollPhase) (q : Ref)
      → Serves (s.polls k) q
      → ((r : Ref) → Serves phase r → q ≡ r)
      → (l : ℕ) (r : Ref) → Serves (update s.polls k phase l) r
      → Serves (s.polls l) r
  poll_stays k phase q h same l r g = elim (update-at (λ x. Serves x r) s.polls k phase l g) [
    | inl (e, g') ↦ rw (e, ← same r g') h
    | inr g' ↦ g'
  ]

  pub client_stays :
      (c : ℕ) (phase : ClientPhase) (q : Ref)
      → Holds (s.clients c) q
      → ((r : Ref) → Holds phase r → q ≡ r)
      → (d : ℕ) (r : Ref) → Holds (update s.clients c phase d) r
      → Holds (s.clients d) r
  client_stays c phase q h same d r g = elim (update-at (λ x. Holds x r) s.clients c phase d g) [
    | inl (e, g') ↦ rw (e, ← same r g') h
    | inr g' ↦ g'
  ]

  pub leaves :
      (c : ℕ) (phase : ClientPhase)
      → ((r : Ref) → Holds phase r → ⊥)
      → (d : ℕ) (r : Ref) → Holds (update s.clients c phase d) r
      → Holds (s.clients d) r
  leaves c phase empty d r g = elim (update-at (λ x. Holds x r) s.clients c phase d g) [
    | inl (e, g') ↦ absurd (empty r g')
    | inr g' ↦ g'
  ]

  pushed-IsSound :
      (k : ℕ) (q : Ref) (ctx : BrokerContext)
      → Evolves s.ctx ctx
      → IsAllocated ctx q
      → ¬ IsAllocated s.ctx q
      → IsSound nat_type (record s { ctx = ctx; polls = update s.polls k (pushed q) })
  pushed-IsSound k q ctx evolves new not_old = record {
    valid = λ b. (evolves b).valid;
    taken = λ d r h. (evolves r.restricted).kept r.ptr (ok.taken d r h);
    alone = ok.alone;
    suits = ok.suits;
    allocated = λ l r g. elim (update-at (λ x. Serves x r) s.polls k (pushed q) l g) [
      | inl (e, g') ↦ rw (← g') new
      | inr g' ↦ omega (arith, ok.allocated l r g', (evolves r.restricted).grows)
    ];
    own = λ l m r g h. elim (update-at (λ x. Serves x r) s.polls k (pushed q) l g) [
      | inl (e, g') ↦ elim (update-at (λ x. Serves x r) s.polls k (pushed q) m h) [
        | inl (f, h') ↦ e ∙ sym f
        | inr h' ↦ absurd (not_old (rw g' (ok.allocated m r h')))
      ]
      | inr g' ↦ elim (update-at (λ x. Serves x r) s.polls k (pushed q) m h) [
        | inl (f, h') ↦ absurd (not_old (rw h' (ok.allocated l r g')))
        | inr h' ↦ ok.own l m r g' h'
      ]
    ];
  }

  matched-IsSound :
      (c : ℕ) (q : Ref) (ctx : BrokerContext)
      → Evolves s.ctx ctx
      → (¬ IsTaken s.ctx q)
      → IsTaken ctx q
      → (q.restricted ≡ true → str_eq (nat_type c) nat_unrestricted ≡ true)
      → IsSound nat_type (record s { ctx = ctx; clients = update s.clients c (sending q) })
  matched-IsSound c q ctx evolves not_old new fits = record {
    valid = λ b. (evolves b).valid;
    taken = λ d r g. elim (update-at (λ x. Holds x r) s.clients c (sending q) d g) [
      | inl (e, g') ↦ rw (← g') new
      | inr g' ↦ (evolves r.restricted).kept r.ptr (ok.taken d r g')
    ];
    alone = λ d f r g h. elim (update-at (λ x. Holds x r) s.clients c (sending q) d g) [
      | inl (e, g') ↦ elim (update-at (λ x. Holds x r) s.clients c (sending q) f h) [
        | inl (e', h') ↦ e ∙ sym e'
        | inr h' ↦ absurd (not_old (rw g' (ok.taken f r h')))
      ]
      | inr g' ↦ elim (update-at (λ x. Holds x r) s.clients c (sending q) f h) [
        | inl (e', h') ↦ absurd (not_old (rw h' (ok.taken d r g')))
        | inr h' ↦ ok.alone d f r g' h'
      ]
    ];
    suits = λ d r g. elim (update-at (λ x. Holds x r) s.clients c (sending q) d g) [
      | inl (e, g') ↦ rw (e, ← g') fits
      | inr g' ↦ ok.suits d r g'
    ];
    allocated = λ l r g. omega (arith, ok.allocated l r g, (evolves r.restricted).grows);
    own = ok.own;
  }

-- Every step of the broker keeps it sound.
pub Step-IsSound :
    (poll : ℕ → ProxyPoll) (nat_type sid : ℕ → String) (s t : System)
    → IsSound nat_type s
    → Step poll nat_type sid s t
    → IsSound nat_type t
Step-IsSound poll nat_type sid s _ ok (push k r ctx e run) =
    let (q, ctx', run', evolves, new, not_old) = push_poll-Evolves s.ctx (poll k) ok.valid in
    subst (λ x. IsSound nat_type (record s { ctx = x.1; polls = update s.polls k (pushed x.0) }))
      (one_value run' run) (pushed-IsSound s ok k q ctx' evolves new not_old)
Step-IsSound poll nat_type sid s _ ok (enter k r e) =
    carry s ok (register s.ctx r) (update s.polls k (waiting r)) s.clients s.answers
      (register-Evolves s.ctx r ok.valid) (poll_stays s ok k (waiting r) r (rw e refl) (λ q h. h))
      (λ c q h. h)
Step-IsSound poll nat_type sid s _ ok (expire k r ctx e run) =
    let allocated = ok.allocated k r (rw e refl) in
    let (ctx', run', evolves, out) = remove_snowflake-Evolves s.ctx r ok.valid allocated in
    carry s ok ctx (update s.polls k (removed r)) s.clients s.answers
      (rw (← one_value run' run) evolves) (poll_stays s ok k (removed r) r (rw e refl) (λ q h. h))
      (λ c q h. h)
Step-IsSound poll nat_type sid s _ ok (close k r e) =
    carry s ok (forget_id s.ctx r) (update s.polls k (closed r)) s.clients s.answers
      (forget_id-Evolves s.ctx r ok.valid) (poll_stays s ok k (closed r) r (rw e refl) (λ q h. h))
      (λ c q h. h)
Step-IsSound poll nat_type sid s _ ok (match c r ctx e run) =
    let (o, ctx', run', evolves, matches) = match_snowflake-Matches s.ctx (nat_type c) ok.valid in
    go_on o ctx' evolves matches (one_value run' run)
  where
    go_on :
        (o : Option Ref) (ctx' : BrokerContext)
        → Evolves s.ctx ctx'
        → Matches s.ctx (nat_type c) o ctx'
        → ◌≡◌ {A = Option Ref × BrokerContext} (o, ctx') (some r, ctx)
        → IsSound nat_type (record s { ctx = ctx; clients = update s.clients c (sending r) })
    go_on none ctx' evolves matches same = absurd (none-ne-some r (ap (λ x. x.0) same))
    go_on (some q) ctx' evolves (fits, priority, pops, not_old, new) same =
        rw (← ap (λ x. x.1) same, ← some-injective q r (ap (λ x. x.0) same))
          (matched-IsSound s ok c q ctx' evolves not_old new fits)
Step-IsSound poll nat_type sid s _ ok (deny c ctx e run) =
    let (o, ctx', run', evolves, matches) = match_snowflake-Matches s.ctx (nat_type c) ok.valid in
    carry s ok ctx s.polls (update s.clients c denied) s.answers
      (subst (λ x. Evolves s.ctx x.1) (one_value run' run) evolves) (λ k q h. h)
      (leaves s ok c denied (λ q h. h))
Step-IsSound poll nat_type sid s _ ok (send c k r e f) =
    carry s ok s.ctx (update s.polls k (offered r c)) (update s.clients c (awaiting r)) s.answers
      (Evolves-refl s.ctx ok.valid) (poll_stays s ok k (offered r c) r (rw f refl) (λ q h. h))
      (client_stays s ok c (awaiting r) r (rw e refl) (λ q h. h))
Step-IsSound poll nat_type sid s _ ok (look_up a r e run) =
    carry s ok s.ctx s.polls s.clients (update s.answers a (answering r))
      (Evolves-refl s.ctx ok.valid) (λ k q h. h) (λ c q h. h)
Step-IsSound poll nat_type sid s _ ok (miss a e run) =
    carry s ok s.ctx s.polls s.clients (update s.answers a gone) (Evolves-refl s.ctx ok.valid)
      (λ k q h. h) (λ c q h. h)
Step-IsSound poll nat_type sid s _ ok (answer a c r e f) =
    carry s ok s.ctx s.polls (update s.clients c (answered r)) (update s.answers a delivered)
      (Evolves-refl s.ctx ok.valid) (λ k q h. h)
      (client_stays s ok c (answered r) r (rw f refl) (λ q h. h))
Step-IsSound poll nat_type sid s _ ok (give_up c r e) =
    carry s ok s.ctx s.polls (update s.clients c (timed_out r)) s.answers
      (Evolves-refl s.ctx ok.valid) (λ k q h. h)
      (client_stays s ok c (timed_out r) r (rw e refl) (λ q h. h))
Step-IsSound poll nat_type sid s _ ok (finish_answered c r e) =
    carry s ok (forget_id s.ctx r) s.polls (update s.clients c left) s.answers
      (forget_id-Evolves s.ctx r ok.valid) (λ k q h. h) (leaves s ok c left (λ q h. h))
Step-IsSound poll nat_type sid s _ ok (finish_timed_out c r e) =
    carry s ok (forget_id s.ctx r) s.polls (update s.clients c left) s.answers
      (forget_id-Evolves s.ctx r ok.valid) (λ k q h. h) (leaves s ok c left (λ q h. h))

start-IsSound :
    (nat_type : ℕ → String) (ctx : BrokerContext) → AreValid ctx → IsSound nat_type (start ctx)
start-IsSound nat_type ctx v = record {
  valid = v;
  taken = λ c r h. absurd h;
  alone = λ c d r h k. absurd h;
  suits = λ c r h. absurd h;
  allocated = λ k r h. absurd h;
  own = λ k l r h g. absurd h;
}

-- Whatever the interleaving of the handlers, from a context with valid pools: both pools are valid, a snowflake
-- that a client has is in no pool, no two clients and no two polls have one snowflake, and only clients with an
-- unrestricted NAT have restricted snowflakes.
pub Steps-IsSound :
    (poll : ℕ → ProxyPoll) (nat_type sid : ℕ → String) (ctx : BrokerContext) (s : System)
    → AreValid ctx
    → Steps poll nat_type sid (start ctx) s
    → IsSound nat_type s
Steps-IsSound poll nat_type sid ctx _ v stay = start-IsSound nat_type ctx v
Steps-IsSound poll nat_type sid ctx s v (go t _ before step) =
    Step-IsSound poll nat_type sid t s (Steps-IsSound poll nat_type sid ctx t v before) step
