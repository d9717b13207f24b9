-- ===== src/Broker/Exchange.antt =====
-- broker/broker.go and broker/ipc.go: the handlers of the broker running together.
-- A call of ProxyPolls, ClientOffers or ProxyAnswers has a number, and its phase tells where it stands between
-- two steps; a step is what one goroutine does between two points at which it may block or lose a lock.
-- Both sides of a send on an unbuffered channel move in one step. Times are free: a timer may fire as soon
-- as its select is reached.
pub mod Sound
pub mod Stuck
pub mod Unheard
mod Tests
use Prim.Native.String.{String}
use snowflake.Common.{ℕ, ◌==◌, Option, none, some, ◌≡◌, if◌then◌else◌}
use snowflake.Broker.Context.{
  Ref, BrokerContext, ProxyPoll, push_poll, register, remove_snowflake, forget_id, match_snowflake,
  lookup_answer,
}

-- A call of ProxyPolls, with the goroutine that Broker starts for it.
pub data PollPhase : Type 0 where
  unstarted : PollPhase
  -- Broker has pushed the snowflake
  pushed : Ref → PollPhase
  -- in the map, the goroutine in its select
  waiting : Ref → PollPhase
  -- the offer of the client has arrived
  offered : Ref → ℕ → PollPhase
  -- the timer has fired, and the snowflake is out of the pool
  removed : Ref → PollPhase
  -- out of the map, and the nil offer sent
  closed : Ref → PollPhase

-- A call of ClientOffers.
pub data ClientPhase : Type 0 where
  idle : ClientPhase
  -- at `snowflake.offerChannel <- offer`
  sending : Ref → ClientPhase
  -- in the select on answerChannel
  awaiting : Ref → ClientPhase
  answered : Ref → ClientPhase
  timed_out : Ref → ClientPhase
  denied : ClientPhase
  left : ClientPhase

-- A call of ProxyAnswers.
pub data AnswerPhase : Type 0 where
  fresh : AnswerPhase
  gone : AnswerPhase
  -- at `snowflake.answerChannel <- req.Answer`
  answering : Ref → AnswerPhase
  delivered : AnswerPhase

pub record System : Type 0 where
  pub ctx : BrokerContext
  pub polls : ℕ → PollPhase
  pub clients : ℕ → ClientPhase
  pub answers : ℕ → AnswerPhase

unfoldable pub update : {A : Type 0} → (ℕ → A) → ℕ → A → ℕ → A
update f k a i = if i == k then a else f i

abbrev pub start : BrokerContext → System
start ctx = record { ctx = ctx; polls = λ k. unstarted; clients = λ c. idle; answers = λ a. fresh }

-- The requests: the polls of the proxies, the NAT types of the clients, and the session ids of the answers.
module _ (poll : ℕ → ProxyPoll) (nat_type sid : ℕ → String) where
  pub data Step (s : System) : System → Type 0 where
    push :
        (k : ℕ) (r : Ref) (ctx : BrokerContext)
        → s.polls k ≡ unstarted
        → push_poll s.ctx (poll k) ≡ some (r, ctx)
        → Step s (record s { ctx = ctx; polls = update s.polls k (pushed r) })
    enter :
        (k : ℕ) (r : Ref)
        → s.polls k ≡ pushed r
        → Step s (record s { ctx = register s.ctx r; polls = update s.polls k (waiting r) })
    expire :
        (k : ℕ) (r : Ref) (ctx : BrokerContext)
        → s.polls k ≡ waiting r
        → remove_snowflake s.ctx r ≡ some ctx
        → Step s (record s { ctx = ctx; polls = update s.polls k (removed r) })
    close :
        (k : ℕ) (r : Ref)
        → s.polls k ≡ removed r
        → Step s (record s { ctx = forget_id s.ctx r; polls = update s.polls k (closed r) })
    match :
        (c : ℕ) (r : Ref) (ctx : BrokerContext)
        → s.clients c ≡ idle
        → match_snowflake s.ctx (nat_type c) ≡ some (some r, ctx)
        → Step s (record s { ctx = ctx; clients = update s.clients c (sending r) })
    deny :
        (c : ℕ) (ctx : BrokerContext)
        → s.clients c ≡ idle
        → match_snowflake s.ctx (nat_type c) ≡ some (none, ctx)
        → Step s (record s { ctx = ctx; clients = update s.clients c denied })
    send :
        (c k : ℕ) (r : Ref)
        → s.clients c ≡ sending r
        → s.polls k ≡ waiting r
        → Step s (record s {
          clients = update s.clients c (awaiting r);
          polls = update s.polls k (offered r c);
        })
    look_up :
        (a : ℕ) (r : Ref)
        → s.answers a ≡ fresh
        → lookup_answer s.ctx (sid a) ≡ some r
        → Step s (record s { answers = update s.answers a (answering r) })
    miss :
        (a : ℕ)
        → s.answers a ≡ fresh
        → lookup_answer s.ctx (sid a) ≡ none
        → Step s (record s { answers = update s.answers a gone })
    answer :
        (a c : ℕ) (r : Ref)
        → s.answers a ≡ answering r
        → s.clients c ≡ awaiting r
        → Step s (record s {
          answers = update s.answers a delivered;
          clients = update s.clients c (answered r);
        })
    give_up :
        (c : ℕ) (r : Ref)
        → s.clients c ≡ awaiting r
        → Step s (record s { clients = update s.clients c (timed_out r) })
    finish_answered :
        (c : ℕ) (r : Ref)
        → s.clients c ≡ answered r
        → Step s (record s { ctx = forget_id s.ctx r; clients = update s.clients c left })
    finish_timed_out :
        (c : ℕ) (r : Ref)
        → s.clients c ≡ timed_out r
        → Step s (record s { ctx = forget_id s.ctx r; clients = update s.clients c left })

  pub data Steps (s : System) : System → Type 0 where
    stay : Steps s s
    go : (t u : System) → Steps s t → Step t u → Steps s u
