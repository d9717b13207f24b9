-- ===== src/Broker/Exchange/Tests.antt =====
-- A run of the broker: a proxy polls, a client takes its snowflake, and the timer fires before the offer is sent.
use Prim.Native.String.{String}
use snowflake.Common.{ℕ, true, false, Option, none, some, ◌≡◌, refl}
use snowflake.Common.{Bool-cases, inl, inr, ◌==◌}
use snowflake.Common.GoMap
use snowflake.Common.Array
use snowflake.ContainerHeap
use snowflake.Broker.BridgeList.{new_bridge_list_holder}
use snowflake.Broker.SnowflakeHeap
use snowflake.Broker.SnowflakeHeap.Pool.{new_snowflake_pool-IsValid}
use snowflake.Broker.Context.{
  Ref, BrokerContext, ProxyPoll, lookup_answer, forget_id, new_broker_context, push_poll,
  remove_snowflake, match_snowflake, register, pop_from,
}
use snowflake.Broker.Context.Evolves.{AreValid, Evolves, Matches, match_snowflake-Matches}
use snowflake.Broker.Exchange.{
  System, start, update, pushed, waiting, offered, removed, sending, awaiting, timed_out, left,
  answering, Steps, stay, go, push, enter, match, expire, send, look_up, give_up, finish_timed_out,
}
use snowflake.Broker.Exchange.Unheard.{IsUnheard, answering_forever}
use snowflake.Broker.Exchange.Sound.{IsSound, Steps-IsSound}
use snowflake.Broker.Exchange.Stuck.{sending_forever}

abbrev context : BrokerContext
context = new_broker_context new_bridge_list_holder "snowflake.torproject.net$"

context-AreValid : AreValid context
unfolding new_broker_context
context-AreValid true = new_snowflake_pool-IsValid.0
context-AreValid false = new_snowflake_pool-IsValid.0

abbrev poll : ℕ → ProxyPoll
poll k = record {
  id = "ymbcCMto7KHNGYlp";
  proxy_type = "standalone";
  nat_type = "restricted";
  clients = 0;
}

abbrev nat_type : ℕ → String
nat_type c = "unrestricted"

abbrev sid : ℕ → String
sid a = "ymbcCMto7KHNGYlp"

abbrev flake : Ref
flake = record { restricted = true; ptr = 0 }

match_snowflake-Matches_example :
    (o : Option Ref) × (ctx : BrokerContext) × (match_snowflake context "unrestricted"
      ≡ some (o, ctx))
    × Evolves context ctx
    × Matches context "unrestricted" o ctx
match_snowflake-Matches_example = match_snowflake-Matches context "unrestricted" context-AreValid

-- The contexts of the run.
unfoldable pushed_context : BrokerContext
unfolding push_poll
pushed_context = elim (push_poll context (poll 0)) [ none ↦ context | some (r, ctx) ↦ ctx ]

abbrev entered_context : BrokerContext
entered_context = register pushed_context flake

unfoldable matched_context : BrokerContext
matched_context = elim (match_snowflake entered_context "unrestricted") [
  | none ↦ context
  | some (r, ctx) ↦ ctx
]

unfoldable expired_context : BrokerContext
expired_context = elim (remove_snowflake matched_context flake) [ none ↦ context | some ctx ↦ ctx ]

push_runs : push_poll context (poll 0) ≡ some (flake, pushed_context)
unfolding pushed_context push_poll SnowflakeHeap.pool_push ContainerHeap.heap_push
    SnowflakeHeap.push ContainerHeap.up ContainerHeap.up_loop SnowflakeHeap.allocate
    new_broker_context SnowflakeHeap.new_snowflake_pool
push_runs = refl

match_runs : match_snowflake entered_context "unrestricted" ≡ some (some flake, matched_context)
unfolding matched_context match_snowflake register pushed_context push_poll SnowflakeHeap.pool_push
    ContainerHeap.heap_push SnowflakeHeap.push ContainerHeap.up ContainerHeap.up_loop
    SnowflakeHeap.allocate new_broker_context SnowflakeHeap.new_snowflake_pool pop_from
    SnowflakeHeap.pool_pop ContainerHeap.heap_pop SnowflakeHeap.swap Array.swap? ContainerHeap.down
    ContainerHeap.down_loop SnowflakeHeap.pop
match_runs = refl

expire_runs : remove_snowflake matched_context flake ≡ some expired_context
unfolding expired_context remove_snowflake matched_context match_snowflake register pushed_context
    push_poll SnowflakeHeap.pool_push ContainerHeap.heap_push SnowflakeHeap.push ContainerHeap.up
    ContainerHeap.up_loop SnowflakeHeap.allocate new_broker_context SnowflakeHeap.new_snowflake_pool
    pop_from SnowflakeHeap.pool_pop ContainerHeap.heap_pop SnowflakeHeap.swap Array.swap?
    ContainerHeap.down ContainerHeap.down_loop SnowflakeHeap.pop SnowflakeHeap.pool_remove
expire_runs = refl

abbrev pushed_system : System
pushed_system = record (start context) {
  ctx = pushed_context;
  polls = update (start context).polls 0 (pushed flake);
}

abbrev entered : System
entered = record pushed_system {
  ctx = entered_context;
  polls = update pushed_system.polls 0 (waiting flake);
}

abbrev matched : System
matched = record entered {
  ctx = matched_context;
  clients = update entered.clients 5 (sending flake);
}

abbrev expired : System
expired = record matched { ctx = expired_context; polls = update matched.polls 0 (removed flake) }

run : Steps poll nat_type sid (start context) expired
unfolding update
run =
    go matched expired
      (go entered matched
        (go pushed_system entered
          (go (start context) pushed_system stay (push 0 flake pushed_context refl push_runs))
          (enter 0 flake refl))
        (match 5 flake matched_context refl match_runs))
      (expire 0 flake expired_context refl expire_runs)

Steps-IsSound_example : IsSound nat_type expired
Steps-IsSound_example = Steps-IsSound poll nat_type sid context expired context-AreValid run

sending_forever_example : expired.clients 5 ≡ sending flake
unfolding update
sending_forever_example =
    sending_forever poll nat_type sid 5 0 flake expired expired
      (Steps-IsSound poll nat_type sid context expired context-AreValid run) refl refl stay

-- The other run: the offer arrives, the proxy's answer looks its snowflake up, and the client gives up.
abbrev sent : System
sent = record matched {
  clients = update matched.clients 5 (awaiting flake);
  polls = update matched.polls 0 (offered flake 5);
}

abbrev looked_up : System
looked_up = record sent { answers = update sent.answers 3 (answering flake) }

abbrev late : System
late = record looked_up { clients = update looked_up.clients 5 (timed_out flake) }

abbrev over : System
over = record late { ctx = forget_id late.ctx flake; clients = update late.clients 5 left }

look_up_runs : lookup_answer matched_context (sid 3) ≡ some flake
unfolding lookup_answer matched_context match_snowflake register pushed_context push_poll
    SnowflakeHeap.pool_push ContainerHeap.heap_push SnowflakeHeap.push ContainerHeap.up
    ContainerHeap.up_loop SnowflakeHeap.allocate new_broker_context SnowflakeHeap.new_snowflake_pool
    pop_from SnowflakeHeap.pool_pop ContainerHeap.heap_pop SnowflakeHeap.swap Array.swap?
    ContainerHeap.down ContainerHeap.down_loop SnowflakeHeap.pop GoMap.lookup GoMap.insert
    SnowflakeHeap.set_index SnowflakeHeap.new_snowflake
look_up_runs = refl

match_run : Steps poll nat_type sid (start context) matched
unfolding update
match_run =
    go entered matched
      (go pushed_system entered
        (go (start context) pushed_system stay (push 0 flake pushed_context refl push_runs))
        (enter 0 flake refl))
      (match 5 flake matched_context refl match_runs)

late_run : Steps poll nat_type sid (start context) over
unfolding update
late_run =
    go late over
      (go looked_up late
        (go sent looked_up (go matched sent match_run (send 5 0 flake refl refl))
          (look_up 3 flake refl look_up_runs))
        (give_up 5 flake refl))
      (finish_timed_out 5 flake refl)

over-IsUnheard : IsUnheard over 3 flake
unfolding update forget_id
over-IsUnheard = record {
  at_send = refl;
  taken =
      (Steps-IsSound poll nat_type sid context matched context-AreValid match_run).taken 5 flake
        refl;
  alone = λ c. elim (Bool-cases (c == 5)) [ inl e ↦ rw e (λ h. h) | inr e ↦ rw e (λ h. h) ];
}

answering_forever_example : over.answers 3 ≡ answering flake
answering_forever_example =
    answering_forever poll nat_type sid 3 flake over over
      (Steps-IsSound poll nat_type sid context over context-AreValid late_run) over-IsUnheard stay
