-- ===== src/Broker/Context.antt =====
-- broker/broker.go and broker/ipc.go: the state that the handlers of the broker share, and the steps that
-- they take between two points at which they may block. `none` is a panic.
pub mod Evolves
use Prim.Native.String.{String}
use snowflake.Common.{ℕ, Bool, true, false, not, Option, none, some, List, [], if◌then◌else◌}
use snowflake.Common.Bytes.{codes}
use snowflake.Common.Text.{str_eq, string_eq}
use snowflake.Common.GoMap
use snowflake.ContainerHeap.{◌>>=◌}
use snowflake.Messages.{nat_unrestricted}
use snowflake.NameMatcher.{new_name_matcher, is_superset_of}
use snowflake.Broker.BridgeList.{BridgeListHolder}
use snowflake.Broker.SnowflakeHeap.{
  SnowflakePool, new_snowflake, new_snowflake_pool, allocate, pool_push, pool_pop, pool_remove,
}

-- A *Snowflake: the pool that it belongs to, and the pointer.
pub record Ref : Type 0 where
  pub restricted : Bool
  pub ptr : ℕ

pub record BrokerContext : Type 0 where
  pub unrestricted_pool : SnowflakePool
  pub restricted_pool : SnowflakePool
  pub id_to_snowflake : List (String × Ref)
  pub bridge_list : BridgeListHolder
  pub allowed_relay_pattern : String

unfoldable pub new_broker_context : BridgeListHolder → String → BrokerContext
new_broker_context bridges pattern = record {
  unrestricted_pool = new_snowflake_pool;
  restricted_pool = new_snowflake_pool;
  id_to_snowflake = [];
  bridge_list = bridges;
  allowed_relay_pattern = pattern;
}

pub record ProxyPoll : Type 0 where
  pub id : String
  pub proxy_type : String
  pub nat_type : String
  pub clients : ℕ

abbrev pub pool_of : BrokerContext → Bool → SnowflakePool
pool_of ctx true = ctx.restricted_pool
pool_of ctx false = ctx.unrestricted_pool

abbrev pub set_pool : BrokerContext → Bool → SnowflakePool → BrokerContext
set_pool ctx true sp = record ctx { restricted_pool = sp }
set_pool ctx false sp = record ctx { unrestricted_pool = sp }

-- Whether GetPool is the restricted pool.
abbrev pub is_restricted : ProxyPoll → Bool
is_restricted poll = not (str_eq poll.nat_type nat_unrestricted)

abbrev pub get_pool : BrokerContext → ProxyPoll → SnowflakePool
get_pool ctx poll = pool_of ctx (is_restricted poll)

-- Broker: NewSnowflake and Push, for one request.
unfoldable pub push_poll : BrokerContext → ProxyPoll → Option (Ref × BrokerContext)
push_poll ctx poll =
    let (p, sp) =
      allocate (get_pool ctx poll)
        (new_snowflake poll.id poll.proxy_type poll.nat_type poll.clients) in
    pool_push sp p >>= λ sp'.
    some
      (record { restricted = is_restricted poll; ptr = p }, set_pool ctx (is_restricted poll) sp')

-- `snowflake.id`
abbrev pub id_of : BrokerContext → Ref → String
id_of ctx r = ((pool_of ctx r.restricted).h.flakes r.ptr).id

-- Broker: `ctx.idToSnowflake[snowflake.id] = snowflake`.
unfoldable pub register : BrokerContext → Ref → BrokerContext
register ctx r = record ctx { id_to_snowflake = GoMap.insert (id_of ctx r) r ctx.id_to_snowflake }

-- Broker, after the timeout: `pool.Remove(snowflake)`.
unfoldable pub remove_snowflake : BrokerContext → Ref → Option BrokerContext
remove_snowflake ctx r =
    pool_remove (pool_of ctx r.restricted) r.ptr >>= λ sp. some (set_pool ctx r.restricted sp)

-- Broker and ClientOffers: `delete(ctx.idToSnowflake, snowflake.id)`.
unfoldable pub forget_id : BrokerContext → Ref → BrokerContext
forget_id ctx r = record ctx { id_to_snowflake = GoMap.delete (id_of ctx r) ctx.id_to_snowflake }

abbrev pub as_ref : Bool → Option ℕ → Option Ref
as_ref restricted none = none
as_ref restricted (some p) = some (record { restricted = restricted; ptr = p })

-- Pop of one of the pools.
unfoldable pub pop_from : BrokerContext → Bool → Option (Option Ref × BrokerContext)
pop_from ctx restricted = pool_pop (pool_of ctx restricted) >>= λ (o, sp).
    some (as_ref restricted o, set_pool ctx restricted sp)

unfoldable pub match_snowflake : BrokerContext → String → Option (Option Ref × BrokerContext)
match_snowflake ctx nat_type =
    if str_eq nat_type nat_unrestricted
    then (pop_from ctx true >>= λ (o, ctx'). elim o [
      | none ↦ pop_from ctx' false
      | some r ↦ some (some r, ctx')
    ])
    else pop_from ctx false

-- ProxyAnswers: `i.ctx.idToSnowflake[req.Sid]`.
unfoldable pub lookup_answer : BrokerContext → String → Option Ref
lookup_answer ctx sid = GoMap.lookup sid ctx.id_to_snowflake

unfoldable pub check_proxy_relay_pattern : BrokerContext → Option String → Bool
check_proxy_relay_pattern ctx none = false
check_proxy_relay_pattern ctx (some pattern) =
    is_superset_of (new_name_matcher (codes pattern))
      (new_name_matcher (codes ctx.allowed_relay_pattern))
