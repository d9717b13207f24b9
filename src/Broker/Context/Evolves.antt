-- ===== src/Broker/Context/Evolves.antt =====
-- The steps on the shared state keep both pools valid, and a snowflake that was taken stays taken.
use Prim.Native.String.{String}
use snowflake.Common.{
  ℕ, ◌<◌, ◌≤◌, ◌≡◌, refl, Bool, true, false, Option, none, some, [], arith, inl, inr, Bool-cases,
}
use snowflake.Common.Text.{str_eq}
use snowflake.Messages.{nat_unrestricted}
use snowflake.Broker.SnowflakeHeap.{SnowflakePool, new_snowflake, allocate, pool_pop}
use snowflake.Broker.SnowflakeHeap.Pool.{
  IsValid, Pops, Removes, waiting, pool_pop-Pops, pool_remove-Removes, add-IsValid,
}
use snowflake.Broker.SnowflakeHeap.Held.{
  IsHeld, Pops-IsHeld, Pops-taken, Removes-IsHeld, added-IsHeld,
}
use snowflake.Broker.Context.{
  Ref, BrokerContext, ProxyPoll, pool_of, set_pool, is_restricted, push_poll, remove_snowflake,
  pop_from, match_snowflake,
}

-- A pool after some steps of its methods.
pub record PoolEvolves (sp sp' : SnowflakePool) : Type 0 where
  pub valid : IsValid sp'
  pub kept : (p : ℕ) → IsHeld sp p → IsHeld sp' p
  pub grows : sp.next ≤ sp'.next

abbrev pub Evolves : BrokerContext → BrokerContext → Type 0
Evolves ctx ctx' = (b : Bool) → PoolEvolves (pool_of ctx b) (pool_of ctx' b)

abbrev pub AreValid : BrokerContext → Type 0
AreValid ctx = (b : Bool) → IsValid (pool_of ctx b)

PoolEvolves-refl : (sp : SnowflakePool) → IsValid sp → PoolEvolves sp sp
PoolEvolves-refl sp v = record { valid = v; kept = λ p h. h; grows = omega arith }

pub Evolves-refl : (ctx : BrokerContext) → AreValid ctx → Evolves ctx ctx
Evolves-refl ctx v b = PoolEvolves-refl (pool_of ctx b) (v b)

set_pool-Evolves :
    (ctx : BrokerContext) (b : Bool) (sp : SnowflakePool)
    → AreValid ctx
    → PoolEvolves (pool_of ctx b) sp
    → Evolves ctx (set_pool ctx b sp)
set_pool-Evolves ctx true sp v e true = e
set_pool-Evolves ctx true sp v e false = PoolEvolves-refl ctx.unrestricted_pool (v false)
set_pool-Evolves ctx false sp v e true = PoolEvolves-refl ctx.restricted_pool (v true)
set_pool-Evolves ctx false sp v e false = e

pool_of-set_pool :
    (ctx : BrokerContext) (b : Bool) (sp : SnowflakePool) → pool_of (set_pool ctx b sp) b ≡ sp
pool_of-set_pool ctx true sp = refl
pool_of-set_pool ctx false sp = refl

set_pool-same : (ctx : BrokerContext) (b : Bool) → set_pool ctx b (pool_of ctx b) ≡ ctx
set_pool-same ctx true = refl
set_pool-same ctx false = refl

-- A snowflake of its pool.
abbrev pub IsAllocated : BrokerContext → Ref → Type 0
IsAllocated ctx r = r.ptr < (pool_of ctx r.restricted).next

abbrev pub IsTaken : BrokerContext → Ref → Type 0
IsTaken ctx r = IsHeld (pool_of ctx r.restricted) r.ptr

pub push_poll-Evolves :
    (ctx : BrokerContext) (poll : ProxyPoll)
    → AreValid ctx
    → (r : Ref) × (ctx' : BrokerContext) × (push_poll ctx poll ≡ some (r, ctx'))
      × Evolves ctx ctx'
      × IsAllocated ctx' r
      × ¬ IsAllocated ctx r
unfolding push_poll allocate
push_poll-Evolves ctx poll v =
    let b = is_restricted poll in
    let s = new_snowflake poll.id poll.proxy_type poll.nat_type poll.clients in
    let (sp, run, valid, perm, n) = add-IsValid (pool_of ctx b) s (v b) in
    let ctx' = set_pool ctx b sp in
    let same = pool_of-set_pool ctx b sp in
    let evolves : PoolEvolves (pool_of ctx b) sp = record {
      valid = valid;
      kept = added-IsHeld (pool_of ctx b) sp (v b) valid s.clients perm n;
      grows = omega arith;
    } in
    (
      record { restricted = b; ptr = (pool_of ctx b).next },
      ctx',
      rw run,
      set_pool-Evolves ctx b sp v evolves,
      rw same (omega arith),
      λ l. omega arith,
    )

pub remove_snowflake-Evolves :
    (ctx : BrokerContext) (r : Ref)
    → AreValid ctx
    → IsAllocated ctx r
    → (ctx' : BrokerContext) × (remove_snowflake ctx r ≡ some ctx')
      × Evolves ctx ctx'
      × IsTaken ctx' r
unfolding remove_snowflake
remove_snowflake-Evolves ctx r v l =
    let b = r.restricted in
    let (sp, run, valid, removes, gone) = pool_remove-Removes (pool_of ctx b) r.ptr (v b) l in
    let evolves : PoolEvolves (pool_of ctx b) sp = record {
      valid = valid;
      kept = Removes-IsHeld (pool_of ctx b) sp (v b) valid r.ptr removes;
      grows = removes-next (pool_of ctx b) sp r.ptr ((pool_of ctx b).h.flakes r.ptr).index removes;
    } in
    (
      set_pool ctx b sp,
      rw run,
      set_pool-Evolves ctx b sp v evolves,
      rw (pool_of-set_pool ctx b sp) ((omega (arith, evolves.grows), gone)),
    )
  where
    removes-next :
        (sp sp' : SnowflakePool) (p : ℕ) (o : Option ℕ) → Removes sp p o sp' → sp.next ≤ sp'.next
    removes-next sp sp' p none e = rw e (omega arith)
    removes-next sp sp' p (some i) (perm, n) = omega arith

-- The snowflake that a pool gave, or none from an empty pool.
abbrev pub Takes : BrokerContext → Bool → Option Ref → BrokerContext → Type 0
Takes ctx b none ctx' = (waiting (pool_of ctx b) ≡ []) × (ctx' ≡ ctx)
Takes ctx b (some r) ctx' =
    (r.restricted ≡ b)
    × Pops (pool_of ctx r.restricted) (some r.ptr) (pool_of ctx' r.restricted)
    × (¬ IsTaken ctx r)
    × IsTaken ctx' r

pub pop_from-Takes :
    (ctx : BrokerContext) (b : Bool)
    → AreValid ctx
    → (o : Option Ref) × (ctx' : BrokerContext) × (pop_from ctx b ≡ some (o, ctx'))
      × Evolves ctx ctx'
      × Takes ctx b o ctx'
unfolding pop_from
pop_from-Takes ctx b v =
    let (o, sp, run, valid, pops) = pool_pop-Pops (pool_of ctx b) (v b) in go o sp run valid pops
  where
    go :
        (o : Option ℕ) (sp : SnowflakePool)
        → pool_pop (pool_of ctx b) ≡ some (o, sp)
        → IsValid sp
        → Pops (pool_of ctx b) o sp
        → (o : Option Ref) × (ctx' : BrokerContext) × (pop_from ctx b ≡ some (o, ctx'))
          × Evolves ctx ctx'
          × Takes ctx b o ctx'
    go none sp run valid (empty, same) = (
      none,
      set_pool ctx b sp,
      rw run,
      set_pool-Evolves ctx b sp v (rw same (PoolEvolves-refl (pool_of ctx b) (v b))),
      (empty, rw same (set_pool-same ctx b)),
    )
    go (some p) sp run valid pops =
        let (fresh, taken) = Pops-taken (pool_of ctx b) sp (v b) valid p pops in
        let (c, perm, least, gone, n) = pops in
        (
          some (record { restricted = b; ptr = p }),
          set_pool ctx b sp,
          rw run,
          set_pool-Evolves ctx b sp v (record {
            valid = valid;
            kept = Pops-IsHeld (pool_of ctx b) sp (v b) valid p pops;
            grows = omega arith;
          }),
          (refl, rw (pool_of-set_pool ctx b sp) pops, fresh, rw (pool_of-set_pool ctx b sp) taken),
        )

Evolves-trans : (a b c : BrokerContext) → Evolves a b → Evolves b c → Evolves a c
Evolves-trans a b c f g r = record {
  valid = (g r).valid;
  kept = λ p h. (g r).kept p ((f r).kept p h);
  grows = omega (arith, (f r).grows, (g r).grows);
}

-- What matchSnowflake gives a client of the NAT type.
abbrev pub Matches : BrokerContext → String → Option Ref → BrokerContext → Type 0
Matches ctx nat_type none ctx' =
    (waiting ctx.unrestricted_pool ≡ [])
    × (str_eq nat_type nat_unrestricted ≡ true → waiting ctx.restricted_pool ≡ [])
Matches ctx nat_type (some r) ctx' =
    (r.restricted ≡ true → str_eq nat_type nat_unrestricted ≡ true)
    × (r.restricted ≡ false
        → str_eq nat_type nat_unrestricted ≡ true
        → waiting ctx.restricted_pool ≡ [])
    × Pops (pool_of ctx r.restricted) (some r.ptr) (pool_of ctx' r.restricted)
    × (¬ IsTaken ctx r)
    × IsTaken ctx' r

pub match_snowflake-Matches :
    (ctx : BrokerContext) (nat_type : String)
    → AreValid ctx
    → (o : Option Ref) × (ctx' : BrokerContext) × (match_snowflake ctx nat_type ≡ some (o, ctx'))
      × Evolves ctx ctx'
      × Matches ctx nat_type o ctx'
unfolding match_snowflake
match_snowflake-Matches ctx nat_type v = elim (Bool-cases (str_eq nat_type nat_unrestricted)) [
  | inr e ↦ last (λ h. ground arith) (λ o ctx' run. rw (e, run))
  | inl e ↦
      let (o, ctx', run, evolves, takes) = pop_from-Takes ctx true v in
      first e o ctx' run evolves takes
]
  where
    Result : Type 0
    Result =
        (o : Option Ref) × (ctx' : BrokerContext) × (match_snowflake ctx nat_type ≡ some (o, ctx'))
        × Evolves ctx ctx'
        × Matches ctx nat_type o ctx'

    last :
        (str_eq nat_type nat_unrestricted ≡ true → waiting ctx.restricted_pool ≡ [])
        → ((o : Option Ref) (ctx' : BrokerContext)
            → pop_from ctx false ≡ some (o, ctx')
            → match_snowflake ctx nat_type ≡ some (o, ctx'))
        → Result
    last empty is_run =
        let (o, ctx', run, evolves, takes) = pop_from-Takes ctx false v in
        go o ctx' run evolves takes
      where
        go :
            (o : Option Ref) (ctx' : BrokerContext)
            → pop_from ctx false ≡ some (o, ctx')
            → Evolves ctx ctx'
            → Takes ctx false o ctx'
            → Result
        go none ctx' run evolves takes =
            (none, ctx', is_run none ctx' run, evolves, (takes.0, empty))
        go (some r) ctx' run evolves (b, pops, fresh, taken) = (
          some r,
          ctx',
          is_run (some r) ctx' run,
          evolves,
          (λ h. ground arith, λ h k. empty k, pops, fresh, taken),
        )

    first :
        str_eq nat_type nat_unrestricted ≡ true
        → (o : Option Ref) (ctx' : BrokerContext) → pop_from ctx true ≡ some (o, ctx')
        → Evolves ctx ctx'
        → Takes ctx true o ctx'
        → Result
    first e none ctx' run evolves (empty, same) =
        last (λ h. empty) (λ o c last_run. rw (e, run, same, last_run))
    first e (some r) ctx' run evolves (b, pops, fresh, taken) =
        (some r, ctx', rw (e, run), evolves, (λ h. e, λ h k. ground arith, pops, fresh, taken))
