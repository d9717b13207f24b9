-- ===== src/Turbotunnel/ClientMap.antt =====
-- common/turbotunnel/clientmap.go: the send queues of the clients, and when each client was last seen.
-- An address is the bytes of a ClientID, a time and a duration a number of nanoseconds, and a channel a number, the
-- place of its allocation; `next` is the channel that is made next, and `closed` says which channels are closed. A
-- record has one reference, the slice, so it is a value there. The lock makes each method one step.
-- `none` is a panic.
mod Index
mod Ends
mod Search
pub mod Records
pub mod Expiry
mod Tests
use snowflake.Common.{
  ℕ, zero, suc, ◌+◌, ◌-◌, Bool, true, false, Option, none, some, List, [], ◌∷◌, ◌++◌, length,
  get_elem?, set, take, ltb, leb, ◌==◌, ◌||◌, if◌then◌else◌,
}
use snowflake.Common.Bytes.{Bytes}
use snowflake.Common.Text.{bytes_eq}
use snowflake.Common.GoMap
use snowflake.Common.Array.{swap?}
use snowflake.ContainerHeap.{HeapInterface, ◌>>=◌, heap_push, heap_pop, heap_fix}

pub record ClientRecord : Type 0 where
  pub addr : Bytes
  pub last_seen : ℕ
  pub send_queue : ℕ

pub record ClientMapInner : Type 0 where
  pub by_age : List ClientRecord
  pub by_addr : List (Bytes × ℕ)
  pub next : ℕ
  pub closed : ℕ → Bool

unfoldable pub new_client_map : ClientMapInner
new_client_map = record { by_age = []; by_addr = []; next = 0; closed = λ q. false }

-- "inconsistent clientMap"
unfoldable pub len : ClientMapInner → Option ℕ
len inner = if length inner.by_age == length inner.by_addr then some (length inner.by_age) else none

unfoldable pub less : ClientMapInner → ℕ → ℕ → Option Bool
less inner i j = get_elem? inner.by_age i >>= λ a.
    get_elem? inner.by_age j >>= λ b. some (ltb a.last_seen b.last_seen)

unfoldable pub swap : ClientMapInner → ℕ → ℕ → Option ClientMapInner
swap inner i j = swap? inner.by_age i j >>= λ by_age. get_elem? by_age i >>= λ a.
    get_elem? by_age j >>= λ b. some (record inner {
      by_age = by_age;
      by_addr = GoMap.insert b.addr j (GoMap.insert a.addr i inner.by_addr);
    })

-- "duplicate address in clientMap"
unfoldable pub push : ClientMapInner → ClientRecord → Option ClientMapInner
push inner r = elim (GoMap.lookup r.addr inner.by_addr) [
  | some i ↦ none
  | none ↦ some (record inner {
    by_addr = GoMap.insert r.addr (length inner.by_age) inner.by_addr;
    by_age = inner.by_age ++ r ∷ [];
  })
]

-- close(queue); a second close is a panic.
unfoldable pub close : (ℕ → Bool) → ℕ → Option (ℕ → Bool)
close closed q = if closed q then none else some (λ p. p == q || closed p)

unfoldable pub pop : ClientMapInner → Option (ClientRecord × ClientMapInner)
unfolding close
pop inner =
    let n = length inner.by_addr in
    get_elem? inner.by_age (n - 1) >>= λ r. close inner.closed r.send_queue >>= λ closed. some (
      r,
      record inner {
        by_age = take (n - 1) inner.by_age;
        by_addr = GoMap.delete r.addr inner.by_addr;
        closed = closed;
      },
    )

abbrev pub heap_interface : HeapInterface ClientMapInner ClientRecord
heap_interface = record { len = len; less = less; swap = swap; push = push; pop = pop }

-- The loop of removeExpired; `now.Sub(seen) >= timeout` over the integers.
unfoldable pub remove_loop : ℕ → ClientMapInner → (now timeout : ℕ) → Option ClientMapInner
remove_loop zero inner now timeout = none
remove_loop (suc fuel) inner now timeout = elim (get_elem? inner.by_age 0) [
  | none ↦ some inner
  | some r ↦ elim (leb (r.last_seen + timeout) now) [
    | false ↦ some inner
    | true ↦
        heap_pop heap_interface inner >>= λ (popped, inner'). remove_loop fuel inner' now timeout
  ]
]

unfoldable pub remove_expired : ClientMapInner → (now timeout : ℕ) → Option ClientMapInner
unfolding remove_loop
remove_expired inner now timeout = remove_loop (length inner.by_age + 1) inner now timeout

-- The queue, and the map.
unfoldable pub send_queue : ClientMapInner → Bytes → (now : ℕ) → Option (ℕ × ClientMapInner)
send_queue inner addr now = elim (GoMap.lookup addr inner.by_addr) [
  | some i ↦ get_elem? inner.by_age i >>= λ r.
      let r' = record r { last_seen = now } in
      heap_fix heap_interface (record inner { by_age = set inner.by_age i r' }) i >>= λ inner'.
      some (r'.send_queue, inner')
  | none ↦
      let r : ClientRecord = record { addr = addr; last_seen = now; send_queue = inner.next } in
      heap_push heap_interface (record inner { next = inner.next + 1 }) r >>= λ inner'.
      some (r.send_queue, inner')
]
