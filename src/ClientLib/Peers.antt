-- ===== src/ClientLib/Peers.antt =====
-- client/lib/peers.go: the remote peers that the client has collected and not yet used.
-- A *WebRTCPeer is a number, and `closed` says which of them are closed; a peer may close at any time. `capacity` is
-- GetMax of the tongue, and `caught` what its Catch returns. A receive or send that has to wait is a result of its
-- own. A Collect that waits at its send holds the lock: `at_send` is what it sends. The Catch of a Collect is in one step
-- with the rest of it: what Pop, End and the peers do meanwhile comes behind that step.
mod Valid
pub mod Melted
mod Tests
use snowflake.Common.{
  ℕ, Bool, true, false, not, Option, none, some, List, [], ◌∷◌, ◌++◌, ◌||◌, ◌&&◌, if◌then◌else◌,
  ◌==◌, ltb, leb, length,
}

pub record Peers : Type 0 where
  pub snowflake_chan : List ℕ
  pub chan_closed : Bool
  pub active_peers : List ℕ
  -- p.melt is closed
  pub melted : Bool
  -- what a Collect is sending, with p.collectLock held
  pub at_send : Option ℕ
  pub closed : ℕ → Bool

unfoldable pub new_peers : (ℕ → Bool) → Peers
new_peers closed = record {
  snowflake_chan = [];
  chan_closed = false;
  active_peers = [];
  melted = false;
  at_send = none;
  closed = closed;
}

unfoldable pub elem : ℕ → List ℕ → Bool
elem q [] = false
elem q (p ∷ ps) = q == p || elem q ps

-- purgeClosedPeers
unfoldable pub purge : (ℕ → Bool) → List ℕ → List ℕ
purge closed [] = []
purge closed (q ∷ qs) = let rest = purge closed qs in if closed q then rest else q ∷ rest

unfoldable pub count : Peers → ℕ × Peers
count p =
    let active = purge p.closed p.active_peers in
    (length active, record p { active_peers = active })

pub data Collected : Type 0 where
  have_melted at_capacity catch_failed : Collected
  collected : ℕ → Collected
  -- the channel is full
  sending : ℕ → Collected

-- Collect with a tongue, the flag telling whether the peers have melted.
unfoldable pub collect_unless :
    Bool → (capacity : ℕ) → (caught : Option ℕ) → Peers → Collected × Peers
collect_unless true capacity caught p = (have_melted, p)
collect_unless false capacity caught p =
    let (cnt, p') = count p in
    if leb capacity cnt then (at_capacity, p') else elim caught [
      | none ↦ (catch_failed, p')
      | some q ↦
          let p'' = record p' { active_peers = p'.active_peers ++ q ∷ [] } in
          if ltb (length p.snowflake_chan) capacity
          then (collected q, record p'' { snowflake_chan = p.snowflake_chan ++ q ∷ [] })
          else (sending q, record p'' { at_send = some q })
    ]

unfoldable pub collect : (capacity : ℕ) → (caught : Option ℕ) → Peers → Collected × Peers
collect capacity caught p = collect_unless p.melted capacity caught p

pub data Popped : Type 0 where
  nil waiting : Popped
  popped : ℕ → Popped

-- The loop of Pop on the channel: what it returns, and what it leaves.
unfoldable pub pop_loop : (ℕ → Bool) → Bool → List ℕ → Popped × List ℕ
pop_loop closed ended [] = (if ended then nil else waiting, [])
pop_loop closed ended (q ∷ qs) =
    let rest = pop_loop closed ended qs in if closed q then rest else (popped q, qs)

unfoldable pub pop : Peers → Popped × Peers
pop p =
    let (r, rest) = pop_loop p.closed p.chan_closed p.snowflake_chan in
    (r, record p { snowflake_chan = rest })

-- The send of a Collect that waited for room in the channel, and the end of the call.
unfoldable pub send_on : (capacity : ℕ) → Option ℕ → Peers → Peers
send_on capacity none p = p
send_on capacity (some q) p =
    if ltb (length p.snowflake_chan) capacity
    then record p { snowflake_chan = p.snowflake_chan ++ q ∷ []; at_send = none }
    else p

-- End up to its lock.
unfoldable pub melt : Peers → Peers
melt p = record p { melted = true }

-- End behind its lock.
unfoldable pub end_locked : Peers → Peers
end_locked p =
    let (cnt, p') = count p in
    record p' {
      chan_closed = true;
      active_peers = [];
      closed = λ q. p.closed q || elem q p'.active_peers;
    }

-- A peer closes by itself.
unfoldable pub close_peer : ℕ → Peers → Peers
close_peer q p = record p { closed = λ r. r == q || p.closed r }

-- Collect gets the lock; a Collect that waits at its send goes on; Pop receives what is in the channel; End closes the
-- channel p.melt; End gets the lock; a peer closes.
pub data Event : Type 0 where
  collecting : Option ℕ → Event
  sent popping melting ending : Event
  closing : ℕ → Event

abbrev pub is_free : Peers → Bool
is_free p = elim p.at_send [ none ↦ true | some q ↦ false ]

-- The state after the event. An event that has to wait, for the lock or for room in the channel, changes nothing; a
-- Pop that has passed over closed peers and waits is the same as one that begins.
unfoldable pub step : ℕ → Event → Peers → Peers
unfolding collect send_on pop melt end_locked close_peer
step capacity (collecting caught) p = if is_free p then (collect capacity caught p).1 else p
step capacity sent p = send_on capacity p.at_send p
step capacity popping p = (pop p).1
step capacity melting p = melt p
step capacity ending p = if is_free p && (p.melted && not p.chan_closed) then end_locked p else p
step capacity (closing q) p = close_peer q p

unfoldable pub replay : ℕ → List Event → Peers → Peers
replay capacity [] p = p
replay capacity (e ∷ es) p = replay capacity es (step capacity e p)
