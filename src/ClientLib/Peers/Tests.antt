-- ===== src/ClientLib/Peers/Tests.antt =====
-- With room for two peers: one closes in the channel, a third waits for room while End waits for the lock, and a Pop
-- lets both go on.
use snowflake.Common.{ℕ, Bool, true, false, some, List, [], ◌∷◌, ◌≡◌, refl}
use snowflake.ClientLib.Peers.{
  new_peers, elem, collecting, sent, popping, melting, ending, closing, Event, replay, step,
  collect, collect_unless, count, purge, melt, end_locked, send_on, pop, pop_loop, popped, nil,
  close_peer,
}

abbrev fresh : ℕ → Bool
fresh q = false

abbrev start : List Event
start = collecting (some 4) ∷ collecting (some 7) ∷ closing 4 ∷ collecting (some 9) ∷ []

-- The third peer waits at the send, and End for the lock.
waits :
    let p = replay 2 (melting ∷ ending ∷ []) (replay 2 start (new_peers fresh)) in
    (p.at_send ≡ some 9) × (p.chan_closed ≡ false)
unfolding replay step collect collect_unless count purge new_peers melt close_peer
waits = (refl, refl)

-- Pop passes over the closed peer.
pop_closed : (pop (replay 2 start (new_peers fresh))).0 ≡ popped 7
unfolding replay step collect collect_unless count purge new_peers pop pop_loop close_peer
pop_closed = refl

abbrev rest : List Event
rest = melting ∷ ending ∷ popping ∷ sent ∷ ending ∷ []

goes_on :
    let p = replay 2 rest (replay 2 start (new_peers fresh)) in
    (p.chan_closed ≡ true) × (p.snowflake_chan ≡ 9 ∷ []) × ((pop p).0 ≡ nil)
unfolding replay step collect collect_unless count purge new_peers melt close_peer pop pop_loop
    send_on end_locked elem
goes_on = (refl, refl, refl)
