-- ===== src/Task/Backoff/Intervals.antt =====
-- The intervals between the runs of a task.
use snowflake.Common.{
  ℕ, zero, suc, ◌*◌, ◌^◌, ◌≤◌, ◌<◌, min, Bool, true, false, some, List, [], ◌∷◌, ◌≡◌, refl, arith,
  ap, ◌∙◌,
}
use snowflake.Task.Backoff.{
  ExpBackoff, new_exp_backoff, doubled, increase, arm, checked_execute, start, replay,
}

-- The failures at the front of the list.
abbrev pub failures : List Bool → ℕ
failures [] = 0
failures (false ∷ runs) = 0
failures (true ∷ runs) = suc (failures runs)

-- The length of the last series of failures, with the successes behind it left out.
abbrev pub last_series : List Bool → ℕ
last_series [] = 0
last_series (false ∷ runs) = last_series runs
last_series (true ∷ runs) = suc (failures runs)

-- The longest interval before any failure; then the shortest one, doubled for each further failure of the series.
abbrev pub delay : (shortest longest : ℕ) → (series : ℕ) → ℕ
delay shortest longest zero = longest
delay shortest longest (suc zero) = shortest
delay shortest longest (suc (suc n)) = min (2 * delay shortest longest (suc n)) longest

abbrev head_fails : List Bool → Bool
head_fails [] = false
head_fails (fails ∷ runs) = fails

module _ (shortest longest : ℕ) (ordered : shortest ≤ longest) (small : longest < 2 ^ 62) where
  delay_bound : (n : ℕ) → delay shortest longest n ≤ longest
  delay_bound zero = omega arith
  delay_bound (suc zero) = ordered
  delay_bound (suc (suc n)) = omega arith

  after : Bool → List Bool → ExpBackoff
  after fails runs = record (new_exp_backoff shortest longest) {
    failed = fails;
    interval = delay shortest longest (last_series (fails ∷ runs));
    running = true;
    timer = some (delay shortest longest (last_series (fails ∷ runs)));
  }

  doubled_lem :
      (n : ℕ)
      → doubled (delay shortest longest (suc n)) longest ≡ delay shortest longest (suc (suc n))
  doubled_lem n = ground (arith, delay_bound (suc n))

  replay_lem :
      (fails : Bool) (runs : List Bool)
      → replay (new_exp_backoff shortest longest) (fails ∷ runs) ≡ after fails runs
  unfolding replay start checked_execute increase arm after
  replay_lem true [] = refl
  replay_lem false [] = refl
  replay_lem false (before ∷ runs) =
      ap (λ t. (checked_execute t false false).0) (replay_lem before runs)
  replay_lem true (false ∷ runs) =
      ap (λ t. (checked_execute t true false).0) (replay_lem false runs)
  replay_lem true (true ∷ runs) =
      ap (λ t. (checked_execute t true false).0) (replay_lem true runs)
      ∙ ap
          (λ (i : ℕ). record (new_exp_backoff shortest longest) {
            failed = true;
            interval = i;
            running = true;
            timer = some i;
          })
          (doubled_lem (failures runs))

  -- A task that handles its errors, with a shortest interval that is at most the longest one, which is below 2^62 ns: it
  -- goes on after every run, and the interval to the next one is the longest as long as no run has failed, and from
  -- then on the shortest, doubled for each further failure of the last series of failures, up to the longest, whether
  -- or not runs have succeeded since.
  pub replay-delay :
      (fails : Bool) (runs : List Bool)
      → let t = replay (new_exp_backoff shortest longest) (fails ∷ runs) in
        (t.running ≡ true)
        × (t.timer ≡ some (delay shortest longest (last_series (fails ∷ runs))))
        × (delay shortest longest (last_series (fails ∷ runs)) ≤ longest)
  unfolding after
  replay-delay fails runs =
      rw (replay_lem fails runs) (refl, refl, delay_bound (last_series (fails ∷ runs)))
