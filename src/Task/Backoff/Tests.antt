-- ===== src/Task/Backoff/Tests.antt =====
-- The check of the relay of a proxy: two failures and a success.
use snowflake.Common.{◌≤◌, ◌≡◌, true, false, some, [], ◌∷◌, arith}
use snowflake.Task.Backoff.{new_exp_backoff, replay}
use snowflake.Task.Backoff.Intervals.{replay-delay}

-- The next run is after ten minutes, not after a day.
replay-delay_example :
    let t =
      replay (new_exp_backoff 300_000_000_000 86_400_000_000_000) (false ∷ true ∷ true ∷ []) in
    (t.running ≡ true) × (t.timer ≡ some 600_000_000_000) × (600_000_000_000 ≤ 86_400_000_000_000)
replay-delay_example =
    replay-delay 300_000_000_000 86_400_000_000_000 (omega arith) (omega arith) false
      (true ∷ true ∷ [])
