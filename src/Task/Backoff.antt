-- ===== src/Task/Backoff.antt =====
-- ExpBackoff of common/task/backoff.go. The mutex makes its sections single steps; a timer is the interval that it was
-- armed with. A duration is an int64, kept as a natural number below 2^64, where those from 2^63 on are negative.
pub mod Intervals
mod Tests
use snowflake.Common.{
  ℕ, ◌*◌, ◌%◌, min, Bool, true, false, Option, none, some, List, [], ◌∷◌, leb, if◌then◌else◌,
}

pub record ExpBackoff : Type 0 where
  pub min_interval : ℕ
  pub max_interval : ℕ
  -- whether OnError is set
  pub handles_errors : Bool
  pub failed : Bool
  pub interval : ℕ
  pub running : Bool
  pub timer : Option ℕ

abbrev pub new_exp_backoff : (min_interval max_interval : ℕ) → ExpBackoff
new_exp_backoff min_interval max_interval = record {
  min_interval = min_interval;
  max_interval = max_interval;
  handles_errors = true;
  failed = false;
  interval = 0;
  running = false;
  timer = none;
}

-- min(interval * 2, max_interval), for a max_interval that is not negative.
abbrev pub doubled : (interval max_interval : ℕ) → ℕ
doubled interval max_interval =
    if leb 9223372036854775808 ((interval * 2) % 18446744073709551616)
    then (interval * 2) % 18446744073709551616
    else min ((interval * 2) % 18446744073709551616) max_interval

unfoldable pub increase : ExpBackoff → ExpBackoff
increase t =
    if t.failed
    then record t { interval = doubled t.interval t.max_interval }
    else record t { failed = true; interval = t.min_interval }

-- The last section: the timer is armed if the task still runs.
unfoldable pub arm : ExpBackoff → ExpBackoff
arm t = if t.running then record t { timer = some t.interval } else t

-- checkedExecute, with whether Execute fails, and whether the task was closed while it ran; and whether an error is
-- returned.
unfoldable pub checked_execute : ExpBackoff → (fails closes : Bool) → ExpBackoff × Bool
unfolding increase arm
checked_execute t fails closes =
    let u = if closes then record t { running = false; timer = none } else t in
    if t.running
    then (if fails
        then (if t.handles_errors
            then (arm (increase u), false)
            else (record u { running = false }, true))
        else (arm (record u { failed = false }), false))
    else (t, false)

-- Start, which runs the task at once, if it does not run already.
unfoldable pub start : ExpBackoff → (fails closes : Bool) → ExpBackoff × Bool
unfolding checked_execute
start t fails closes =
    if t.running
    then (record t { interval = t.max_interval }, false)
    else checked_execute (record t { interval = t.max_interval; running = true }) fails closes

unfoldable pub close : ExpBackoff → ExpBackoff
close t = record t { running = false; timer = none }

-- The task from Start on: how its runs ended, the last one first.
unfoldable pub replay : ExpBackoff → List Bool → ExpBackoff
unfolding start checked_execute
replay t [] = t
replay t (fails ∷ []) = (start t fails false).0
replay t (fails ∷ before ∷ runs) = (checked_execute (replay t (before ∷ runs)) fails false).0
