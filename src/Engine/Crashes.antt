-- ===== src/Engine/Crashes.antt =====
-- restart.go: the tracker of one strategy's crashes and the policy of automatic restarts. Times are
-- nanoseconds; a window is a Duration, which may be zero or negative.
pub mod Window
pub mod Aliasing
pub mod Loop
mod Tests
use signalix.Prelude.{
  ℕ, zero, suc, ◌+◌, Bool, true, false, not, ◌&&◌, ◌||◌, Option, none, some, List, [], ◌∷◌, ◌++◌,
  length, drop, leb, if◌then◌else◌,
}
use signalix.Prelude.Int.{ℤ, pos, negsuc, leb_ℤ}

-- config.RestartSettings, without the backoff, which decides only how long the timer waits
pub record RestartSettings : Type 0 where
  pub enabled : Bool
  pub max_crashes : ℤ
  pub crash_window : ℤ

-- `!t.Before(now.Add(-window))` for a window above zero
abbrev pub is_within : ℕ → ℕ → ℕ → Bool
is_within window now t = leb now (t + window)

unfoldable pub recent : ℕ → ℕ → List ℕ → List ℕ
recent window now [] = []
recent window now (t ∷ ts) =
    let rest = recent window now ts in if is_within window now t then t ∷ rest else rest

-- What pruneCrashTimes returns.
unfoldable pub prune_crash_times : List ℕ → ℤ → ℕ → List ℕ
unfolding recent
prune_crash_times times (pos zero) now = times
prune_crash_times times (pos (suc w)) now = recent (suc w) now times
prune_crash_times times (negsuc w) now = times

-- pruneCrashTimes appends to `times[:0]`, so it writes what it keeps over the front of the array
-- that the caller's slice still shows at its full length.
unfoldable pub overwritten : List ℕ → List ℕ → List ℕ
overwritten kept times = kept ++ drop (length kept) times

-- crashTracker.record on the strategy's times
unfoldable pub record_crash : List ℕ → ℕ → List ℕ
record_crash times at = times ++ at ∷ []

-- crashTracker.pruneAndCount: the new times, and the count
unfoldable pub prune_and_count : List ℕ → ℤ → ℕ → List ℕ × ℕ
unfolding prune_crash_times
prune_and_count times window now =
    (prune_crash_times times window now, length (prune_crash_times times window now))

-- crashTracker.countInWindow: it does not store the pruned slice, but its array has changed
unfoldable pub count_in_window : List ℕ → ℤ → ℕ → List ℕ × ℕ
unfolding prune_crash_times overwritten
count_in_window times window now = (
  overwritten (prune_crash_times times window now) times,
  length (prune_crash_times times window now),
)

-- recordStrategyCrash
unfoldable pub record_strategy_crash : List ℕ → ℤ → ℕ → List ℕ × ℕ
unfolding record_crash prune_and_count
record_strategy_crash times window now = prune_and_count (record_crash times now) window now

-- circuitOpen
unfoldable pub circuit_open : RestartSettings → List ℕ → ℕ → List ℕ × Bool
unfolding count_in_window
circuit_open cfg times now =
    let r = count_in_window times cfg.crash_window now in (r.0, leb_ℤ cfg.max_crashes (pos r.1))

-- What shouldAutoRestart and the loop of scheduleRestart find outside, by the number of the look: 0
-- is the one before the loop, and 1, 2 and 3 are those of the loop's rounds: whether the context is done, whether the kill switch is active, whether the strategy is still
-- enabled, the time, and whether launchStrategy succeeds.
pub record Outside : Type 0 where
  pub ctx_done : ℕ → Bool
  pub kill_switch_active : ℕ → Bool
  pub strategy_enabled : ℕ → Bool
  pub now : ℕ → ℕ
  pub launched : ℕ → Bool

-- shouldAutoRestart: the circuit is looked at last
unfoldable pub should_auto_restart : RestartSettings → Outside → ℕ → List ℕ → List ℕ × Bool
unfolding circuit_open
should_auto_restart cfg out k times =
    if out.ctx_done k || not cfg.enabled || out.kill_switch_active k || not (out.strategy_enabled k)
    then (times, false)
    else let r = circuit_open cfg times (out.now k) in (r.0, not r.1)

-- How the loop of scheduleRestart ends.
pub data Ending : Type 0 where
  restarted not_allowed circuit_opened abandoned : Ending

-- The crash times, the restart attempts of the strategy, the launches made, and the ending.
pub record Restart : Type 0 where
  pub times : List ℕ
  pub attempts : ℕ
  pub launches : ℕ
  pub ending : Ending

-- After a launch that failed: the crash is recorded, and the circuit looked at.
abbrev pub failed_once : RestartSettings → Outside → ℕ → List ℕ → List ℕ × Bool
failed_once cfg out k times =
    circuit_open cfg (record_strategy_crash times cfg.crash_window (out.now k)).0 (out.now k)

-- The loop, with the failures that are still allowed and those so far.
unfoldable pub restart_loop : RestartSettings → Outside → ℕ → ℕ → List ℕ → ℕ → ℕ → Restart
unfolding should_auto_restart record_strategy_crash circuit_open
restart_loop cfg out zero k times attempts launches = record {
  times = times;
  attempts = attempts;
  launches = launches;
  ending = abandoned;
}
restart_loop cfg out (suc left) k times attempts launches =
    let allowed = should_auto_restart cfg out k times in
    let failed = failed_once cfg out k allowed.0 in
    let rest = restart_loop cfg out left (suc k) failed.0 attempts (suc launches) in
    if not allowed.1
    then record {
      times = allowed.0;
      attempts = attempts;
      launches = launches;
      ending = not_allowed;
    }
    else if out.launched k
    then record {
      times = allowed.0;
      attempts = suc attempts;
      launches = suc launches;
      ending = restarted;
    }
    else if failed.1
    then record {
      times = failed.0;
      attempts = attempts;
      launches = suc launches;
      ending = circuit_opened;
    }
    else rest

-- scheduleRestart once its timer has fired: at most maxConsecutiveRestartFailures failures
unfoldable pub schedule_restart : RestartSettings → Outside → List ℕ → ℕ → Restart
unfolding restart_loop should_auto_restart
schedule_restart cfg out times attempts =
    let first = should_auto_restart cfg out 0 times in
    if not first.1
    then record { times = first.0; attempts = attempts; launches = 0; ending = not_allowed }
    else restart_loop cfg out 3 1 first.0 attempts 0
