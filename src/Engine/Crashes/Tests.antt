-- ===== src/Engine/Crashes/Tests.antt =====
-- Runs of the tracker and of the restart loop, and the witnesses of their theorems.
use signalix.Prelude.{◌+◌, ◌≤◌, ◌≡◌, refl, ◌⊎◌, true, false, List, [], ◌∷◌, leb, arith}
use signalix.Prelude.Int.{pos}
use signalix.Engine.Crashes.{
  RestartSettings, Outside, restarted, recent, prune_crash_times, overwritten, count_in_window,
  record_crash, record_strategy_crash, circuit_open, should_auto_restart, restart_loop,
  schedule_restart,
}
use signalix.Engine.Crashes.Window.{
  crashes_within, Event, crash, look, looked, after, record_strategy_crash-after,
}
use signalix.Engine.Crashes.Aliasing.{two_allowed, circuit_open_twice}
use signalix.Engine.Crashes.Loop.{EndsAs, schedule_restart-EndsAs}

-- Five crashes in a window of a hundred
abbrev five_allowed : RestartSettings
five_allowed = record { enabled = true; max_crashes = pos 5; crash_window = pos 100 }

-- The first launch fails, and the second succeeds.
abbrev second_succeeds : Outside
second_succeeds = record {
  ctx_done = λ k. false;
  kill_switch_active = λ k. false;
  strategy_enabled = λ k. true;
  now = λ k. 1000 + k;
  launched = λ k. leb 2 k;
}

schedule_restart-second :
    (schedule_restart five_allowed second_succeeds (10 ∷ 950 ∷ []) 4).ending ≡ restarted
unfolding schedule_restart should_auto_restart circuit_open count_in_window prune_crash_times recent
    overwritten restart_loop record_strategy_crash record_crash
schedule_restart-second = refl

schedule_restart-EndsAs_example :
    let r = schedule_restart five_allowed second_succeeds (10 ∷ 950 ∷ []) 4 in
    EndsAs five_allowed second_succeeds 3 1 4 0 r r.ending
schedule_restart-EndsAs_example =
    schedule_restart-EndsAs five_allowed second_succeeds (10 ∷ 950 ∷ []) 4

-- Between the crashes, circuitOpen looks at them once.
abbrev looked_at : List Event
looked_at = crash 10 ∷ crash 950 ∷ look 960 ∷ []

record_strategy_crash-after_example :
    let count = (record_strategy_crash (after five_allowed [] looked_at) (pos 100) 1000).1 in
    let right = crashes_within (pos 100) 1000 (10 ∷ 950 ∷ 1000 ∷ []) in
    ((looked looked_at ≡ false) × (count ≡ right)) ⊎ ((looked looked_at ≡ true) × (right ≤ count))
record_strategy_crash-after_example =
    record_strategy_crash-after five_allowed looked_at 1000
      (omega arith, (omega arith, (omega arith, tt)))

-- The look found no old crash, so none is counted twice.
right_count :
    (record_strategy_crash (after five_allowed [] looked_at) (pos 100) 1000).1
    ≡ crashes_within (pos 100) 1000 (10 ∷ 950 ∷ 1000 ∷ [])
unfolding record_strategy_crash record_crash circuit_open count_in_window prune_crash_times recent
    overwritten after crashes_within
right_count = refl

circuit_open_twice_example :
    let first = circuit_open (two_allowed true 99) (10 ∷ 20 ∷ 990 ∷ []) 1000 in
    (first.1 ≡ false) × ((circuit_open (two_allowed true 99) first.0 1000).1 ≡ true)
circuit_open_twice_example =
    circuit_open_twice true 99 1000 990 10 (20 ∷ []) (omega arith, (omega arith, tt)) (omega arith)
