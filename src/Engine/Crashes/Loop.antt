-- ===== src/Engine/Crashes/Loop.antt =====
-- How scheduleRestart ends.
use signalix.Prelude.{
  ℕ, zero, suc, ◌+◌, ◌≤◌, ◌<◌, ◌≡◌, refl, true, false, List, arith, Bool-cases, inl, inr,
}
use std.Path.{subst}
use signalix.Engine.Crashes.{
  RestartSettings, Outside, Ending, restarted, not_allowed, circuit_opened, abandoned, Restart,
  failed_once, should_auto_restart, restart_loop, schedule_restart,
}

-- All that shouldAutoRestart reads outside the tracker allows a restart.
abbrev pub Permitted : RestartSettings → Outside → ℕ → Type 0
Permitted cfg out k =
    (out.ctx_done k ≡ false)
    × ((cfg.enabled ≡ true)
        × ((out.kill_switch_active k ≡ false) × (out.strategy_enabled k ≡ true)))

should_auto_restart-Permitted :
    (cfg : RestartSettings) (out : Outside) (k : ℕ) (times : List ℕ)
    → (should_auto_restart cfg out k times).1 ≡ true
    → Permitted cfg out k
unfolding should_auto_restart
should_auto_restart-Permitted cfg out k times h =
    (ground (arith, h), (ground (arith, h), (ground (arith, h), ground (arith, h))))

-- What an ending says of the rounds from k on, of which `left` were allowed.
abbrev pub EndsAs : RestartSettings → Outside → ℕ → ℕ → ℕ → ℕ → Restart → Ending → Type 0
EndsAs cfg out left k attempts launches r restarted =
    (d : ℕ) × (d < left)
    × ((r.launches ≡ suc d + launches)
        × ((r.attempts ≡ suc attempts)
            × (Permitted cfg out (d + k) × (out.launched (d + k) ≡ true))))
EndsAs cfg out left k attempts launches r not_allowed =
    (r.attempts ≡ attempts) × (r.launches ≤ left + launches)
EndsAs cfg out left k attempts launches r circuit_opened =
    (r.attempts ≡ attempts) × ((launches < r.launches) × (r.launches ≤ left + launches))
EndsAs cfg out left k attempts launches r abandoned =
    (r.attempts ≡ attempts)
    × ((r.launches ≡ left + launches) × ((d : ℕ) → d < left → out.launched (d + k) ≡ false))

-- One more launch before the rounds
one_more :
    (cfg : RestartSettings) (out : Outside) (left k attempts launches : ℕ) (r : Restart)
    (e : Ending)
    → out.launched k ≡ false
    → EndsAs cfg out left (suc k) attempts (suc launches) r e
    → EndsAs cfg out (suc left) k attempts launches r e
one_more cfg out left k attempts launches r restarted f (d, h, (l, (a, (p, o)))) = (
  suc d,
  omega arith,
  (
    omega arith,
    (
      a,
      (
        subst (Permitted cfg out) (omega arith) p,
        subst (λ i. out.launched i ≡ true) (omega arith) o,
      ),
    ),
  ),
)
one_more cfg out left k attempts launches r not_allowed f (a, l) = (a, omega arith)
one_more cfg out left k attempts launches r circuit_opened f (a, (m, l)) =
    (a, (omega arith, omega arith))
one_more cfg out left k attempts launches r abandoned f (a, (l, o)) = (a, (omega arith, all_failed))
  where
    all_failed : (d : ℕ) → d < suc left → out.launched (d + k) ≡ false
    all_failed zero h = subst (λ i. out.launched i ≡ false) (omega arith) f
    all_failed (suc d) h = subst (λ i. out.launched i ≡ false) (omega arith) (o d (omega arith))

restart_loop-EndsAs :
    (cfg : RestartSettings) (out : Outside) (left k : ℕ) (times : List ℕ) (attempts launches : ℕ)
    → let r = restart_loop cfg out left k times attempts launches in
      EndsAs cfg out left k attempts launches r r.ending
unfolding restart_loop
restart_loop-EndsAs cfg out zero k times attempts launches =
    (refl, (omega arith, λ d h. absurd (omega arith)))
restart_loop-EndsAs cfg out (suc left) k times attempts launches =
    let allowed = should_auto_restart cfg out k times in
    let failed = failed_once cfg out k allowed.0 in
    elim (Bool-cases allowed.1) [
      | inr refused ↦ rw refused (refl, omega arith)
      | inl allows ↦ elim (Bool-cases (out.launched k)) [
        | inl up ↦
            rw (allows, up)
              (
                0,
                omega arith,
                (
                  omega arith,
                  (
                    refl,
                    (
                      subst (Permitted cfg out) (omega arith)
                          (should_auto_restart-Permitted cfg out k times allows),
                      subst (λ i. out.launched i ≡ true) (omega arith) up,
                    ),
                  ),
                ),
              )
        | inr down ↦ elim (Bool-cases failed.1) [
          | inl circuit ↦ rw (allows, down, circuit) (refl, (omega arith, omega arith))
          | inr shut ↦
              rw (allows, down, shut)
                (one_more cfg out left k attempts launches
                  (restart_loop cfg out left (suc k) failed.0 attempts (suc launches))
                  (restart_loop cfg out left (suc k) failed.0 attempts (suc launches)).ending down
                  (restart_loop-EndsAs cfg out left (suc k) failed.0 attempts (suc launches)))
        ]
      ]
    ]

-- Once its timer has fired, scheduleRestart ends after at most three launches: restarted, with the
-- launch of the last look a success, all permitted at that look and one attempt more counted; or
-- abandoned, with three launches that all failed; or refused or stopped by the circuit, with the
-- attempts as they were.
pub schedule_restart-EndsAs :
    (cfg : RestartSettings) (out : Outside) (times : List ℕ) (attempts : ℕ)
    → let r = schedule_restart cfg out times attempts in EndsAs cfg out 3 1 attempts 0 r r.ending
unfolding schedule_restart
schedule_restart-EndsAs cfg out times attempts =
    elim (Bool-cases (should_auto_restart cfg out 0 times).1) [
      | inr refused ↦ rw refused (refl, omega arith)
      | inl allows ↦
          rw allows
            (restart_loop-EndsAs cfg out 3 1 (should_auto_restart cfg out 0 times).0 attempts 0)
    ]
