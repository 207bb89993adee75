-- ===== src/Engine/Processes/Retry.antt =====
-- A launch that failed after its process was registered, tried again.
use signalix.Prelude.{
  ◌≡◌, refl, sym, ap, ◌∙◌, inl, inr, Bool, true, false, Option, none, some, String, ℕ, Result, ok,
  err, eq_refl, if-true, Bool-cases,
}
use std.Path.{subst}
use signalix.Prelude.Dict.{lookup, lookup-insert}
use signalix.Prelude.Int.{leb_ℤ, pos}
use signalix.Oms.{Failure}
use signalix.Engine.Processes.{
  IntervalError, Strategy, Feed, Setting, Process, State, SubscribeError, LaunchError, bad_interval,
  not_subscribed, not_created, init_failed, history_failed, no_market, Launch, resolve_interval,
  subscribe_strategy, warmup_history, finish, initialised, register, created, unless_registered,
  once_subscribed, at_interval, launch_strategy, send_bars, with_bars, warmup_at, market_or_perp,
}

-- The launch failed after the process was started.
unfoldable pub is_late : Option LaunchError → Bool
is_late none = false
is_late (some (bad_interval e)) = false
is_late (some (not_subscribed e)) = false
is_late (some (not_created e)) = false
is_late (some (init_failed e)) = true
is_late (some (history_failed e)) = true
is_late (some (no_market m)) = true

module _ {M : Type 0} (c : Setting M) (out : Launch) (st : Strategy) where
  -- What is registered after a history was asked for is what was before.
  send_bars-process :
      (p : Process) (answer : Option Failure) (s : State M)
      → (send_bars c out st p answer s).0.strategy_process ≡ s.strategy_process
  send_bars-process p none s = refl
  send_bars-process p (some e) s = refl

  with_bars-process :
      (p : Process) (answer : Result Failure Bool) (s : State M)
      → (with_bars c out st p answer s).0.strategy_process ≡ s.strategy_process
  with_bars-process p (err e) s = refl
  with_bars-process p (ok false) s = refl
  with_bars-process p (ok true) s = send_bars-process p out.send_history s

  warmup_at-process :
      (feed : Option (Feed M)) (interval : String) (p : Process) (s : State M)
      → (warmup_at c out st feed interval p s).0.strategy_process ≡ s.strategy_process
  warmup_at-process none interval p s = refl
  warmup_at-process (some feed) interval p s = with_bars-process p _ _

  warmup_history-process :
      (interval : String) (p : Process) (s : State M)
      → (warmup_history c out st interval p s).0.strategy_process ≡ s.strategy_process
  unfolding warmup_history
  warmup_history-process interval p s = elim (Bool-cases (leb_ℤ st.history_bars (pos 0))) [
    | inl none_asked ↦ rw none_asked refl
    | inr asked ↦ rw asked (warmup_at-process (c.markets (market_or_perp st.market)) interval p s)
  ]

  finish-process :
      (interval : String) (r : State M × Option LaunchError)
      → (finish c out st interval r).0.strategy_process ≡ r.0.strategy_process
  finish-process interval (s, none) = refl
  finish-process interval (s, some e) = refl

  initialised-process :
      (interval : String) (p : Process) (answer : Option Failure) (s : State M)
      → (initialised c out st interval p answer s).0.strategy_process ≡ s.strategy_process
  initialised-process interval p none s =
      finish-process interval _ ∙ warmup_history-process interval p _
  initialised-process interval p (some e) s = refl

  -- A launch whose process started leaves it registered.
  pub created-registered :
      (interval : String) (id : ℕ) (s : State M)
      → lookup st.name (created c out st interval (ok id) s).0.strategy_process
        ≡ some (record { name = st.name; id = id })
  created-registered interval id s =
      let p : Process = record { name = st.name; id = id } in
      ap (lookup st.name) (initialised-process interval p out.send_init (register c out st p s))
      ∙ lookup-insert st.name st.name p s.strategy_process
      ∙ if-true _ _ _ (eq_refl st.name)

  -- A process is registered for the strategy.
  abbrev Registered : State M → Type 0
  Registered s = (p : Process) × (lookup st.name s.strategy_process ≡ some p)

  -- A late failure comes after the registration.
  created-late :
      (interval : String) (process : Result Failure ℕ) (s : State M)
      → is_late (created c out st interval process s).1 ≡ true
      → Registered (created c out st interval process s).0
  unfolding is_late
  created-late interval (err e) s h = absurd (cc h)
  created-late interval (ok id) s h = (_, created-registered interval id s)

  unless_registered-late :
      (interval : String) (found : Option Process) (s : State M)
      → is_late (unless_registered c out st interval found s).1 ≡ true
      → Registered (unless_registered c out st interval found s).0
  unfolding is_late
  unless_registered-late interval none s h = created-late interval out.process s h
  unless_registered-late interval (some p) s h = absurd (cc h)

  once_subscribed-late :
      (interval : String) (s : State M) (answer : M × Option SubscribeError)
      → is_late (once_subscribed c out st interval s answer).1 ≡ true
      → Registered (once_subscribed c out st interval s answer).0
  unfolding is_late
  once_subscribed-late interval s (m, none) h = unless_registered-late interval _ _ h
  once_subscribed-late interval s (m, some e) h = absurd (cc h)

  at_interval-late :
      (s : State M) (resolved : Result IntervalError String)
      → is_late (at_interval c out st s resolved).1 ≡ true
      → ((interval : String) × (resolved ≡ ok interval))
        × Registered (at_interval c out st s resolved).0
  unfolding is_late
  at_interval-late s (err e) h = absurd (cc h)
  at_interval-late s (ok interval) h = ((interval, refl), once_subscribed-late interval s _ h)

  -- The launch reports no error and leaves the processes, their messages and the intervals alone.
  abbrev pub IsIdle : State M → State M × Option LaunchError → Type 0
  IsIdle s r =
      (r.1 ≡ none)
      × ((r.0.strategy_process ≡ s.strategy_process)
          × ((r.0.sent ≡ s.sent) × (r.0.strategy_intervals ≡ s.strategy_intervals)))

  unless_registered-IsIdle :
      (interval : String) (found : Option Process) (p : Process) (s : State M)
      → found ≡ some p
      → IsIdle s (unless_registered c out st interval found s)
  unless_registered-IsIdle interval none p s h = absurd (cc h)
  unless_registered-IsIdle interval (some q) p s h = (refl, (refl, (refl, refl)))

  once_subscribed-IsIdle :
      (interval : String) (s : State M) (answer : M × Option SubscribeError)
      → answer.1 ≡ none
      → Registered s
      → IsIdle s (once_subscribed c out st interval s answer)
  once_subscribed-IsIdle interval s (m, none) h r =
      unless_registered-IsIdle interval _ r.0 (record s { market = m }) r.1
  once_subscribed-IsIdle interval s (m, some e) h r = absurd (cc h)

-- When a launch fails after its process was started, and the markets then accept the subscription
-- again, a second launch reports no error and leaves the registered processes, the messages sent to
-- them and the recorded intervals as the first one left them, whatever it finds outside.
pub launch_strategy_retry :
    {M : Type 0} (c : Setting M) (out again : Launch) (st : Strategy) (s : State M)
    → is_late (launch_strategy c out st s).1 ≡ true
    → ((interval : String)
        → (subscribe_strategy c st interval (launch_strategy c out st s).0.market).1 ≡ none)
    → IsIdle c again st
        (launch_strategy c out st s).0
        (launch_strategy c again st (launch_strategy c out st s).0)
unfolding launch_strategy
launch_strategy_retry c out again st s h accepted =
    let late = at_interval-late c out st s (resolve_interval st.interval c.default_interval) h in
    let first = (launch_strategy c out st s).0 in
    subst (λ r. IsIdle c again st first (at_interval c again st first r)) (sym late.0.1)
      (once_subscribed-IsIdle c again st late.0.0 first _ (accepted late.0.0) late.1)
