-- ===== src/Engine/Processes/Late.antt =====
-- Processes that end after their strategy was stopped.
use signalix.Prelude.{
  ◌≡◌, refl, sym, ap, ◌∙◌, false, Option, none, some, String, ℕ, Result, ok, err, eq_refl, if-true,
}
use std.Path.{subst}
use signalix.Prelude.Dict.{lookup, lookup-erase}
use signalix.Oms.{Failure}
use signalix.Engine.Processes.{
  IntervalError, Strategy, Setting, Process, State, SubscribeError, Launch, Surroundings, created,
  unless_registered, once_subscribed, at_interval, launch_strategy, stop_found, stop_strategy,
  removed, exit_found, handle_process_exit,
}
use signalix.Engine.Processes.Retry.{created-registered}

module _ {M : Type 0} (c : Setting M) where
  erased : (name : String) (s : State M) → lookup name (removed c name s).strategy_process ≡ none
  erased name s = lookup-erase name name s.strategy_process ∙ if-true _ _ _ (eq_refl name)

  stop_found-none :
      (name : String) (answer : Option Failure) (found : Option Process) (s : State M)
      → lookup name s.strategy_process ≡ found
      → lookup name (stop_found c name answer found s).0.strategy_process ≡ none
  stop_found-none name answer none s h = h
  stop_found-none name answer (some p) s h = erased name s

  -- A stopped strategy is not registered.
  stop_strategy-none :
      (name : String) (answer : Option Failure) (s : State M)
      → lookup name (stop_strategy c name answer s).0.strategy_process ≡ none
  unfolding stop_strategy
  stop_strategy-none name answer s = stop_found-none name answer _ s refl

  exit_found-none :
      (name : String) (o : Surroundings) (found : Option Process) (s : State M)
      → lookup name s.strategy_process ≡ found
      → lookup name (exit_found c name o found s).0.strategy_process ≡ none
  exit_found-none name o none s h = h
  exit_found-none name o (some p) s h = erased name s

  -- After StopStrategy, whatever it answered, the exit of a process of that name changes nothing,
  -- records no crash and calls no scheduleRestart.
  pub handle_process_exit-stop_strategy :
      (answer : Option Failure) (o : Surroundings) (p : Process) (s : State M)
      → handle_process_exit c o p (stop_strategy c p.name answer s).0
        ≡ ((stop_strategy c p.name answer s).0, false)
  unfolding handle_process_exit
  handle_process_exit-stop_strategy answer o p s =
      ap (λ found. exit_found c p.name o found (stop_strategy c p.name answer s).0)
        (stop_strategy-none p.name answer s)

module _ {M : Type 0} (c : Setting M) (out : Launch) (st : Strategy) where
  -- The strategy's process is the one with this number.
  abbrev Runs : ℕ → State M → Type 0
  Runs id s = lookup st.name s.strategy_process ≡ some (record { name = st.name; id = id })

  unless_registered-Runs :
      (interval : String) (id : ℕ) (found : Option Process) (s : State M)
      → found ≡ none
      → out.process ≡ ok id
      → Runs id (unless_registered c out st interval found s).0
  unless_registered-Runs interval id none s h e =
      subst (λ r. Runs id (created c out st interval r s).0) (sym e)
        (created-registered c out st interval id s)
  unless_registered-Runs interval id (some p) s h e = absurd (cc h)

  once_subscribed-Runs :
      (interval : String) (id : ℕ) (s : State M) (answer : M × Option SubscribeError)
      → lookup st.name s.strategy_process ≡ none
      → out.process ≡ ok id
      → (once_subscribed c out st interval s answer).1 ≡ none
      → Runs id (once_subscribed c out st interval s answer).0
  once_subscribed-Runs interval id s (m, none) absent e h =
      unless_registered-Runs interval id _ _ absent e
  once_subscribed-Runs interval id s (m, some x) absent e h = absurd (cc h)

  at_interval-Runs :
      (id : ℕ) (s : State M) (resolved : Result IntervalError String)
      → lookup st.name s.strategy_process ≡ none
      → out.process ≡ ok id
      → (at_interval c out st s resolved).1 ≡ none
      → Runs id (at_interval c out st s resolved).0
  at_interval-Runs id s (ok interval) absent e h = once_subscribed-Runs interval id s _ absent e h
  at_interval-Runs id s (err x) absent e h = absurd (cc h)

  -- When a strategy is stopped and then launched without an error, with a new process, that process
  -- is registered; and when a process of that name, be it the old one, is then reported to have
  -- ended, none is registered for the strategy any more.
  pub launch_strategy-handle_process_exit :
      (answer : Option Failure) (o : Surroundings) (old : Process) (id : ℕ) (s : State M)
      → old.name ≡ st.name
      → out.process ≡ ok id
      → (launch_strategy c out st (stop_strategy c st.name answer s).0).1 ≡ none
      → Runs id (launch_strategy c out st (stop_strategy c st.name answer s).0).0
        × (lookup st.name
              (handle_process_exit c o old
                (launch_strategy c out st
                  (stop_strategy c st.name answer s).0).0).0.strategy_process
            ≡ none)
  unfolding launch_strategy handle_process_exit
  launch_strategy-handle_process_exit answer o old id s same e h =
      let t = (launch_strategy c out st (stop_strategy c st.name answer s).0).0 in
      (
        at_interval-Runs id _ _ (stop_strategy-none c st.name answer s) e h,
        subst
            (λ name.
              lookup name
                (exit_found c old.name o (lookup old.name t.strategy_process) t).0.strategy_process
              ≡ none)
            same (exit_found-none c old.name o _ t refl),
      )
