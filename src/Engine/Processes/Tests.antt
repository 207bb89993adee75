-- ===== src/Engine/Processes/Tests.antt =====
-- Launches of one strategy, and the witnesses of the theorems on its processes.
use signalix.Prelude.{◌≡◌, refl, true, false, Option, none, some, List, [], ◌∷◌, String, ok, err}
use signalix.Prelude.Int.{pos}
use signalix.Prelude.Dict.{lookup, insert, erase}
use signalix.Prelude.Text.{trim_space}
use signalix.Models.{Market, perp, spot, other}
use signalix.Engine.Crashes.{
  record_crash, recent, prune_crash_times, prune_and_count, record_strategy_crash,
}
use signalix.Engine.Processes.{
  is_listed, validate_interval, resolve_interval, Strategy, contracts_to_strings, Feed, Setting,
  init, history, State, interval_required, invalid_interval, Launch, subscribe_strategy,
  unsubscribe_strategy, warmup_history, launch_strategy, Surroundings, stop_strategy,
  handle_process_exit,
}
use signalix.Engine.Processes.Retry.{is_late, IsIdle, launch_strategy_retry}
use signalix.Engine.Processes.Late.{
  handle_process_exit-stop_strategy, launch_strategy-handle_process_exit,
}

own_interval : resolve_interval " 5m " "1h" ≡ ok "5m"
unfolding resolve_interval validate_interval is_listed trim_space
own_interval = refl

no_interval : resolve_interval " " "" ≡ err interval_required
unfolding resolve_interval validate_interval is_listed trim_space
no_interval = refl

unknown_interval : resolve_interval "" "2m" ≡ err (invalid_interval "2m")
unfolding resolve_interval validate_interval is_listed trim_space
unknown_interval = refl

abbrev grid : Strategy
grid = record {
  name = "grid";
  enabled = true;
  market = perp;
  symbols = " BTC_USDT" ∷ " " ∷ [];
  interval = "1m";
  history_bars = pos 20;
  subscribe_ticker = true;
}

-- A feed that remembers who subscribed.
abbrev feed : Feed (List String)
feed = record {
  subscribe = λ r m. (r.strategy ∷ m, none);
  unsubscribe = λ name m. [];
  warmup_history = λ r bars m. (m, ok true);
}

abbrev only_perp : Market → Option (Feed (List String))
only_perp perp = some feed
only_perp spot = none
only_perp (other _) = none

abbrev setting : Setting (List String)
setting = record {
  strategies = ("grid", grid) ∷ [];
  markets = only_perp;
  default_interval = "1h";
  restart = record { enabled = true; max_crashes = pos 3; crash_window = pos 100 };
}

abbrev empty : State (List String)
empty = record {
  market = [];
  strategy_process = [];
  strategy_intervals = [];
  crash_times = [];
  sent = [];
}

abbrev smooth : Launch
smooth = record { process = ok 7; send_init = none; send_history = none }

-- The pipe of the new process is closed.
abbrev broken : Launch
broken = record smooth { send_init = some "broken pipe" }

abbrev calm : Surroundings
calm = record { ctx_done = false; kill_switch_active = false; now = 1000 }

abbrev running : State (List String)
running = record {
  market = "grid" ∷ [];
  strategy_process = ("grid", record { name = "grid"; id = 3 }) ∷ [];
  strategy_intervals = ("grid", "1m") ∷ [];
  crash_times = ("grid", 950 ∷ []) ∷ [];
  sent = [];
}

-- A launch from the start, with both messages sent.
launched : launch_strategy setting smooth grid empty ≡ (
  record {
    market = "grid" ∷ [];
    strategy_process = ("grid", record { name = "grid"; id = 7 }) ∷ [];
    strategy_intervals = ("grid", "1m") ∷ [];
    crash_times = [];
    sent =
        (record { name = "grid"; id = 7 }, history)
        ∷ (record { name = "grid"; id = 7 }, init grid)
        ∷ [];
  },
  none,
)
unfolding launch_strategy resolve_interval validate_interval is_listed trim_space subscribe_strategy
    contracts_to_strings warmup_history lookup insert
launched = refl

-- A crash while it runs: it is to be restarted, and its interval is still recorded.
crashed : handle_process_exit setting calm (record { name = "grid"; id = 3 }) running ≡ (
  record {
    market = [];
    strategy_process = [];
    strategy_intervals = ("grid", "1m") ∷ [];
    crash_times = ("grid", 950 ∷ 1000 ∷ []) ∷ [];
    sent = [];
  },
  true,
)
unfolding handle_process_exit unsubscribe_strategy record_strategy_crash record_crash
    prune_and_count prune_crash_times recent lookup insert erase
crashed = refl

launch_strategy_retry_example :
    IsIdle setting smooth grid
      (launch_strategy setting broken grid empty).0
      (launch_strategy setting smooth grid (launch_strategy setting broken grid empty).0)
unfolding launch_strategy resolve_interval validate_interval is_listed trim_space subscribe_strategy
    lookup insert is_late
launch_strategy_retry_example =
    launch_strategy_retry setting broken smooth grid empty refl (λ interval. refl)

handle_process_exit-stop_strategy_example :
    handle_process_exit setting calm
      (record { name = "grid"; id = 3 })
      (stop_strategy setting "grid" none running).0
    ≡ ((stop_strategy setting "grid" none running).0, false)
handle_process_exit-stop_strategy_example =
    handle_process_exit-stop_strategy setting none calm (record { name = "grid"; id = 3 }) running

launch_strategy-handle_process_exit_example :
    let t = (launch_strategy setting smooth grid (stop_strategy setting "grid" none running).0).0 in
    (lookup "grid" t.strategy_process ≡ some (record { name = "grid"; id = 7 }))
    × (lookup "grid"
          (handle_process_exit setting calm (record { name = "grid"; id = 3 }) t).0.strategy_process
        ≡ none)
unfolding launch_strategy resolve_interval validate_interval is_listed trim_space subscribe_strategy
    contracts_to_strings warmup_history stop_strategy unsubscribe_strategy lookup insert erase
launch_strategy-handle_process_exit_example =
    launch_strategy-handle_process_exit setting smooth grid none calm
      (record { name = "grid"; id = 3 }) 7 running refl refl refl
