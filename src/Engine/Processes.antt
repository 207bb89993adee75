-- ===== src/Engine/Processes.antt =====
-- The strategies' processes in engine.go: launchStrategy, StopStrategy and handleProcessExit, with
-- market_dispatch.go and strategy/interval.go. Each runs under processMu; the state of the markets,
-- and what a new process and its pipes answer, are given from outside.
pub mod Retry
pub mod Late
mod Tests
use signalix.Prelude.{
  ℕ, zero, suc, Bool, true, false, not, ◌&&◌, Option, none, some, List, [], ◌∷◌, String, Result, ok,
  err, str_eq, if◌then◌else◌,
}
use signalix.Prelude.Int.{ℤ, pos, negsuc, leb_ℤ}
use signalix.Prelude.Dict.{Dict, lookup, insert, erase}
use signalix.Prelude.Text.{trim_space}
use signalix.Models.{Market, perp, valid}
use signalix.Oms.{Failure}
use signalix.Engine.Crashes.{RestartSettings, record_strategy_crash}

-- AllowedIntervals
abbrev pub allowed_intervals : List String
allowed_intervals = "10s" ∷ "1m" ∷ "5m" ∷ "15m" ∷ "30m" ∷ "1h" ∷ "4h" ∷ "8h" ∷ "1d" ∷ "7d" ∷ []

unfoldable pub is_listed : String → List String → Bool
is_listed interval [] = false
is_listed interval (i ∷ is) =
    let rest = is_listed interval is in if str_eq i interval then true else rest

pub data IntervalError : Type 0 where
  interval_required : IntervalError
  invalid_interval : String → IntervalError

-- ValidateInterval
unfoldable pub validate_interval : String → Option IntervalError
unfolding is_listed
validate_interval text =
    let interval = trim_space text in
    if str_eq interval ""
    then some interval_required
    else if not (is_listed interval allowed_intervals)
    then some (invalid_interval interval)
    else none

abbrev validated : String → Option IntervalError → Result IntervalError String
validated interval none = ok interval
validated interval (some e) = err e

-- ResolveInterval: the strategy's own interval, or else the default one
unfoldable pub resolve_interval : String → String → Result IntervalError String
unfolding validate_interval
resolve_interval own default_interval =
    let interval =
      if str_eq (trim_space own) "" then trim_space default_interval else trim_space own in
    validated interval (validate_interval interval)

-- strategy.Strategy, the fields that are read
pub record Strategy : Type 0 where
  pub name : String
  pub enabled : Bool
  pub market : Market
  pub symbols : List String
  pub interval : String
  pub history_bars : ℤ
  pub subscribe_ticker : Bool

-- market.SubscribeRequest
pub record SubscribeRequest : Type 0 where
  pub strategy : String
  pub symbols : List String
  pub interval : String
  pub push_ticker : Bool

-- contractsToStrings
unfoldable pub contracts_to_strings : List String → List String
contracts_to_strings [] = []
contracts_to_strings (s ∷ symbols) =
    let rest = contracts_to_strings symbols in
    if str_eq (trim_space s) "" then rest else trim_space s ∷ rest

-- The methods of market.MarketFeed, on the state of all markets; WarmupHistory fills the market's own
-- caches, and says whether it has bars for the strategy.
pub record Feed (M : Type 0) : Type 0 where
  pub subscribe : SubscribeRequest → M → M × Option Failure
  pub unsubscribe : String → M → M
  pub warmup_history : SubscribeRequest → ℤ → M → M × Result Failure Bool

-- What the engine reads here and does not change
pub record Setting (M : Type 0) : Type 0 where
  pub strategies : Dict Strategy
  pub markets : Market → Option (Feed M)
  pub default_interval : String
  pub restart : RestartSettings

-- A process: the name of its strategy, and which process it is
pub record Process : Type 0 where
  pub name : String
  pub id : ℕ

pub data Message : Type 0 where
  init : Strategy → Message
  history : Message

-- The state: the markets, the registered processes, the intervals, the crash times, and what was
-- sent to which process, newest first.
pub record State (M : Type 0) : Type 0 where
  pub market : M
  pub strategy_process : Dict Process
  pub strategy_intervals : Dict String
  pub crash_times : Dict (List ℕ)
  pub sent : List (Process × Message)

pub data SubscribeError : Type 0 where
  market_not_registered : Market → SubscribeError
  refused : Failure → SubscribeError

pub data LaunchError : Type 0 where
  bad_interval : IntervalError → LaunchError
  not_subscribed : SubscribeError → LaunchError
  not_created init_failed history_failed : Failure → LaunchError
  no_market : Market → LaunchError

-- What one launch finds outside: the new process, and whether its pipe takes the first message and
-- the bars.
pub record Launch : Type 0 where
  pub process : Result Failure ℕ
  pub send_init : Option Failure
  pub send_history : Option Failure

pub data StopError : Type 0 where
  strategy_not_found : StopError
  stop_failed : Failure → StopError

-- What handleProcessExit reads outside
pub record Surroundings : Type 0 where
  pub ctx_done : Bool
  pub kill_switch_active : Bool
  pub now : ℕ

-- A market that is not valid counts as the perpetual one.
abbrev pub market_or_perp : Market → Market
market_or_perp m = if valid m then m else perp

abbrev catalog_market : Option Strategy → Market
catalog_market none = perp
catalog_market (some st) = market_or_perp st.market

abbrev request : Strategy → String → Bool → SubscribeRequest
request st interval push = record {
  strategy = st.name;
  symbols = contracts_to_strings st.symbols;
  interval = interval;
  push_ticker = push;
}

module _ {M : Type 0} (c : Setting M) where
  abbrev subscribe_at : Option (Feed M) → Strategy → String → M → M × Option SubscribeError
  subscribe_at none st interval m = (m, some (market_not_registered (market_or_perp st.market)))
  subscribe_at (some feed) st interval m =
      let r = feed.subscribe (request st interval st.subscribe_ticker) m in (r.0, answer r.1)
    where
      answer : Option Failure → Option SubscribeError
      answer none = none
      answer (some e) = some (refused e)

  -- subscribeStrategy
  unfoldable pub subscribe_strategy : Strategy → String → M → M × Option SubscribeError
  subscribe_strategy st = subscribe_at (c.markets (market_or_perp st.market)) st

  abbrev unsubscribe_at : Option (Feed M) → String → M → M
  unsubscribe_at none name m = m
  unsubscribe_at (some feed) name m = feed.unsubscribe name m

  -- unsubscribeStrategy, which takes the market from the catalog
  unfoldable pub unsubscribe_strategy : String → M → M
  unsubscribe_strategy name =
      unsubscribe_at (c.markets (catalog_market (lookup name c.strategies))) name

  module _ (out : Launch) (st : Strategy) where
    abbrev pub deliver : Process → Message → State M → State M
    deliver p m s = record s { sent = (p, m) ∷ s.sent }

    abbrev send_bars : Process → Option Failure → State M → State M × Option LaunchError
    send_bars p (some e) s = (s, some (history_failed e))
    send_bars p none s = (deliver p history s, none)

    abbrev with_bars : Process → Result Failure Bool → State M → State M × Option LaunchError
    with_bars p (err e) s = (s, some (history_failed e))
    with_bars p (ok false) s = (s, none)
    with_bars p (ok true) s = send_bars p out.send_history s

    abbrev warmup_at : Option (Feed M) → String → Process → State M → State M × Option LaunchError
    warmup_at none interval p s = (s, some (no_market (market_or_perp st.market)))
    warmup_at (some feed) interval p s =
        let r = feed.warmup_history (request st interval false) st.history_bars s.market in
        with_bars p r.1 (record s { market = r.0 })

    -- warmupHistory
    unfoldable pub warmup_history : String → Process → State M → State M × Option LaunchError
    warmup_history interval p s =
        if leb_ℤ st.history_bars (pos 0)
        then (s, none)
        else warmup_at (c.markets (market_or_perp st.market)) interval p s

    -- The end of launchStrategy
    abbrev pub finish : String → State M × Option LaunchError → State M × Option LaunchError
    finish interval (s, some e) = (s, some e)
    finish interval (s, none) =
        (record s { strategy_intervals = insert st.name interval s.strategy_intervals }, none)

    abbrev pub initialised :
        String → Process → Option Failure → State M → State M × Option LaunchError
    initialised interval p (some e) s = (s, some (init_failed e))
    initialised interval p none s =
        finish interval (warmup_history interval p (deliver p (init st) s))

    abbrev pub register : Process → State M → State M
    register p s = record s { strategy_process = insert st.name p s.strategy_process }

    abbrev pub created : String → Result Failure ℕ → State M → State M × Option LaunchError
    created interval (err e) s = (s, some (not_created e))
    created interval (ok id) s =
        let p : Process = record { name = st.name; id = id } in
        initialised interval p out.send_init (register p s)

    abbrev pub unless_registered : String → Option Process → State M → State M × Option LaunchError
    unless_registered interval (some p) s = (s, none)
    unless_registered interval none s = created interval out.process s

    abbrev pub once_subscribed :
        String → State M → M × Option SubscribeError → State M × Option LaunchError
    once_subscribed interval s (m, some e) = (record s { market = m }, some (not_subscribed e))
    once_subscribed interval s (m, none) =
        unless_registered interval (lookup st.name s.strategy_process) (record s { market = m })

    abbrev pub at_interval : State M → Result IntervalError String → State M × Option LaunchError
    at_interval s (err e) = (s, some (bad_interval e))
    at_interval s (ok interval) =
        once_subscribed interval s (subscribe_strategy st interval s.market)

    -- launchStrategy
    unfoldable pub launch_strategy : State M → State M × Option LaunchError
    unfolding resolve_interval subscribe_strategy warmup_history
    launch_strategy s = at_interval s (resolve_interval st.interval c.default_interval)

  abbrev pub removed : String → State M → State M
  removed name s = record s {
    strategy_process = erase name s.strategy_process;
    market = unsubscribe_strategy name s.market;
  }

  abbrev stopped : Option Failure → Option StopError
  stopped none = none
  stopped (some e) = some (stop_failed e)

  abbrev stop_found :
      String → Option Failure → Option Process → State M → State M × Option StopError
  stop_found name answer none s = (s, some strategy_not_found)
  stop_found name answer (some p) s = (
    record (removed name s) { strategy_intervals = erase name s.strategy_intervals },
    stopped answer,
  )

  -- StopStrategy, with what the process answers to Stop
  unfoldable pub stop_strategy : String → Option Failure → State M → State M × Option StopError
  unfolding unsubscribe_strategy
  stop_strategy name answer s = stop_found name answer (lookup name s.strategy_process) s

  abbrev times_or_none : Option (List ℕ) → List ℕ
  times_or_none none = []
  times_or_none (some ts) = ts

  abbrev pub enabled_in_catalog : Option Strategy → Bool
  enabled_in_catalog none = false
  enabled_in_catalog (some st) = st.enabled

  abbrev crash_count : String → Surroundings → State M → List ℕ × ℕ
  crash_count name o s =
      record_strategy_crash (times_or_none (lookup name s.crash_times)) c.restart.crash_window o.now

  -- Whether scheduleRestart is called, by the number of crashes in the window
  abbrev restarts : String → Surroundings → ℕ → Bool
  restarts name o n =
      not o.ctx_done
      && c.restart.enabled
      && not o.kill_switch_active
      && not (leb_ℤ c.restart.max_crashes (pos n))
      && enabled_in_catalog (lookup name c.strategies)

  abbrev pub exit_found : String → Surroundings → Option Process → State M → State M × Bool
  exit_found name o none s = (s, false)
  exit_found name o (some p) s =
      let r = crash_count name o s in
      (record (removed name s) { crash_times = insert name r.0 s.crash_times }, restarts name o r.1)

  -- handleProcessExit of a process: the state, and whether scheduleRestart is called
  unfoldable pub handle_process_exit : Surroundings → Process → State M → State M × Bool
  unfolding unsubscribe_strategy record_strategy_crash
  handle_process_exit o p s = exit_found p.name o (lookup p.name s.strategy_process) s
