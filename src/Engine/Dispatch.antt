-- ===== src/Engine/Dispatch.antt =====
-- The way of a signal to an order: dispatchSignal of engine.go with strategy_risk.go,
-- risk_evaluator.go and market_dispatch.go. All that is read is of one moment; an order is sent on
-- when it is put on the channel to the order management.
pub mod Stages
pub mod Sent
pub mod Limits
pub mod Killed
mod Tests
use signalix.Prelude.{
  ℕ, suc, Bool, true, false, not, ◌&&◌, Option, none, some, List, [], ◌∷◌, String, Result, ok, err,
  ◌≡◌, str_eq, if◌then◌else◌,
}
use signalix.Prelude.Int.{ℤ, pos, negsuc}
use signalix.Prelude.Dict.{Dict, lookup}
use signalix.Prelude.Text.{trim_space}
use signalix.Numbers.{Numbers, is_positive}
use signalix.Models.{Market, perp, valid, Signal, Order, PositionSnapshot}
use signalix.Risk.{Kind, allow, reject, reduce, other, Verdict, allowed, Rules, Overrides, Input}
use signalix.Risk.Exposure.{opens_exposure}
use signalix.Risk.Evaluate.{evaluate}
use signalix.Risk.Merge.{merge_rules, has_effective_overrides, prefix_strategy_verdict}
use signalix.Oms.{Failure, Oms}
use signalix.Oms.Queries.{non_final_order_count_for_strategy}
use signalix.Decision.{DecideError}
use signalix.Projection.{Projection}
use signalix.Perp.RiskContext.{RiskContext}
use signalix.Engine.KillSwitch.{KillSwitch}

-- strategy.Strategy, the fields that are read
pub record Strategy (D : Type 0) : Type 0 where
  pub market : Market
  pub symbols : List String
  pub risk_overrides : Option (Overrides D)

-- The two methods of market.Market that a signal meets. The number of decisions is counted inside.
pub record MarketPort (D F : Type 0) : Type 0 where
  pub decide : String → Signal F → Result DecideError (Option Order)
  pub build_risk_context : Option (Signal F) → Option Order → Result Failure (RiskContext D F)

-- A context is about the order that it was made for.
pub record IsPort {D F : Type 0} (m : MarketPort D F) : Type 0 where
  pub about :
      (signal : Option (Signal F)) (o : Order) (rc : RiskContext D F)
      → m.build_risk_context signal (some o) ≡ ok rc
      → rc.order ≡ o

-- ports.RiskEvaluator: the rules of the repository, or another implementation
pub data Evaluator (D F : Type 0) : Type 0 where
  static : Rules D → Evaluator D F
  remote : (RiskContext D F → Result Failure Verdict) → Evaluator D F

-- What the engine reads; a nil strategy or market counts as a missing one.
pub record Engine (D F : Type 0) : Type 0 where
  pub kill_switch : KillSwitch
  pub strategies : Dict (Strategy D)
  pub markets : Market → Option (MarketPort D F)
  pub evaluator : Evaluator D F
  pub proj : Option (Projection D)
  pub execution : Option Oms

-- Why nothing is sent
pub data Drop : Type 0 where
  kill_switch_active market_not_registered nothing_to_do : Drop
  decide_failed : DecideError → Drop
  context_failed strategy_failed evaluation_failed : Failure → Drop
  strategy_rejected strategy_unknown rejected unknown : Verdict → Drop

pub data Outcome : Type 0 where
  sent : Order → Outcome
  dropped : Drop → Outcome

module _ (num : Numbers) where
  open num use {Decimal, Float, nil, from_int, parse}

  -- DefaultRules
  abbrev pub default_rules : Rules Decimal
  default_rules = record {
    enable = true;
    max_order_size = from_int (pos 100000);
    max_open_orders = pos 50;
    max_positions = pos 20;
    max_position_size = nil;
    max_daily_loss = nil;
    max_drawdown = nil;
    max_leverage = pos 0;
    enable_position_lock = false;
  }

  -- EvaluateRules
  unfoldable pub input_of : Rules Decimal → RiskContext Decimal Float → Input Decimal
  input_of rules rc = record {
    rules = rules;
    order_size = rc.order.size;
    signal_opens_exposure = opens_exposure rc.signal;
    open_order_count = rc.open_orders;
    open_position_count = rc.positions;
    projection_ready = rc.projection_ready;
    notional_available = rc.notional_available;
    opens_exposure = rc.opens;
    increasing_exposure = rc.increasing;
    order_notional = rc.order_notional;
    position_notional = rc.position_notional;
    post_position_notional = rc.post_position_notional;
    total_exposure = rc.total_exposure;
    post_total_exposure = rc.post_total_exposure;
    account_equity = rc.equity;
    daily_loss = rc.daily_loss;
    drawdown_ratio = rc.drawdown_ratio;
    post_leverage = rc.post_leverage;
    notional_per_unit = rc.notional_per_unit;
  }

  unfoldable pub evaluate_rules : Rules Decimal → RiskContext Decimal Float → Verdict
  unfolding input_of
  evaluate_rules rules rc = evaluate num (input_of rules rc)

  -- Evaluate of the evaluator
  unfoldable pub judge :
      Evaluator Decimal Float → RiskContext Decimal Float → Result Failure Verdict
  unfolding evaluate_rules
  judge (static rules) rc = ok (evaluate_rules rules rc)
  judge (remote call) rc = call rc

  -- The positions of openPositionCountForStrategy, among the names that are not blank
  unfoldable pub is_among : String → List String → Bool
  is_among contract [] = false
  is_among contract (s ∷ symbols) =
      let rest = is_among contract symbols in
      if not (str_eq (trim_space s) "") && str_eq (trim_space s) contract then true else rest

  abbrev is_held : Option Decimal → Bool
  is_held none = false
  is_held (some q) = is_positive num q

  unfoldable pub count_positions : List String → Dict PositionSnapshot → ℕ
  unfolding is_among
  count_positions symbols [] = 0
  count_positions symbols ((k, v) ∷ m) =
      let rest = count_positions symbols m in
      if is_among v.contract symbols && is_held (parse (trim_space v.size)) then suc rest else rest

  -- openPositionCountForStrategy
  unfoldable pub open_position_count_for_strategy : Option (Projection Decimal) → List String → ℤ
  unfolding count_positions
  open_position_count_for_strategy none symbols = negsuc 0
  open_position_count_for_strategy (some p) symbols =
      if not p.ready then negsuc 0 else pos (count_positions symbols p.positions)
