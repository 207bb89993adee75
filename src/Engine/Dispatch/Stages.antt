-- ===== src/Engine/Dispatch/Stages.antt =====
-- dispatchSignal: the kill switch, the decision, the strategy's tier and the evaluator.
use signalix.Prelude.{
  Bool, true, false, ◌&&◌, Option, none, some, List, String, Result, ok, err, if◌then◌else◌,
}
use signalix.Prelude.Int.{ℤ, pos}
use signalix.Prelude.Dict.{lookup}
use signalix.Numbers.{Numbers}
use signalix.Models.{Market, perp, valid, Signal, Order}
use signalix.Risk.{Kind, allow, reject, reduce, other, Verdict, allowed, Rules, Overrides}
use signalix.Risk.Exposure.{opens_exposure}
use signalix.Risk.Merge.{merge_rules, has_effective_overrides, prefix_strategy_verdict}
use signalix.Oms.{Failure, Oms}
use signalix.Oms.Queries.{non_final_order_count_for_strategy}
use signalix.Decision.{DecideError}
use signalix.Perp.RiskContext.{RiskContext}
use signalix.Engine.Dispatch.{
  Strategy, MarketPort, Evaluator, static, remote, Engine, kill_switch_active,
  market_not_registered, nothing_to_do, decide_failed, context_failed, strategy_failed,
  evaluation_failed, strategy_rejected, strategy_unknown, rejected, unknown, Outcome, sent, dropped,
  default_rules, evaluate_rules, judge, open_position_count_for_strategy,
}

module _ (num : Numbers) (e : Engine num.Decimal num.Float) where
  open num use {Decimal, Float}

  -- strategyMarket
  abbrev pub market_of : Option (Strategy Decimal) → Market
  market_of none = perp
  market_of (some st) = if valid st.market then st.market else perp

  unfoldable pub strategy_market : String → Market
  strategy_market name = market_of (lookup name e.strategies)

  -- marketFor
  unfoldable pub market_for : Market → Option (MarketPort Decimal Float)
  market_for m = if valid m then e.markets m else none

  -- globalRules
  abbrev pub global_rules : Evaluator Decimal Float → Rules Decimal
  global_rules (static rules) = rules
  global_rules (remote call) = default_rules num

  abbrev pub open_orders_for : String → ℤ → Option Oms → ℤ
  open_orders_for name before none = before
  open_orders_for name before (some s) = pos (non_final_order_count_for_strategy s name)

  -- buildStrategyRiskContext
  unfoldable pub build_strategy_risk_context :
      RiskContext Decimal Float → String → List String → RiskContext Decimal Float
  build_strategy_risk_context base name symbols = record base {
    open_orders = open_orders_for name base.open_orders e.execution;
    positions = open_position_count_for_strategy num e.proj symbols;
  }

  abbrev pub rebuild :
      Option (MarketPort Decimal Float)
      → Signal Float
      → Order
      → Result Failure (RiskContext Decimal Float)
  rebuild none s o = err "market not registered"
  rebuild (some m) s o = m.build_risk_context (some s) (some o)

  abbrev pub rebuilt :
      Verdict
      → Order
      → Result Failure (RiskContext Decimal Float)
      → Result Failure (Verdict × (RiskContext Decimal Float × Order))
  rebuilt v o (err f) = err f
  rebuilt v o (ok rc) = ok (v, (rc, o))

  abbrev pub is_reduce : Kind → Bool
  is_reduce reduce = true
  is_reduce _ = false

  -- The strategy's own verdict; a reduction changes the order and its context.
  unfoldable pub strategy_verdict :
      String
      → Signal Float
      → Order
      → RiskContext Decimal Float
      → Verdict
      → Result Failure (Verdict × (RiskContext Decimal Float × Order))
  strategy_verdict name s o rc v =
      let smaller = record o { size = v.adjusted_size } in
      if is_reduce v.kind
      then rebuilt v smaller (rebuild (market_for (strategy_market name)) s smaller)
      else ok (v, (rc, o))

  unfoldable pub with_overrides :
      String
      → Signal Float
      → Order
      → RiskContext Decimal Float
      → List String
      → Option (Overrides Decimal)
      → Result Failure (Verdict × (RiskContext Decimal Float × Order))
  unfolding strategy_verdict
  with_overrides name s o rc symbols none = ok (allowed, (rc, o))
  with_overrides name s o rc symbols (some overrides) =
      if has_effective_overrides overrides
      then strategy_verdict name s o rc (
          prefix_strategy_verdict (
            evaluate_rules num (merge_rules (global_rules e.evaluator) overrides)
              (build_strategy_risk_context rc name symbols)))
      else ok (allowed, (rc, o))

  unfoldable pub with_strategy :
      String
      → Signal Float
      → Order
      → RiskContext Decimal Float
      → Option (Strategy Decimal)
      → Result Failure (Verdict × (RiskContext Decimal Float × Order))
  unfolding with_overrides
  with_strategy name s o rc none = ok (allowed, (rc, o))
  with_strategy name s o rc (some st) = with_overrides name s o rc st.symbols st.risk_overrides

  -- evaluateStrategyRisk
  unfoldable pub evaluate_strategy_risk :
      String
      → Signal Float
      → Order
      → RiskContext Decimal Float
      → Result Failure (Verdict × (RiskContext Decimal Float × Order))
  unfolding with_strategy
  evaluate_strategy_risk name s o rc = with_strategy name s o rc (lookup name e.strategies)

  -- The switch on the verdict of the evaluator
  unfoldable pub settle : Order → Verdict → Kind → Outcome
  settle o v allow = sent o
  settle o v reduce = sent (record o { size = v.adjusted_size })
  settle o v reject = dropped (rejected v)
  settle o v (other k) = dropped (unknown v)

  unfoldable pub settle_result : Order → Result Failure Verdict → Outcome
  unfolding settle
  settle_result o (err f) = dropped (evaluation_failed f)
  settle_result o (ok v) = settle o v v.kind

  -- The switch on the verdict of the strategy's tier
  unfoldable pub after_strategy : Order → RiskContext Decimal Float → Verdict → Kind → Outcome
  unfolding settle_result
  after_strategy o rc v allow = settle_result o (judge num e.evaluator rc)
  after_strategy o rc v reduce = settle_result o (judge num e.evaluator rc)
  after_strategy o rc v reject = dropped (strategy_rejected v)
  after_strategy o rc v (other k) = dropped (strategy_unknown v)

  unfoldable pub strategy_result :
      Result Failure (Verdict × (RiskContext Decimal Float × Order)) → Outcome
  unfolding after_strategy
  strategy_result (err f) = dropped (strategy_failed f)
  strategy_result (ok (v, (rc, o))) = after_strategy o rc v v.kind

  unfoldable pub with_context :
      String → Signal Float → Order → Result Failure (RiskContext Decimal Float) → Outcome
  unfolding strategy_result
  with_context name s o (err f) = dropped (context_failed f)
  with_context name s o (ok rc) = strategy_result (evaluate_strategy_risk name s o rc)

  abbrev pub placed_in : Market → Order → Order
  placed_in m o = if valid o.market then o else record o { market = m }

  unfoldable pub with_order :
      String
      → Signal Float
      → Market
      → MarketPort Decimal Float
      → Result DecideError (Option Order)
      → Outcome
  unfolding with_context
  with_order name s mk m (err f) = dropped (decide_failed f)
  with_order name s mk m (ok none) = dropped nothing_to_do
  with_order name s mk m (ok (some o)) =
      with_context name s (placed_in mk o) (m.build_risk_context (some s) (some (placed_in mk o)))

  unfoldable pub with_market :
      String → Signal Float → Market → Option (MarketPort Decimal Float) → Outcome
  unfolding with_order
  with_market name s mk none = dropped market_not_registered
  with_market name s mk (some m) = with_order name s mk m (m.decide name s)

  -- One signal in dispatchSignal
  unfoldable pub dispatch_signal : String → Signal Float → Outcome
  unfolding with_market
  dispatch_signal name s =
      if e.kill_switch.active && opens_exposure (some s)
      then dropped kill_switch_active
      else with_market name s (strategy_market name) (market_for (strategy_market name))
