-- ===== src/Perp/RiskContext.antt =====
-- risk.go: what the risk rules read of one order. The reads of the projection, the counts and the
-- tickers are those of one moment.
pub mod Exposure
pub mod About
mod Tests
use signalix.Prelude.{
  Bool, true, false, not, Option, none, some, List, [], ◌∷◌, String, Result, ok, err, if◌then◌else◌,
}
use signalix.Prelude.Int.{ℤ, pos}
use signalix.Prelude.Dict.{Dict}
use signalix.Prelude.Text.{trim_space}
use signalix.Numbers.{Numbers, is_positive, parse_or_nil}
use signalix.Models.{Signal, Order, PositionSnapshot}
use signalix.Risk.Exposure.{opens_exposure, is_increasing_exposure, leverage_ratio}
use signalix.Oms.{Failure, Oms}
use signalix.Oms.Queries.{non_final_order_count}
use signalix.Decision.{Decider, SizeError}
use signalix.Decision.Notional.{notional_for_contracts}
use signalix.Projection.{
  Outside, Projection, ReadError, position_for_contract, open_position_count, account_equity,
}

-- ports.RiskContext, without the strategy's name and the quote currency, which no rule reads
pub record RiskContext (D F : Type 0) : Type 0 where
  pub signal : Option (Signal F)
  pub order : Order
  pub open_orders : ℤ
  pub positions : ℤ
  pub projection_ready : Bool
  pub notional_available : Bool
  pub opens : Bool
  pub increasing : Bool
  pub order_notional : D
  pub position_notional : D
  pub post_position_notional : D
  pub total_exposure : D
  pub post_total_exposure : D
  pub equity : D
  pub daily_loss : D
  pub drawdown_ratio : D
  pub post_leverage : D
  pub notional_per_unit : D

-- The fields of perpRisk, `none` for a nil one; the equity tracker gives the day's loss and the
-- drawdown.
pub record Sources (D : Type 0) : Type 0 where
  pub proj : Option (Projection D)
  pub decision : Option Decider
  pub execution : Option Oms
  pub equity : Option (D × D)
  pub needs_notional : Option (Bool → Bool)

module _ (num : Numbers) (out : Outside) (src : Sources num.Decimal) where
  open num use {Decimal, Float, nil, parse, add, div}

  abbrev open_orders_of : Option Oms → ℤ
  open_orders_of none = pos 0
  open_orders_of (some s) = pos (non_final_order_count s)

  abbrev pub ready_of : Option (Projection Decimal) → Bool
  ready_of none = false
  ready_of (some p) = p.ready

  abbrev positions_of : Option (Projection Decimal) → ℤ
  positions_of none = pos 0
  positions_of (some p) = elim (open_position_count num out p) [ ok n ↦ pos n | err e ↦ pos 0 ]

  abbrev equity_of : Option (Projection Decimal) → Decimal
  equity_of none = nil
  equity_of (some p) = elim (account_equity num out p) [ ok d ↦ d | err e ↦ nil ]

  abbrev loss_of : Option (Decimal × Decimal) → Decimal × Decimal
  loss_of none = (nil, nil)
  loss_of (some e) = e

  -- The context before the notional is looked at
  unfoldable pub base_context : Option (Signal Float) → Order → RiskContext Decimal Float
  base_context signal o = record {
    signal = signal;
    order = o;
    open_orders = open_orders_of src.execution;
    positions = if ready_of src.proj then positions_of src.proj else pos 0;
    projection_ready = ready_of src.proj;
    notional_available = false;
    opens = opens_exposure signal;
    increasing = false;
    order_notional = nil;
    position_notional = nil;
    post_position_notional = nil;
    total_exposure = nil;
    post_total_exposure = nil;
    equity = if ready_of src.proj then equity_of src.proj else nil;
    daily_loss = (loss_of src.equity).0;
    drawdown_ratio = (loss_of src.equity).1;
    post_leverage = nil;
    notional_per_unit = nil;
  }

  -- A size that reads as a positive number
  abbrev pub positive : Option Decimal → Option Decimal
  positive none = none
  positive (some q) = if is_positive num q then some q else none

  abbrev pub size_of : String → Option Decimal
  size_of size = positive (parse (trim_space size))

  unfoldable pub add_notional :
      Decimal
      → Result SizeError Decimal
      → (Decimal → Result SizeError Decimal)
      → Result SizeError Decimal
  add_notional total (err e) next = err e
  add_notional total (ok n) next = next (add total n)

  -- One position of the loop of totalExposure
  unfoldable pub exposure_step :
      Decider
      → Decimal
      → PositionSnapshot
      → Option Decimal
      → (Decimal → Result SizeError Decimal)
      → Result SizeError Decimal
  unfolding add_notional
  exposure_step de total v none next = next total
  exposure_step de total v (some q) next =
      add_notional total (notional_for_contracts num de v.contract q v.mark_price) next

  -- The loop: a position without a positive size is passed over, and the first notional that cannot
  -- be computed ends it.
  unfoldable pub exposure_from :
      Decider → Decimal → Dict PositionSnapshot → Result SizeError Decimal
  unfolding exposure_step
  exposure_from de total [] = ok total
  exposure_from de total ((k, v) ∷ m) =
      exposure_step de total v (size_of v.size) (λ t. exposure_from de t m)

  -- totalExposure, of a projection that is ready
  unfoldable pub total_exposure : Decider → Projection Decimal → Result SizeError Decimal
  unfolding exposure_from
  total_exposure de p = exposure_from de nil p.positions

  -- The exposures after the order, and the leverage
  unfoldable pub with_posts : RiskContext Decimal Float → RiskContext Decimal Float
  with_posts rc =
      let position =
        if rc.increasing
        then add rc.position_notional rc.order_notional
        else rc.position_notional in
      let total =
        if rc.increasing then add rc.total_exposure rc.order_notional else rc.total_exposure in
      record rc {
        post_position_notional = position;
        post_total_exposure = total;
        post_leverage =
            if is_positive num rc.equity
            then leverage_ratio num total rc.equity
            else rc.post_leverage;
      }

  unfoldable pub with_total :
      Result SizeError Decimal → RiskContext Decimal Float → RiskContext Decimal Float
  unfolding with_posts
  with_total (err e) rc = record rc { notional_available = false }
  with_total (ok t) rc = with_posts (record rc { total_exposure = t })

  unfoldable pub with_position_notional :
      Decider
      → Projection Decimal
      → Result SizeError Decimal
      → RiskContext Decimal Float
      → RiskContext Decimal Float
  unfolding with_total
  with_position_notional de p (err e) rc = record rc { notional_available = false }
  with_position_notional de p (ok n) rc =
      with_total (total_exposure de p) (record rc { position_notional = n })

  -- The notional of the position, if there is one
  unfoldable pub with_held :
      Decider
      → Projection Decimal
      → Option PositionSnapshot
      → RiskContext Decimal Float
      → RiskContext Decimal Float
  unfolding with_position_notional
  with_held de p none rc = with_total (total_exposure de p) rc
  with_held de p (some v) rc =
      with_position_notional de p
        (notional_for_contracts num de rc.order.symbol (parse_or_nil num (trim_space v.size))
          v.mark_price)
        rc

  unfoldable pub with_order_notional :
      Decider
      → Projection Decimal
      → Option PositionSnapshot
      → Decimal
      → Result SizeError Decimal
      → RiskContext Decimal Float
      → RiskContext Decimal Float
  unfolding with_held
  with_order_notional de p v q (err e) rc = rc
  with_order_notional de p v q (ok n) rc =
      with_held de p v
        (record rc { notional_available = true; order_notional = n; notional_per_unit = div n q })

  abbrev pub mark_of : Option PositionSnapshot → String
  mark_of none = ""
  mark_of (some v) = v.mark_price

  unfoldable pub with_quantity :
      Decider
      → Projection Decimal
      → Option PositionSnapshot
      → Option Decimal
      → RiskContext Decimal Float
      → RiskContext Decimal Float
  unfolding with_order_notional
  with_quantity de p v none rc = rc
  with_quantity de p v (some q) rc =
      with_order_notional de p v q (notional_for_contracts num de rc.order.symbol q (mark_of v)) rc

  abbrev pub needs : Option (Bool → Bool) → Bool → Bool
  needs none increasing = false
  needs (some gate) increasing = gate increasing

  unfoldable pub with_notional :
      Option Decider
      → Projection Decimal
      → Option PositionSnapshot
      → RiskContext Decimal Float
      → RiskContext Decimal Float
  unfolding with_quantity
  with_notional none p v rc = rc
  with_notional (some de) p v rc = with_quantity de p v (size_of rc.order.size) rc

  -- From the contract's position on
  unfoldable pub with_position :
      Projection Decimal
      → Result ReadError (Option PositionSnapshot)
      → RiskContext Decimal Float
      → RiskContext Decimal Float
  unfolding with_notional
  with_position p (err e) rc = rc
  with_position p (ok v) rc =
      let increasing = is_increasing_exposure num rc.signal v in
      if needs src.needs_notional increasing
      then with_notional src.decision p v (record rc { increasing = increasing })
      else record rc { increasing = increasing; notional_available = true }

  unfoldable pub with_projection :
      Option (Projection Decimal) → RiskContext Decimal Float → RiskContext Decimal Float
  unfolding with_position
  with_projection none rc = rc
  with_projection (some p) rc =
      if not rc.projection_ready
      then rc
      else with_position p (position_for_contract num out rc.order.symbol p) rc

  unfoldable pub context_of : RiskContext Decimal Float → RiskContext Decimal Float
  unfolding with_projection
  context_of rc =
      if not rc.opens then record rc { notional_available = true } else with_projection src.proj rc

  -- BuildRiskContext
  unfoldable pub build_risk_context :
      Option (Signal Float) → Option Order → Result Failure (RiskContext Decimal Float)
  unfolding context_of base_context
  build_risk_context signal none = err "nil order"
  build_risk_context signal (some o) = ok (context_of (base_context signal o))
