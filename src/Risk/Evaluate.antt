-- ===== src/Risk/Evaluate.antt =====
-- Evaluate of internal/domain/risk/evaluate.go: a chain of checks, of which the first that objects
-- gives the verdict. Each `if … { return }` of the source is a check.
pub mod Objection
pub mod Allow
pub mod Reduce
pub mod Size
pub mod Closing
mod Tests
use signalix.Prelude.{Bool, true, false, not, ◌&&◌, Option, none, some, String, if◌then◌else◌}
use signalix.Prelude.Int.{pos, ltb_ℤ, leb_ℤ}
use signalix.Numbers.{Numbers, gt, ge, is_positive, is_zero}
use signalix.Risk.{Verdict, allowed, rejected, reduced, Input}

-- `a`, and where it has no objection `b`.
infixr 6 ◌otherwise◌
unfoldable pub ◌otherwise◌ : Option Verdict → Option Verdict → Option Verdict
none otherwise b = b
(some v) otherwise b = some v

unfoldable pub reject_if : Bool → String → Option Verdict
reject_if true code = some (rejected code)
reject_if false code = none

-- `if c { … }` round further checks.
unfoldable pub when : Bool → Option Verdict → Option Verdict
when true a = a
when false a = none

abbrev pub verdict_or_allow : Option Verdict → Verdict
verdict_or_allow none = allowed
verdict_or_allow (some v) = v

module _ (num : Numbers) where
  open num use {Decimal, parse, to_string, from_int, sub, div, floor}

  -- `qty, err := NewFromString(in.OrderSize)`, with the test `err != nil || qty.Sign() <= 0`.
  abbrev pub positive_or_none : Option Decimal → Option Decimal
  positive_or_none none = none
  positive_or_none (some q) = if is_positive num q then some q else none

  unfoldable pub order_quantity : Input Decimal → Option Decimal
  order_quantity i = positive_or_none (parse i.order_size)

  -- The five checks on an order that opens exposure, before the counts.
  unfoldable pub exposure_check : Input Decimal → Option Verdict
  exposure_check i =
      reject_if (opens_exposure && not projection_ready) "RISK_PROJECTION_NOT_READY"
      otherwise reject_if (rules.enable_position_lock && opens_exposure) "RISK_POSITION_LOCK"
      otherwise reject_if (opens_exposure && not (is_positive num account_equity))
          "RISK_INVALID_EQUITY"
      otherwise reject_if
          (opens_exposure
            && is_positive num rules.max_daily_loss
            && ge num daily_loss rules.max_daily_loss)
          "RISK_MAX_DAILY_LOSS"
      otherwise reject_if
          (opens_exposure
            && is_positive num rules.max_drawdown
            && ge num drawdown_ratio rules.max_drawdown)
          "RISK_MAX_DRAWDOWN"
    where
      open i use {
        rules, opens_exposure, projection_ready, account_equity, daily_loss, drawdown_ratio,
      }

  unfoldable pub open_orders_check : Input Decimal → Option Verdict
  open_orders_check i =
      reject_if
        (ltb_ℤ (pos 0) i.rules.max_open_orders && leb_ℤ i.rules.max_open_orders i.open_order_count)
        "RISK_MAX_OPEN_ORDERS"

  -- A negative position count is unknown, and skips the check.
  unfoldable pub positions_check : Input Decimal → Option Verdict
  positions_check i =
      reject_if
        (ltb_ℤ (pos 0) i.rules.max_positions
          && i.signal_opens_exposure
          && leb_ℤ (pos 0) i.open_position_count
          && leb_ℤ i.rules.max_positions i.open_position_count)
        "RISK_MAX_POSITIONS"

  unfoldable pub leverage_check : Input Decimal → Option Verdict
  leverage_check i = when (i.opens_exposure && ltb_ℤ (pos 0) i.rules.max_leverage) (
      reject_if (not i.notional_available) "RISK_NOTIONAL_UNAVAILABLE"
      otherwise reject_if (gt num i.post_leverage (from_int i.rules.max_leverage))
          "RISK_MAX_LEVERAGE")

  unfoldable pub order_size_check : Input Decimal → Decimal → Option Verdict
  order_size_check i q =
      when (not (is_zero num i.rules.max_order_size) && gt num q i.rules.max_order_size)
        (some (reduced "RISK_MAX_ORDER_SIZE" (to_string i.rules.max_order_size)))

  -- `allowedDelta` and `allowedQty`.
  abbrev pub allowed_delta : Input Decimal → Decimal
  allowed_delta i = sub i.rules.max_position_size i.position_notional

  abbrev pub allowed_qty : Input Decimal → Decimal
  allowed_qty i = floor (div (allowed_delta i) i.notional_per_unit)

  -- Once the position would be above its limit.
  unfoldable pub over_position : Input Decimal → Decimal → Option Verdict
  over_position i q =
      reject_if (not (is_positive num (allowed_delta i))) "RISK_MAX_POSITION_SIZE"
      otherwise reject_if (not (is_positive num i.notional_per_unit)) "RISK_NOTIONAL_UNAVAILABLE"
      otherwise reject_if (not (is_positive num (allowed_qty i))) "RISK_MAX_POSITION_SIZE"
      otherwise when (gt num q (allowed_qty i))
          (some (reduced "RISK_MAX_POSITION_SIZE" (to_string (allowed_qty i))))

  unfoldable pub position_size_check : Input Decimal → Decimal → Option Verdict
  position_size_check i q =
      when (i.increasing_exposure && is_positive num i.rules.max_position_size) (
        reject_if (not i.notional_available) "RISK_NOTIONAL_UNAVAILABLE"
        otherwise when (gt num i.post_position_notional i.rules.max_position_size)
            (over_position i q))

  unfoldable pub limit_checks : Input Decimal → Decimal → Option Verdict
  limit_checks i q =
      exposure_check i
      otherwise open_orders_check i
      otherwise positions_check i
      otherwise leverage_check i
      otherwise order_size_check i q
      otherwise position_size_check i q

  unfoldable pub evaluate_quantity : Input Decimal → Option Decimal → Verdict
  evaluate_quantity i none = rejected "RISK_INVALID_ORDER_SIZE"
  evaluate_quantity i (some q) = verdict_or_allow (limit_checks i q)

  unfoldable pub evaluate : Input Decimal → Verdict
  unfolding evaluate_quantity
  evaluate i = if not i.rules.enable then allowed else evaluate_quantity i (order_quantity i)
