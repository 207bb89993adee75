-- ===== src/Risk.antt =====
-- internal/domain/risk: the rules, the verdicts and what one evaluation reads. The text of a
-- verdict's message is not modelled.
pub mod Exposure
pub mod Evaluate
pub mod Merge
use signalix.Prelude.{Bool, Option, String}
use signalix.Prelude.Int.{ℤ}

-- risk.Kind; `other` is any further value that a remote evaluator may send
pub data Kind : Type 0 where
  allow reject reduce : Kind
  other : ℤ → Kind

-- risk.Verdict
pub record Verdict : Type 0 where
  pub kind : Kind
  pub code : String
  pub adjusted_size : String

-- risk.Allow
abbrev pub allowed : Verdict
allowed = record { kind = allow; code = "RISK_ALLOW"; adjusted_size = "" }

abbrev pub rejected : String → Verdict
rejected code = record { kind = reject; code = code; adjusted_size = "" }

abbrev pub reduced : String → String → Verdict
reduced code size = record { kind = reduce; code = code; adjusted_size = size }

-- risk.Rules; `D` is decimal.Decimal
pub record Rules (D : Type 0) : Type 0 where
  pub enable : Bool
  pub max_order_size : D
  pub max_open_orders : ℤ
  pub max_positions : ℤ
  pub max_position_size : D
  pub max_daily_loss : D
  pub max_drawdown : D
  pub max_leverage : ℤ
  pub enable_position_lock : Bool

-- risk.Overrides
pub record Overrides (D : Type 0) : Type 0 where
  pub max_order_size : Option D
  pub max_open_orders : Option ℤ
  pub max_positions : Option ℤ
  pub max_position_size : Option D
  pub max_daily_loss : Option D
  pub max_drawdown : Option D
  pub max_leverage : Option ℤ
  pub enable_position_lock : Option Bool

-- risk.Input
pub record Input (D : Type 0) : Type 0 where
  pub rules : Rules D
  pub order_size : String
  pub signal_opens_exposure : Bool
  pub open_order_count : ℤ
  pub open_position_count : ℤ
  pub projection_ready : Bool
  pub notional_available : Bool
  pub opens_exposure : Bool
  pub increasing_exposure : Bool
  pub order_notional : D
  pub position_notional : D
  pub post_position_notional : D
  pub total_exposure : D
  pub post_total_exposure : D
  pub account_equity : D
  pub daily_loss : D
  pub drawdown_ratio : D
  pub post_leverage : D
  pub notional_per_unit : D
