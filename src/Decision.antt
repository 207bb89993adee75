-- ===== src/Decision.antt =====
-- internal/app/decision: a strategy's signal becomes an order. The account's snapshot, the metadata
-- of a contract, the cached tickers and the new id are given from outside.
pub mod Notional
pub mod Process
use signalix.Prelude.{ℕ, Option, String, Result}
use signalix.Prelude.Int.{ℤ}
use signalix.Models.{ContractMeta, TickerSnapshot, BalanceView, PositionSnapshot}
use signalix.Models.Validate.{SignalError}

-- The errors of the sizing.
pub data SizeError : Type 0 where
  value_required percent_out_of_range fixed_exceeds_balance custom_by_caller : SizeError
  custom_not_positive unknown_mode : SizeError
  no_meta_lookup no_ticker_lookup no_ticker invalid_multiplier : SizeError
  meta_failed : String → SizeError
  bad_ticker_price no_positive_price invalid_denominator zero_contracts : SizeError

-- What processSignal returns as an error, by the step that failed.
pub data DecideError : Type 0 where
  invalid_signal : SignalError → DecideError
  no_projection : DecideError
  snapshot_failed : String → DecideError
  size_failed : SizeError → DecideError
  side_failed : DecideError

-- DecisionStats
pub record DecisionStats : Type 0 where
  pub signals_processed : ℕ
  pub signals_rejected : ℕ
  pub orders_generated : ℕ

-- The fields of DecisionEngine but its stats: what it asks outside, `none` for a nil interface, and
-- what the clock and the uuid package give to the order. A nil ticker is no ticker.
pub record Decider : Type 0 where
  pub snapshot : Option (String → Result String (BalanceView × Option PositionSnapshot))
  pub meta_lookup : Option (String → Result String ContractMeta)
  pub ticker_lookup : Option (String → Option TickerSnapshot)
  pub default_size_divisor : ℤ
  pub now : ℕ
  pub new_id : String
