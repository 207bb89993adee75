-- ===== src/Models.antt =====
-- internal/models and the value types of pkg/exchange/perp/types.go. A Go string type with
-- constants is a data type with those constants and `other` for every further text. A `time.Time`
-- is a count of nanoseconds, 0 for the zero time. Struct tags are left out.
pub mod Validate
use signalix.Prelude.{ℕ, Bool, true, false, Option, String}

-- models.Market
pub data Market : Type 0 where
  perp spot : Market
  other : String → Market

-- Market.Valid
abbrev pub valid : Market → Bool
valid perp = true
valid spot = true
valid (Market.other _) = false

-- models.OrderSide; the empty text means that no order is needed
pub data OrderSide : Type 0 where
  buy sell : OrderSide
  other : String → OrderSide

-- models.OrderType
pub data OrderType : Type 0 where
  market limit : OrderType
  other : String → OrderType

-- models.OrderStatus
pub data OrderStatus : Type 0 where
  pending submitted partial_filled filled cancelled rejected : OrderStatus
  other : String → OrderStatus

-- models.Order
pub record Order : Type 0 where
  pub id : String
  pub exchange_id : String
  pub market : Market
  pub symbol : String
  pub side : OrderSide
  pub order_type : OrderType
  pub price : Option String
  pub size : String
  pub filled_size : String
  pub status : OrderStatus
  pub created_at : ℕ
  pub updated_at : ℕ
  pub stop_price : Option String
  pub strategy_name : String

-- models.OrderEvent
pub record OrderEvent : Type 0 where
  pub market : Market
  pub exchange_id : String
  pub client_id : String
  pub status : OrderStatus
  pub filled_size : String
  pub updated_at : ℕ

-- models.Direction
pub data Direction : Type 0 where
  long short flat : Direction
  other : String → Direction

-- models.SizingMode
pub data SizingMode : Type 0 where
  percent fixed custom : SizingMode
  other : String → SizingMode

-- models.Signal; `F` is float64
pub record Signal (F : Type 0) : Type 0 where
  pub symbol : String
  pub direction : Direction
  pub strength : F
  pub price : Option String
  pub sizing_mode : Option SizingMode
  pub value : Option String
  pub reason : String
  pub timestamp : ℕ

-- perp.PositionSide
pub data PositionSide : Type 0 where
  long short : PositionSide
  other : String → PositionSide

-- perp.PositionSnapshot
pub record PositionSnapshot : Type 0 where
  pub contract : String
  pub side : PositionSide
  pub size : String
  pub entry_price : String
  pub mark_price : String
  pub unrealized_pnl : String
  pub leverage : ℕ
  pub updated_at : ℕ

-- perp.BalanceView
pub record BalanceView : Type 0 where
  pub currency : String
  pub total : String
  pub available : String
  pub frozen : String
  pub updated_at : ℕ

-- perp.ContractMeta
pub record ContractMeta : Type 0 where
  pub contract : String
  pub quanto_multiplier : String
  pub order_size_min : String
  pub order_size_max : String
  pub order_price_step : String
  pub order_size_step : String
  pub enable_decimal_size : Bool

-- perp.TickerSnapshot
pub record TickerSnapshot : Type 0 where
  pub contract : String
  pub last : String
  pub mark_price : String
  pub index_price : String
  pub funding_rate : String
  pub change_pct_24h : String
  pub volume_24h : String
  pub volume_24h_base : String
  pub volume_24h_quote : String
  pub open_interest : String
  pub low_24h : String
  pub high_24h : String
  pub timestamp_millis : ℕ

-- A status after which the code regards an order as done (the three-way test of execCancel).
abbrev pub is_terminal : OrderStatus → Bool
is_terminal filled = true
is_terminal cancelled = true
is_terminal rejected = true
is_terminal _ = false

-- The statuses that nonFinalOrderCountLocked counts.
abbrev pub is_non_final : OrderStatus → Bool
is_non_final pending = true
is_non_final submitted = true
is_non_final partial_filled = true
is_non_final _ = false
