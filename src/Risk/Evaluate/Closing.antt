-- ===== src/Risk/Evaluate/Closing.antt =====
-- Orders that close.
use signalix.Prelude.{◌≡◌, true, false, some, arith}
use signalix.Prelude.Int.{pos, ◌≤ℤ◌}
use signalix.Numbers.{Numbers}
use signalix.Risk.{reject, Input}
use signalix.Risk.Evaluate.{
  exposure_check, open_orders_check, positions_check, leverage_check, order_size_check,
  position_size_check, limit_checks, evaluate, order_quantity, ◌otherwise◌, when, reject_if,
}

module _ (num : Numbers) where
  open num use {Decimal}

  -- An order that opens nothing and whose size reads as a positive number is rejected only by the
  -- limit on open orders: below that limit, or without it, it passes, at a smaller size perhaps.
  pub evaluate-closing :
      (i : Input Decimal) (q : Decimal)
      → order_quantity num i ≡ some q
      → i.opens_exposure ≡ false
      → i.signal_opens_exposure ≡ false
      → i.increasing_exposure ≡ false
      → (evaluate num i).kind ≡ reject
      → (i.rules.enable ≡ true)
        × (pos 1 ≤ℤ i.rules.max_open_orders)
        × (i.rules.max_open_orders ≤ℤ i.open_order_count)
        × ((evaluate num i).code ≡ "RISK_MAX_OPEN_ORDERS")
  unfolding evaluate limit_checks exposure_check open_orders_check positions_check leverage_check
      order_size_check position_size_check ◌otherwise◌ when reject_if
  evaluate-closing i q e o s inc k = ground arith
