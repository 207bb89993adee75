-- ===== src/Risk/Evaluate/Allow.antt =====
-- When Evaluate lets an order pass.
use signalix.Prelude.{◌≡◌, ◌⊎◌, ◌↔◌, true, false, none, some, arith, Bool-cases, ap, inl, inr}
use signalix.Prelude.Int.{pos, ◌≤ℤ◌}
use signalix.Numbers.{Numbers, equal}
use signalix.Risk.{allow, Verdict, Input}
use signalix.Risk.Evaluate.Objection.{otherwise-none, evaluate-allow, evaluate-passes}
use signalix.Risk.Evaluate.{
  exposure_check, open_orders_check, positions_check, leverage_check, order_size_check,
  position_size_check, allowed_delta, allowed_qty, over_position, limit_checks, evaluate,
  order_quantity, ◌otherwise◌, reject_if, when,
}

module _ (num : Numbers) where
  open num use {Decimal, from_int, lt, nil}

  -- The account can take an order that opens exposure.
  pub record TakesExposure (i : Input Decimal) : Type 0 where
    pub ready : i.projection_ready ≡ true
    pub unlocked : i.rules.enable_position_lock ≡ false
    pub solvent : lt nil i.account_equity ≡ true
    pub loss : lt nil i.rules.max_daily_loss ≡ true → lt i.daily_loss i.rules.max_daily_loss ≡ true
    pub drawdown :
        lt nil i.rules.max_drawdown ≡ true → lt i.drawdown_ratio i.rules.max_drawdown ≡ true

  -- The position stays under its limit: as a whole, or by the size that is still free.
  pub record FitsPosition (i : Input Decimal) (q : Decimal) : Type 0 where
    pub available : i.notional_available ≡ true
    pub fits :
        (lt i.rules.max_position_size i.post_position_notional ≡ false)
        ⊎ ((lt nil (allowed_delta num i) ≡ true)
            × (lt nil i.notional_per_unit ≡ true)
            × (lt nil (allowed_qty num i) ≡ true)
            × (lt (allowed_qty num i) q ≡ false))

  -- Every limit that is set holds of an order of size `q`.
  pub record Within (i : Input Decimal) (q : Decimal) : Type 0 where
    pub exposure : i.opens_exposure ≡ true → TakesExposure i
    pub orders :
        pos 1 ≤ℤ i.rules.max_open_orders → ¬ (i.rules.max_open_orders ≤ℤ i.open_order_count)
    pub positions :
        pos 1 ≤ℤ i.rules.max_positions
        → i.signal_opens_exposure ≡ true
        → pos 0 ≤ℤ i.open_position_count
        → ¬ (i.rules.max_positions ≤ℤ i.open_position_count)
    pub leverage :
        i.opens_exposure ≡ true
        → pos 1 ≤ℤ i.rules.max_leverage
        → (i.notional_available ≡ true)
          × (lt (from_int i.rules.max_leverage) i.post_leverage ≡ false)
    pub size : (equal num i.rules.max_order_size nil ≡ true) ⊎ (lt i.rules.max_order_size q ≡ false)
    pub position :
        i.increasing_exposure ≡ true → lt nil i.rules.max_position_size ≡ true → FitsPosition i q

  exposure_check-none :
      (i : Input Decimal) → exposure_check num i ≡ none → i.opens_exposure ≡ true → TakesExposure i
  unfolding reject_if ◌otherwise◌ when exposure_check
  exposure_check-none i h o = ground arith

  exposure_check-closing :
      (i : Input Decimal) → i.opens_exposure ≡ false → exposure_check num i ≡ none
  unfolding reject_if ◌otherwise◌ when exposure_check
  exposure_check-closing i o = ground arith

  exposure_check-opening : (i : Input Decimal) → TakesExposure i → exposure_check num i ≡ none
  unfolding reject_if ◌otherwise◌ when exposure_check
  exposure_check-opening i t = ground arith

  open_orders_check-none :
      (i : Input Decimal)
      → (open_orders_check num i ≡ none)
        ↔ (pos 1 ≤ℤ i.rules.max_open_orders → ¬ (i.rules.max_open_orders ≤ℤ i.open_order_count))
  unfolding reject_if ◌otherwise◌ when open_orders_check
  open_orders_check-none i = (λ h p. ground arith, λ h. ground arith)

  positions_check-none :
      (i : Input Decimal)
      → (positions_check num i ≡ none) ↔ (
          pos 1 ≤ℤ i.rules.max_positions
          → i.signal_opens_exposure ≡ true
          → pos 0 ≤ℤ i.open_position_count
          → ¬ (i.rules.max_positions ≤ℤ i.open_position_count))
  unfolding reject_if ◌otherwise◌ when positions_check
  positions_check-none i = (λ h p o c. ground arith, λ h. ground arith)

  leverage_check-none :
      (i : Input Decimal)
      → (leverage_check num i ≡ none) ↔ (
          i.opens_exposure ≡ true
          → pos 1 ≤ℤ i.rules.max_leverage
          → (i.notional_available ≡ true)
            × (lt (from_int i.rules.max_leverage) i.post_leverage ≡ false))
  unfolding reject_if ◌otherwise◌ when leverage_check
  leverage_check-none i = (λ h o p. ground arith, λ h. ground arith)

  order_size_check-none :
      (i : Input Decimal) (q : Decimal)
      → (order_size_check num i q ≡ none)
        ↔ ((equal num i.rules.max_order_size nil ≡ true) ⊎ (lt i.rules.max_order_size q ≡ false))
  unfolding reject_if ◌otherwise◌ when order_size_check
  order_size_check-none i q = (λ h. ground arith, λ h. ground arith)

  position_size_check-none :
      (i : Input Decimal) (q : Decimal)
      → (position_size_check num i q ≡ none) ↔ (
          i.increasing_exposure ≡ true → lt nil i.rules.max_position_size ≡ true → FitsPosition i q)
  unfolding reject_if ◌otherwise◌ when position_size_check over_position
  position_size_check-none i q = (λ h inc lim. ground arith, λ h. ground arith)

  exposure_check-Within :
      (i : Input Decimal)
      → (i.opens_exposure ≡ true → TakesExposure i)
      → exposure_check num i ≡ none
  exposure_check-Within i h = elim (Bool-cases i.opens_exposure) [
    | inl opens ↦ exposure_check-opening i (h opens)
    | inr closes ↦ exposure_check-closing i closes
  ]

  limit_checks-Within : (i : Input Decimal) (q : Decimal) → limit_checks num i q ≡ none → Within i q
  unfolding limit_checks
  limit_checks-Within i q h =
      let (e, h1) = otherwise-none (exposure_check num i) _ h in
      let (o, h2) = otherwise-none (open_orders_check num i) _ h1 in
      let (p, h3) = otherwise-none (positions_check num i) _ h2 in
      let (l, h4) = otherwise-none (leverage_check num i) _ h3 in
      let (s, z) = otherwise-none (order_size_check num i q) _ h4 in
      record {
        exposure = exposure_check-none i e;
        orders = (open_orders_check-none i).0 o;
        positions = (positions_check-none i).0 p;
        leverage = (leverage_check-none i).0 l;
        size = (order_size_check-none i q).0 s;
        position = (position_size_check-none i q).0 z;
      }

  Within-limit_checks : (i : Input Decimal) (q : Decimal) → Within i q → limit_checks num i q ≡ none
  unfolding limit_checks ◌otherwise◌
  Within-limit_checks i q w = rw (
    exposure_check-Within i w.exposure,
    (open_orders_check-none i).1 w.orders,
    (positions_check-none i).1 w.positions,
    (leverage_check-none i).1 w.leverage,
    (order_size_check-none i q).1 w.size,
    (position_size_check-none i q).1 w.position,
  )

  -- With the rules enabled, Evaluate allows an order exactly when its size reads as a positive
  -- number and every limit that is set holds of it.
  pub evaluate-allow_iff :
      (i : Input Decimal)
      → i.rules.enable ≡ true
      → ((evaluate num i).kind ≡ allow)
        ↔ ((q : Decimal) × (order_quantity num i ≡ some q) × Within i q)
  evaluate-allow_iff i on = (
    λ k. let (q, e, n) = evaluate-allow num i on k in (q, e, limit_checks-Within i q n),
    λ w.
        ap (λ (v : Verdict). v.kind)
          (evaluate-passes num i on w.0 w.1 (Within-limit_checks i w.0 w.2)),
  )
