-- ===== src/Decision/Process/Orders.antt =====
-- What processSignal comes to.
use signalix.Prelude.{
  ℕ, ◌+◌, ◌≡◌, refl, ap, sym, ◌∙◌, Bool, false, Option, none, some, String, Result, ok, err, inl,
  inr, arith, if◌then◌else◌, Bool-cases, Option-cases,
}
use std.Path.{subst}
use signalix.Numbers.{OrderLaws, Numbers, is_zero, parse_or_nil}
use signalix.Models.{
  OrderSide, buy, sell, pending, Order, Direction, Signal, PositionSnapshot, BalanceView,
}
use signalix.Models.Validate.{SignalError, validate}
use signalix.Decision.{SizeError, DecideError, DecisionStats, Decider}
use signalix.Decision.Process.Closing.{
  IsAgainst, IsFree, holds-IsFree, IsSizeText, closing_side-IsAgainst, format_size-IsSizeText,
}
use signalix.Decision.Process.{
  holds, closing_side, calculate_order_size, opening_size, size_towards, determine_order_side,
  format_size_for_order, new_order, with_side, with_size, with_account, with_valid, process_signal,
  count_processed,
}

-- The counts go with the result: one signal more is processed, and one more is rejected if there is
-- an error, or one more order is generated if there is an order.
abbrev pub Counted : DecisionStats → DecisionStats × Result DecideError (Option Order) → Type 0
Counted st (t, r) =
    (t.signals_processed ≡ st.signals_processed + 1)
    × (t.signals_rejected ≡ st.signals_rejected + rejections r)
    × (t.orders_generated ≡ st.orders_generated + orders r)
  where
    rejections : Result DecideError (Option Order) → ℕ
    rejections (err e) = 1
    rejections (ok o) = 0

    orders : Result DecideError (Option Order) → ℕ
    orders (ok (some o)) = 1
    orders _ = 0

module _ (num : Numbers) (de : Decider) where
  open num use {Decimal, Float, to_string}

  with_side-Counted :
      (name : String) (s : Signal Float) (st : DecisionStats) (size : Decimal)
      (r : Result DecideError (Option OrderSide))
      → Counted st (with_side num de name s (count_processed st) size r)
  unfolding with_side
  with_side-Counted name s st size (err e) = (omega arith, omega arith, omega arith)
  with_side-Counted name s st size (ok none) = (omega arith, omega arith, omega arith)
  with_side-Counted name s st size (ok (some side)) = (omega arith, omega arith, omega arith)

  with_size-Counted :
      (name : String) (s : Signal Float) (st : DecisionStats) (position : Option PositionSnapshot)
      (r : Result SizeError Decimal)
      → Counted st (with_size num de name s (count_processed st) position r)
  unfolding with_size
  with_size-Counted name s st position (err e) = (omega arith, omega arith, omega arith)
  with_size-Counted name s st position (ok size) = elim (Bool-cases (is_zero num size)) [
    | inl nothing ↦ rw (nothing, with_size) (omega arith, omega arith, omega arith)
    | inr some_size ↦ rw (some_size, with_size) (with_side-Counted name s st size _)
  ]

  with_account-Counted :
      (name : String) (s : Signal Float) (st : DecisionStats)
      (r : Result String (BalanceView × Option PositionSnapshot))
      → Counted st (with_account num de name s (count_processed st) r)
  unfolding with_account
  with_account-Counted name s st (err e) = (omega arith, omega arith, omega arith)
  with_account-Counted name s st (ok (balance, position)) = with_size-Counted name s st position _

  with_valid-Counted :
      (name : String) (s : Signal Float) (st : DecisionStats) (e : Option SignalError)
      → Counted st (with_valid num de name s (count_processed st) e)
  unfolding with_valid
  with_valid-Counted name s st (some e) = (omega arith, omega arith, omega arith)
  with_valid-Counted name s st none = elim (Option-cases de.snapshot) [
    | inl no_account ↦ rw (no_account, with_valid) (omega arith, omega arith, omega arith)
    | inr (snapshot, given) ↦
        rw (given, with_valid) (with_account-Counted name s st (snapshot s.symbol))
  ]

  -- A signal adds one to the processed signals, one to the rejected ones if and only if an error is
  -- returned, and one to the generated orders if and only if an order is returned.
  pub process_signal-Counted :
      (name : String) (s : Signal Float) (st : DecisionStats)
      → Counted st (process_signal num de name s st)
  unfolding process_signal
  process_signal-Counted name s st = with_valid-Counted name s st (validate num s)

-- An order that answers to a direction, with the position before it: a long signal buys and a short
-- one sells, and neither while a position of its own side is open; a closing one trades the whole
-- position against its side.
abbrev pub Fits : (num : Numbers) → Decider → Direction → Option PositionSnapshot → Order → Type 0
Fits num de Direction.long p o = (o.side ≡ buy) × IsFree num Direction.long p
Fits num de Direction.short p o = (o.side ≡ sell) × IsFree num Direction.short p
Fits num de Direction.flat none o = ⊥
Fits num de Direction.flat (some p) o =
    IsAgainst p.side o.side
    × (is_zero num (parse_or_nil num p.size) ≡ false)
    × IsSizeText num de o.symbol (parse_or_nil num p.size) o.size
Fits num de (Direction.other d) p o = ⊥

abbrev given_order : Order → Result DecideError (Option Order)
given_order o = ok (some o)

-- What is true of an order that a signal gave.
pub record Decided (num : Numbers) (de : Decider) (name : String) (s : Signal num.Float) (o : Order)
    : Type 0 where
  pub signal_valid : validate num s ≡ none
  pub balance : BalanceView
  pub position : Option PositionSnapshot
  pub snapshot : String → Result String (BalanceView × Option PositionSnapshot)
  pub given : de.snapshot ≡ some snapshot
  pub account : snapshot s.symbol ≡ ok (balance, position)
  pub same_symbol : o.symbol ≡ s.symbol
  pub same_strategy : o.strategy_name ≡ name
  pub is_pending : o.status ≡ pending
  pub fits : Fits num de s.direction position o

module _ (num : Numbers) (laws : OrderLaws num) (de : Decider) where
  open num use {Decimal, Float, lt, nil}

  -- While a position of the signal's own side is open, the size is zero.
  not_held :
      (held : Bool) (rest : Result SizeError Decimal) (size : Decimal)
      → (if held then ok nil else rest) ≡ ok size
      → is_zero num size ≡ false
      → held ≡ false
  not_held held rest size h z = ground (arith, h, z, laws.lt_irrefl nil)

  made :
      (name : String) (s : Signal Float) (size : Decimal) (side : OrderSide) (o : Order)
      → given_order (new_order num de name s size side) ≡ given_order o
      → (o ≡ new_order num de name s size o.side) × (o.side ≡ side)
  unfolding new_order
  made name s size side o e =
      let q : new_order num de name s size side ≡ o = cc e in
      let r : side ≡ o.side = ap (λ x. x.side) q in
      (sym q ∙ ap (λ x. new_order num de name s size x) r, sym r)

  size-IsSizeText :
      (name : String) (s : Signal Float) (size q : Decimal) (side : OrderSide)
      → q ≡ size
      → IsSizeText num de
          (new_order num de name s size side).symbol
          q
          (new_order num de name s size side).size
  unfolding new_order
  size-IsSizeText name s size q side e =
      subst (λ x. IsSizeText num de s.symbol q (format_size_for_order num de s.symbol x)) e
        (format_size-IsSizeText num de s.symbol q)

  side-Fits :
      (name : String) (s : Signal Float) (b : BalanceView) (st : DecisionStats) (d : Direction)
      (p : Option PositionSnapshot) (size : Decimal) (o : Order)
      → size_towards num de d s b p ≡ ok size
      → is_zero num size ≡ false
      → (with_side num de name s st size (determine_order_side num de d p)).1 ≡ ok (some o)
      → (o ≡ new_order num de name s size o.side) × Fits num de d p o
  unfolding with_side determine_order_side size_towards
  side-Fits name s b st Direction.long p size o h z e =
      let (same, side) = made name s size buy o e in
      (
        same,
        (
          side,
          holds-IsFree num de Direction.long p
              (not_held (holds num de Direction.long p) (opening_size num de s b) size h z),
        ),
      )
  side-Fits name s b st Direction.short p size o h z e =
      let (same, side) = made name s size sell o e in
      (
        same,
        (
          side,
          holds-IsFree num de Direction.short p
              (not_held (holds num de Direction.short p) (opening_size num de s b) size h z),
        ),
      )
  side-Fits name s b st Direction.flat none size o h z e = absurd (cc e)
  side-Fits name s b st Direction.flat (some p) size o h z e =
      let whole_size : parse_or_nil num p.size ≡ size = cc h in
      let open_ : is_zero num (parse_or_nil num p.size) ≡ false = ap (is_zero num) whole_size ∙ z in
      let (same, side) = made name s size (closing_side num de p.side) o (rw open_ at e) in
      (
        same,
        (
          subst (IsAgainst p.side) (sym side) (closing_side-IsAgainst num de p.side),
          open_,
          subst (λ x. IsSizeText num de x.symbol (parse_or_nil num p.size) x.size) (sym same)
              (size-IsSizeText name s size (parse_or_nil num p.size) o.side whole_size),
        ),
      )
  side-Fits name s b st (Direction.other d) p size o h z e = absurd (cc e)

  with_size-Fits :
      (name : String) (s : Signal Float) (b : BalanceView) (st : DecisionStats)
      (p : Option PositionSnapshot) (r : Result SizeError Decimal) (o : Order)
      → size_towards num de s.direction s b p ≡ r
      → (with_size num de name s st p r).1 ≡ given_order o
      → (size : Decimal) × (o ≡ new_order num de name s size o.side) × Fits num de s.direction p o
  unfolding with_size
  with_size-Fits name s b st p (err e) o h g = absurd (cc g)
  with_size-Fits name s b st p (ok size) o h g = elim (Bool-cases (is_zero num size)) [
    | inl nothing ↦ let bad = rw (nothing, with_size) at g in absurd (cc bad)
    | inr some_size ↦
        let (same, fits) =
          side-Fits name s b st s.direction p size o h some_size (rw (some_size, with_size) at g) in
        (size, same, fits)
  ]

  new_order-Decided :
      (name : String) (s : Signal Float) (size : Decimal) (o : Order)
      → o ≡ new_order num de name s size o.side
      → (o.symbol ≡ s.symbol) × (o.strategy_name ≡ name) × (o.status ≡ pending)
  unfolding new_order
  new_order-Decided name s size o e =
      (ap (λ x. x.symbol) e, ap (λ x. x.strategy_name) e, ap (λ x. x.status) e)

  with_account-Decided :
      (name : String) (s : Signal Float) (st : DecisionStats) (o : Order)
      (snapshot : String → Result String (BalanceView × Option PositionSnapshot))
      (r : Result String (BalanceView × Option PositionSnapshot))
      → validate num s ≡ none
      → de.snapshot ≡ some snapshot
      → snapshot s.symbol ≡ r
      → (with_account num de name s st r).1 ≡ given_order o
      → Decided num de name s o
  unfolding with_account
  with_account-Decided name s st o snapshot (err e) v g a h = absurd (cc h)
  with_account-Decided name s st o snapshot (ok (balance, position)) v g a h =
      let (size, same, fits) =
        with_size-Fits name s balance st position (calculate_order_size num de s balance position) o
          calculated h in
      let (symbol, strategy, status) = new_order-Decided name s size o same in
      record {
        signal_valid = v;
        balance = balance;
        position = position;
        snapshot = snapshot;
        given = g;
        account = a;
        same_symbol = symbol;
        same_strategy = strategy;
        is_pending = status;
        fits = fits;
      }
    where
      calculated :
          size_towards num de s.direction s balance position
          ≡ calculate_order_size num de s balance position
      calculated = unfold calculate_order_size in refl

  with_valid-Decided :
      (name : String) (s : Signal Float) (st : DecisionStats) (o : Order) (e : Option SignalError)
      → validate num s ≡ e
      → (with_valid num de name s st e).1 ≡ given_order o
      → Decided num de name s o
  unfolding with_valid
  with_valid-Decided name s st o (some e) v h = absurd (cc h)
  with_valid-Decided name s st o none v h = elim (Option-cases de.snapshot) [
    | inl no_account ↦ let bad = rw (no_account, with_valid) at h in absurd (cc bad)
    | inr (snapshot, given) ↦
        with_account-Decided name s st o snapshot (snapshot s.symbol) v given refl
          (rw (given, with_valid) at h)
  ]

  -- With the documented laws of the decimal order, an order that a signal gives is pending, for the
  -- signal's symbol and strategy, and answers to the signal's direction and the account's position:
  -- long buys and short sells, neither while a position of its own side and with a size above zero
  -- is open, and flat sells an open long position and buys back any other, with the whole of its
  -- size, cut to a whole number where the contract is known and takes no decimals; only a valid
  -- signal gives one, and only with a snapshot of the account.
  pub process_signal-Decided :
      (name : String) (s : Signal Float) (st : DecisionStats) (o : Order)
      → (process_signal num de name s st).1 ≡ ok (some o)
      → Decided num de name s o
  unfolding process_signal
  process_signal-Decided name s st o h =
      with_valid-Decided name s (count_processed st) o (validate num s) refl h
