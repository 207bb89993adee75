-- ===== src/Decision/Notional.antt =====
-- sizing_mode.go, sizing.go and notional.go: from the signal to a notional in USDT, and from there to
-- contracts.
pub mod Bounds
use signalix.Prelude.{
  not, ◌&&◌, ◌||◌, Option, none, some, String, Result, ok, err, str_eq, if◌then◌else◌,
}
use signalix.Prelude.Int.{ℤ, pos, leb_ℤ}
use signalix.Prelude.Text.{trim_space}
use signalix.Numbers.{Numbers, gt, is_positive, is_negative, is_zero, parse_or_nil}
use signalix.Risk.Exposure.{contract_notional_usdt}
use signalix.Models.{SizingMode, percent, fixed, custom, Signal, ContractMeta, TickerSnapshot}
use signalix.Decision.{
  SizeError, value_required, percent_out_of_range, fixed_exceeds_balance, custom_by_caller,
  unknown_mode, no_meta_lookup, no_ticker_lookup, no_ticker, invalid_multiplier, meta_failed,
  bad_ticker_price, no_positive_price, invalid_denominator, zero_contracts, Decider,
}

module _ (num : Numbers) where
  open num use {Decimal, Float, parse, nil, from_int, lt, mul, div, floor}

  unfoldable pub percent_of : Decimal → Decimal → Result SizeError Decimal
  percent_of available p =
      if is_negative num p || gt num p (from_int (pos 1))
      then err percent_out_of_range
      else ok (mul available p)

  unfoldable pub fixed_within : Decimal → Decimal → Result SizeError Decimal
  fixed_within available size = if gt num size available then err fixed_exceeds_balance else ok size

  -- The switch on the mode, with the signal's value.
  unfoldable pub notional_by_mode :
      Option SizingMode → Option String → Decimal → ℤ → Result SizeError Decimal
  unfolding percent_of fixed_within
  notional_by_mode none v available divisor =
      ok (div available (from_int (if leb_ℤ divisor (pos 0) then pos 10 else divisor)))
  notional_by_mode (some percent) none available divisor = err value_required
  notional_by_mode (some percent) (some v) available divisor =
      percent_of available (parse_or_nil num v)
  notional_by_mode (some fixed) none available divisor = err value_required
  notional_by_mode (some fixed) (some v) available divisor =
      fixed_within available (parse_or_nil num v)
  notional_by_mode (some custom) v available divisor = err custom_by_caller
  notional_by_mode (some (SizingMode.other m)) v available divisor = err unknown_mode

  -- ComputeUSDTNotionalFromSignal on a signal that is not nil
  unfoldable pub compute_usdt_notional_from_signal :
      Signal Float → Decimal → ℤ → Result SizeError Decimal
  unfolding notional_by_mode
  compute_usdt_notional_from_signal s available divisor =
      notional_by_mode s.sizing_mode s.value available divisor

  -- One round of the loop over the two prices of a ticker: `next` is the rest of the loop.
  unfoldable pub price_or : String → Result SizeError Decimal → Result SizeError Decimal
  price_or s next = if str_eq s "" then next else elim (parse s) [
    | none ↦ err bad_ticker_price
    | some p ↦ if is_positive num p then ok p else next
  ]

  -- tickerMarkPrice on a ticker that is not nil
  unfoldable pub ticker_mark_price : TickerSnapshot → Result SizeError Decimal
  unfolding price_or
  ticker_mark_price t =
      price_or (trim_space t.mark_price) (price_or (trim_space t.last) (err no_positive_price))

  -- The quanto multiplier, parsed and tested.
  unfoldable pub multiplier : ContractMeta → Option Decimal
  multiplier meta = elim (parse (trim_space meta.quanto_multiplier)) [
    | none ↦ none
    | some m ↦ if is_positive num m then some m else none
  ]

  -- `minSz`
  abbrev pub min_size : ContractMeta → Decimal
  min_size meta =
      let s = trim_space meta.order_size_min in if str_eq s "" then nil else parse_or_nil num s

  unfoldable pub raise_to_min : ContractMeta → Decimal → Decimal → Decimal
  raise_to_min meta notional raw =
      if is_positive num (min_size meta) && lt raw (min_size meta) && is_positive num notional
      then min_size meta
      else raw

  -- `maxSz`, where there is a limit
  unfoldable pub max_size : ContractMeta → Option Decimal
  max_size meta =
      let s = trim_space meta.order_size_max in
      if str_eq s ""
      then none
      else elim (parse s) [ none ↦ none | some m ↦ if is_positive num m then some m else none ]

  abbrev pub cap : Option Decimal → Decimal → Decimal
  cap none raw = raw
  cap (some m) raw = if gt num raw m then m else raw

  -- `raw` at the end: the quotient, whole if it must be, within the contract's limits.
  abbrev pub final_size : ContractMeta → Decimal → Decimal → Decimal
  final_size meta notional denom =
      let quotient = div notional denom in
      let raw = if not meta.enable_decimal_size then floor quotient else quotient in
      cap (max_size meta) (raise_to_min meta notional raw)

  -- From `denom` on.
  unfoldable pub contracts_at : ContractMeta → Decimal → Decimal → Result SizeError Decimal
  contracts_at meta notional denom =
      if not (is_positive num denom)
      then err invalid_denominator
      else if not (is_positive num (final_size meta notional denom))
      then err zero_contracts
      else ok (final_size meta notional denom)

  unfoldable pub contracts_with_price :
      ContractMeta → Decimal → Decimal → Result SizeError Decimal → Result SizeError Decimal
  unfolding contracts_at
  contracts_with_price meta notional m (err e) = err e
  contracts_with_price meta notional m (ok price) = contracts_at meta notional (mul price m)

  unfoldable pub price_of_ticker : Option TickerSnapshot → Result SizeError Decimal
  unfolding ticker_mark_price
  price_of_ticker none = err no_ticker
  price_of_ticker (some t) = ticker_mark_price t

  unfoldable pub cached_price : Decider → String → Result SizeError Decimal
  unfolding price_of_ticker
  cached_price de contract = elim de.ticker_lookup [
    | none ↦ err no_ticker_lookup
    | some lookup ↦ price_of_ticker (lookup contract)
  ]

  unfoldable pub contracts_for_meta :
      Decider → String → Decimal → ContractMeta → Option Decimal → Result SizeError Decimal
  unfolding contracts_with_price cached_price
  contracts_for_meta de contract notional meta none = err invalid_multiplier
  contracts_for_meta de contract notional meta (some m) =
      contracts_with_price meta notional m (cached_price de contract)

  unfoldable pub find_meta : Decider → String → Result SizeError ContractMeta
  find_meta de contract = elim de.meta_lookup [
    | none ↦ err no_meta_lookup
    | some lookup ↦ elim (lookup contract) [ err e ↦ err (meta_failed e) | ok meta ↦ ok meta ]
  ]

  unfoldable pub contracts_found :
      Decider → String → Decimal → Result SizeError ContractMeta → Result SizeError Decimal
  unfolding contracts_for_meta multiplier
  contracts_found de contract notional (err e) = err e
  contracts_found de contract notional (ok meta) =
      contracts_for_meta de contract notional meta (multiplier meta)

  -- notionalUSDTToContracts, which ContractsForNotional calls
  unfoldable pub notional_usdt_to_contracts : Decider → String → Decimal → Result SizeError Decimal
  unfolding contracts_found find_meta
  notional_usdt_to_contracts de contract notional =
      if is_zero num notional
      then ok nil
      else contracts_found de contract notional (find_meta de contract)

  -- A text that reads as a positive price.
  unfoldable pub positive_price : String → Option Decimal
  positive_price s = elim (parse s) [
    | none ↦ none
    | some p ↦ if is_positive num p then some p else none
  ]

  unfoldable pub price_or_cached : Decider → String → Option Decimal → Result SizeError Decimal
  unfolding cached_price
  price_or_cached de contract none = cached_price de contract
  price_or_cached de contract (some p) = ok p

  -- resolveMarkPrice: the position's own mark price where it reads as a positive number, and the
  -- cached ticker's otherwise
  unfoldable pub resolve_mark_price : Decider → String → String → Result SizeError Decimal
  unfolding price_or_cached positive_price
  resolve_mark_price de contract position_mark =
      let s = trim_space position_mark in
      price_or_cached de contract (if str_eq s "" then none else positive_price s)

  unfoldable pub notional_at :
      Decimal → Decimal → Result SizeError Decimal → Result SizeError Decimal
  notional_at size m (err e) = err e
  notional_at size m (ok price) = ok (contract_notional_usdt num size price m)

  unfoldable pub notional_for_meta :
      Decider → String → Decimal → String → Option Decimal → Result SizeError Decimal
  unfolding notional_at
  notional_for_meta de contract size position_mark none = err invalid_multiplier
  notional_for_meta de contract size position_mark (some m) =
      notional_at size m (resolve_mark_price de contract position_mark)

  unfoldable pub notional_found :
      Decider → String → Decimal → String → Result SizeError ContractMeta → Result SizeError Decimal
  unfolding notional_for_meta
  notional_found de contract size position_mark (err e) = err e
  notional_found de contract size position_mark (ok meta) =
      notional_for_meta de contract size position_mark (multiplier meta)

  -- NotionalForContracts
  unfoldable pub notional_for_contracts :
      Decider → String → Decimal → String → Result SizeError Decimal
  unfolding notional_found
  notional_for_contracts de contract size position_mark =
      if is_zero num size
      then ok nil
      else notional_found de contract size position_mark (find_meta de contract)
