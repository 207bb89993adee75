-- ===== src/Projection.antt =====
-- internal/app/projection/account_projection.go: the account's balance and positions in memory, from
-- the exchange's full answers and the user's events. strconv.ParseFloat and strings.EqualFold are
-- given from outside, and so are the clock and the exchange's answers.
pub mod Positions
pub mod Ready
mod Tests
use signalix.Prelude.{
  ℕ, suc, zero, ◌==◌, Bool, true, false, not, ◌||◌, Option, none, some, List, [], ◌∷◌, String,
  Result, ok, err, str_eq, length, if◌then◌else◌,
}
use signalix.Prelude.Dict.{Dict, lookup, insert, erase}
use signalix.Prelude.Text.{trim_space}
use signalix.Numbers.{Numbers}
use signalix.Models.{OrderStatus, PositionSnapshot, BalanceView}

-- perp.BalanceUpdateSnapshot, the fields that are read
pub record BalanceUpdate : Type 0 where
  pub currency : String
  pub balance : String
  pub updated_at : ℕ

-- perp.OrderSnapshot, the fields that are read
pub record OrderSnapshot : Type 0 where
  pub exchange_order_id : String
  pub filled_size : String
  pub status : OrderStatus
  pub client_id : String
  pub updated_at : ℕ

-- perp.UserEvent with its payload; a payload of another kind is `other_event`
pub data UserEvent : Type 0 where
  order_update : Option OrderSnapshot → UserEvent
  position_update : Option PositionSnapshot → UserEvent
  balance_update : Option BalanceUpdate → UserEvent
  other_event : UserEvent

-- What the projection calls: whether a text parses as a float64, and then whether it is zero; the
-- comparison without regard to case; the time; whether an equity hook is set.
pub record Outside : Type 0 where
  pub float_is_zero : String → Option Bool
  pub equal_fold : String → String → Bool
  pub now : ℕ
  pub has_equity_hook : Bool

-- The fields of AccountProjection, and the equities that the hook was called with, newest first.
pub record Projection (D : Type 0) : Type 0 where
  pub balance : Option BalanceView
  pub positions : Dict PositionSnapshot
  pub revision : ℕ
  pub ready : Bool
  pub equities : List D

-- ErrProjectionNotReady, and an error of the decimal parser
pub data ReadError : Type 0 where
  not_ready bad_total : ReadError

module _ (num : Numbers) (out : Outside) where
  open num use {Decimal, parse}

  -- positionSizeIsZero
  unfoldable pub position_size_is_zero : String → Bool
  position_size_is_zero size = elim (out.float_is_zero (trim_space size)) [
    | none ↦ str_eq (trim_space size) "" || str_eq (trim_space size) "0"
    | some is_zero ↦ is_zero
  ]

  unfoldable pub notify_parsed : Option Decimal → Projection Decimal → Projection Decimal
  notify_parsed none p = p
  notify_parsed (some d) p = record p { equities = d ∷ p.equities }

  -- notifyEquityLocked
  unfoldable pub notify_equity : Projection Decimal → Projection Decimal
  unfolding notify_parsed
  notify_equity p = elim p.balance [
    | none ↦ p
    | some b ↦ if out.has_equity_hook then notify_parsed (parse (trim_space b.total)) p else p
  ]

  -- applyPositionUpdate
  unfoldable pub apply_position_update :
      Option PositionSnapshot → Projection Decimal → Projection Decimal
  unfolding position_size_is_zero
  apply_position_update none p = p
  apply_position_update (some v) p =
      if str_eq v.contract ""
      then p
      else if position_size_is_zero v.size
      then record p { positions = erase v.contract p.positions; revision = suc p.revision }
      else record p { positions = insert v.contract v p.positions; revision = suc p.revision }

  -- The balance after an update of its currency.
  abbrev pub with_total : BalanceUpdate → BalanceView → BalanceView
  with_total u b = record b {
    total = trim_space u.balance;
    updated_at = if u.updated_at == 0 then out.now else u.updated_at;
  }

  unfoldable pub update_balance :
      BalanceUpdate → Option BalanceView → Projection Decimal → Projection Decimal
  unfolding notify_equity
  update_balance u none p = p
  update_balance u (some b) p =
      if not (out.equal_fold (trim_space u.currency) (trim_space b.currency))
      then p
      else if str_eq (trim_space u.balance) ""
      then p
      else notify_equity (record p { balance = some (with_total u b); revision = suc p.revision })

  -- applyBalanceUpdate
  unfoldable pub apply_balance_update :
      Option BalanceUpdate → Projection Decimal → Projection Decimal
  unfolding update_balance
  apply_balance_update none p = p
  apply_balance_update (some u) p = update_balance u p.balance p

  unfoldable pub apply_event : UserEvent → Projection Decimal → Projection Decimal
  unfolding apply_position_update apply_balance_update
  apply_event (position_update v) p = apply_position_update v p
  apply_event (balance_update u) p = apply_balance_update u p
  apply_event (order_update o) p = p
  apply_event other_event p = p

  -- OnUserEvent; nothing is merged before the first refresh
  unfoldable pub on_user_event : Option UserEvent → Projection Decimal → Projection Decimal
  unfolding apply_event
  on_user_event none p = p
  on_user_event (some ev) p = if not p.ready then p else apply_event ev p

  -- The map that refresh builds; nil entries are skipped.
  unfoldable pub collect :
      List (Option PositionSnapshot) → Dict PositionSnapshot → Dict PositionSnapshot
  collect [] m = m
  collect (none ∷ vs) m = collect vs m
  collect (some v ∷ vs) m = collect vs (insert v.contract v m)

  unfoldable pub refresh_with :
      BalanceView
      → Result String (List (Option PositionSnapshot))
      → Projection Decimal
      → Projection Decimal × Option String
  unfolding collect notify_equity
  refresh_with bal (err e) p = (p, some e)
  refresh_with bal (ok list) p = (
    notify_equity (record p {
      balance = some bal;
      positions = collect list [];
      revision = suc p.revision;
      ready = true;
    }),
    none,
  )

  -- refresh, with the answers of Balance and Positions and the error that it returns; the refresh
  -- hook, which is told of the new state, is left out
  unfoldable pub refresh :
      Result String BalanceView
      → Result String (List (Option PositionSnapshot))
      → Projection Decimal
      → Projection Decimal × Option String
  unfolding refresh_with
  refresh (err e) list p = (p, some e)
  refresh (ok bal) list p = refresh_with bal list p

  -- Snapshot
  unfoldable pub snapshot :
      String → Projection Decimal → Result ReadError (BalanceView × Option PositionSnapshot × ℕ)
  snapshot contract p = elim p.balance [
    | none ↦ err not_ready
    | some b ↦
        if not p.ready then err not_ready else ok (b, lookup contract p.positions, p.revision)
  ]

  -- PositionForContract
  unfoldable pub position_for_contract :
      String → Projection Decimal → Result ReadError (Option PositionSnapshot)
  position_for_contract contract p =
      if not p.ready then err not_ready else ok (lookup contract p.positions)

  -- OpenPositionCount
  unfoldable pub open_position_count : Projection Decimal → Result ReadError ℕ
  open_position_count p = if not p.ready then err not_ready else ok (length p.positions)

  unfoldable pub equity_of : Option Decimal → Result ReadError Decimal
  equity_of none = err bad_total
  equity_of (some d) = ok d

  -- AccountEquity
  unfoldable pub account_equity : Projection Decimal → Result ReadError Decimal
  unfolding equity_of
  account_equity p = elim p.balance [
    | none ↦ err not_ready
    | some b ↦ if not p.ready then err not_ready else equity_of (parse (trim_space b.total))
  ]
