-- ===== src/Equity.antt =====
-- internal/app/risk/equity_tracker.go. The UTC date of an update is its text in the format
-- 2006-01-02, which the caller's clock gives.
pub mod Peak
pub mod Daily
mod Tests
use signalix.Prelude.{not, List, [], ◌∷◌, String, str_eq, if◌then◌else◌}
use signalix.Numbers.{Numbers, gt, is_positive, is_negative}

-- EquityTracker
pub record Tracker (D : Type 0) : Type 0 where
  pub day_start_equity : D
  pub day_start_date : String
  pub session_peak : D
  pub last_equity : D

module _ (num : Numbers) where
  open num use {Decimal, nil, lt, sub, div}

  -- The change of the day in OnEquityUpdate.
  unfoldable pub roll_day : Decimal → String → Tracker Decimal → Tracker Decimal
  roll_day equity date t =
      if str_eq t.day_start_date date
      then t
      else record t { day_start_date = date; day_start_equity = equity }

  unfoldable pub raise_peak : Decimal → Tracker Decimal → Tracker Decimal
  raise_peak equity t =
      if gt num equity t.session_peak then record t { session_peak = equity } else t

  -- OnEquityUpdate
  unfoldable pub on_equity_update : Decimal → String → Tracker Decimal → Tracker Decimal
  unfolding roll_day raise_peak
  on_equity_update equity date t =
      raise_peak equity (record (roll_day equity date t) { last_equity = equity })

  -- Init, which forgets all that was there
  unfoldable pub init : Decimal → String → Tracker Decimal
  unfolding on_equity_update
  init equity date = on_equity_update equity date (record {
    day_start_equity = nil;
    day_start_date = "";
    session_peak = nil;
    last_equity = nil;
  })

  -- Updates, the oldest first, with their dates.
  unfoldable pub updates : List (Decimal × String) → Tracker Decimal → Tracker Decimal
  unfolding on_equity_update
  updates [] t = t
  updates ((equity, date) ∷ us) t = updates us (on_equity_update equity date t)

  -- DailyLoss
  unfoldable pub daily_loss : Tracker Decimal → Decimal
  daily_loss t =
      if not (is_positive num t.day_start_equity)
      then nil
      else let loss = sub t.day_start_equity t.last_equity in
        if not (is_positive num loss) then nil else loss

  -- DrawdownRatio
  unfoldable pub drawdown_ratio : Tracker Decimal → Decimal
  drawdown_ratio t =
      if not (is_positive num t.session_peak)
      then nil
      else let dd = div (sub t.session_peak t.last_equity) t.session_peak in
        if is_negative num dd then nil else dd
