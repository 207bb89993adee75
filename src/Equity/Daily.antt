-- ===== src/Equity/Daily.antt =====
-- The loss of a day.
use signalix.Prelude.{
  ◌≡◌, ◌≢◌, refl, List, [], ◌∷◌, String, arith, eq_iff, if◌then◌else◌, not, ap, ◌∙◌, sym,
}
use signalix.Numbers.{Numbers, is_positive}
use signalix.Equity.{Tracker, on_equity_update, roll_day, raise_peak, updates, daily_loss}

-- The equity after the updates, where it was `e` before them.
abbrev pub last_of {ℓ} : {D : Type ℓ} → D → List (D × String) → D
last_of e [] = e
last_of e ((d, date) ∷ us) = last_of d us

-- Every update is of the day.
abbrev pub AllOn {ℓ} : {D : Type ℓ} → String → List (D × String) → Type 0
AllOn date [] = Unit
AllOn date ((d, x) ∷ us) = (x ≡ date) × AllOn date us

module _ (num : Numbers) where
  open num use {Decimal, nil, sub}

  -- What the day loses between two equities: nothing unless the first is above zero and the second
  -- below it.
  abbrev pub loss_between : Decimal → Decimal → Decimal
  loss_between first last =
      if not (is_positive num first)
      then nil
      else if not (is_positive num (sub first last))
      then nil
      else sub first last

  same_day :
      (e : Decimal) (x : String) (t : Tracker Decimal)
      → t.day_start_date ≡ x
      → ((on_equity_update num e x t).day_start_date ≡ t.day_start_date)
        × ((on_equity_update num e x t).day_start_equity ≡ t.day_start_equity)
        × ((on_equity_update num e x t).last_equity ≡ e)
  unfolding on_equity_update roll_day raise_peak
  same_day e x t d = (
    ground (arith, (eq_iff t.day_start_date x).1 d),
    ground (arith, (eq_iff t.day_start_date x).1 d),
    ground (arith, (eq_iff t.day_start_date x).1 d),
  )

  -- Within one day the start of the day stays.
  day-updates :
      (date : String) (us : List (Decimal × String)) (t : Tracker Decimal)
      → t.day_start_date ≡ date
      → AllOn date us
      → ((updates num us t).day_start_equity ≡ t.day_start_equity)
        × ((updates num us t).last_equity ≡ last_of t.last_equity us)
  unfolding updates
  day-updates date [] t d on = (refl, refl)
  day-updates date ((e, x) ∷ us) t d on =
      let u = on_equity_update num e x t in
      let same = same_day e x t (d ∙ sym on.0) in
      let rest = day-updates date us u (same.0 ∙ d) on.1 in
      (rest.0 ∙ same.1, rest.1 ∙ ap (λ l. last_of l us) same.2)

  new_day :
      (e : Decimal) (date : String) (t : Tracker Decimal)
      → t.day_start_date ≢ date
      → ((on_equity_update num e date t).day_start_date ≡ date)
        × ((on_equity_update num e date t).day_start_equity ≡ e)
        × ((on_equity_update num e date t).last_equity ≡ e)
  unfolding on_equity_update roll_day raise_peak
  new_day e date t ne = (
    ground (arith, eq_iff t.day_start_date date),
    ground (arith, eq_iff t.day_start_date date),
    ground (arith, eq_iff t.day_start_date date),
  )

  -- The first update of a new day sets its start: as long as every further update is of that day,
  -- the daily loss is the loss between the equity of that first update and the last one, whatever
  -- was recorded before.
  pub daily_loss-updates :
      (e : Decimal) (date : String) (us : List (Decimal × String)) (t : Tracker Decimal)
      → t.day_start_date ≢ date
      → AllOn date us
      → daily_loss num (updates num ((e, date) ∷ us) t) ≡ loss_between e (last_of e us)
  unfolding daily_loss updates
  daily_loss-updates e date us t ne on =
      let u = on_equity_update num e date t in
      let n = new_day e date t ne in
      let d = day-updates date us u n.0 on in
      let a : (updates num us u).day_start_equity ≡ e = d.0 ∙ n.1 in
      let b : (updates num us u).last_equity ≡ last_of e us = d.1 ∙ ap (λ l. last_of l us) n.2 in
      simp (a, b)
