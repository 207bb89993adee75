-- ===== src/Equity/Peak.antt =====
-- The session's peak.
use signalix.Prelude.{◌≡◌, true, false, List, [], ◌∷◌, String, arith, Bool-cases, inl, inr, ◌⊎◌}
use signalix.Numbers.{Numbers, OrderLaws, is_positive, is_negative}
use signalix.Equity.{Tracker, on_equity_update, roll_day, raise_peak, updates, drawdown_ratio}

-- One of the updates is at this equity.
pub data Sampled {D : Type 0} (e : D) : List (D × String) → Type 0 where
  here : {date : String} {us : List (D × String)} → Sampled e ((e, date) ∷ us)
  there : {u : D × String} {us : List (D × String)} → Sampled e us → Sampled e (u ∷ us)

module _ (num : Numbers) (laws : OrderLaws num) where
  open num use {Decimal, lt, nil}

  le_self : (a b : Decimal) → lt a b ≡ true → lt b a ≡ false
  le_self a b h = elim (Bool-cases (lt b a)) [
    | inl back ↦ absurd (cc (laws.lt_trans a b a h back, laws.lt_irrefl a))
    | inr kept ↦ kept
  ]

  -- One update leaves the peak at least where it was, and at least at the update.
  peak-update :
      (e : Decimal) (date : String) (t : Tracker Decimal)
      → (lt (on_equity_update num e date t).session_peak t.session_peak ≡ false)
        × (lt (on_equity_update num e date t).session_peak e ≡ false)
  unfolding on_equity_update roll_day raise_peak
  peak-update e date t = (
    ground (arith, le_self t.session_peak e, laws.lt_irrefl t.session_peak),
    ground (arith, le_self t.session_peak e, laws.lt_irrefl e),
  )

  peak-updates :
      (us : List (Decimal × String)) (t : Tracker Decimal)
      → lt (updates num us t).session_peak t.session_peak ≡ false
  unfolding updates
  peak-updates [] t = laws.lt_irrefl t.session_peak
  peak-updates ((e, date) ∷ us) t =
      laws.le_trans t.session_peak (on_equity_update num e date t).session_peak _
        (peak-update e date t).0 (peak-updates us (on_equity_update num e date t))

  -- With the documented laws of the decimal order, after any updates the session's peak is at least
  -- the equity of each of them.
  pub updates-peak :
      (e : Decimal) (us : List (Decimal × String)) (t : Tracker Decimal)
      → Sampled e us
      → lt (updates num us t).session_peak e ≡ false
  unfolding updates
  updates-peak e _ t (here {date} {us}) =
      laws.le_trans e (on_equity_update num e date t).session_peak _ (peak-update e date t).1
        (peak-updates us (on_equity_update num e date t))
  updates-peak e _ t (there {u} {us} s) = updates-peak e us (on_equity_update num u.0 u.1 t) s

  -- With the documented laws of the decimal order, the drawdown is never negative, and it is zero
  -- while the session's peak is not above zero.
  pub drawdown_ratio-bounds :
      (t : Tracker Decimal)
      → (is_negative num (drawdown_ratio num t) ≡ false)
        × ((is_positive num t.session_peak ≡ true) ⊎ (drawdown_ratio num t ≡ nil))
  unfolding drawdown_ratio
  drawdown_ratio-bounds t = (ground (arith, laws.lt_irrefl nil), ground arith)
