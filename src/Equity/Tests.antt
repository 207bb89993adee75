-- ===== src/Equity/Tests.antt =====
-- The tracker on concrete equities.
use signalix.Prelude.{◌≡◌, refl, true, false, List, [], ◌∷◌, String, eq_iff, ◌⊎◌}
use signalix.Prelude.Int.{ℤ, pos, negsuc}
use signalix.Numbers.{is_positive, is_negative}
use signalix.Numbers.Whole.{whole, whole-OrderLaws}
use signalix.Equity.{Tracker, updates, daily_loss, drawdown_ratio}
use signalix.Equity.Peak.{here, there, updates-peak, drawdown_ratio-bounds}
use signalix.Equity.Daily.{daily_loss-updates}

-- Yesterday ended at 90, after a peak of 120.
abbrev yesterday : Tracker ℤ
yesterday = record {
  day_start_equity = pos 100;
  day_start_date = "2026-01-01";
  session_peak = pos 120;
  last_equity = pos 90;
}

abbrev today : List (ℤ × String)
today = (pos 130, "2026-01-02") ∷ (pos 110, "2026-01-02") ∷ []

updates-peak_example : whole.lt (updates whole today yesterday).session_peak (pos 110) ≡ false
updates-peak_example = updates-peak whole whole-OrderLaws (pos 110) today yesterday (there here)

drawdown_ratio-bounds_example :
    (is_negative whole (drawdown_ratio whole yesterday) ≡ false)
    × ((is_positive whole yesterday.session_peak ≡ true) ⊎ (drawdown_ratio whole yesterday ≡ pos 0))
drawdown_ratio-bounds_example = drawdown_ratio-bounds whole whole-OrderLaws yesterday

-- The day started at 130, whatever yesterday left, and 20 are lost.
daily_loss-updates_example : daily_loss whole (updates whole today yesterday) ≡ pos 20
daily_loss-updates_example =
    daily_loss-updates whole (pos 130) "2026-01-02" ((pos 110, "2026-01-02") ∷ []) yesterday
      (λ p. cc ((eq_iff "2026-01-01" "2026-01-02").1 p)) (refl, tt)

-- With a negative equity the ratio is above 1.
above_one : drawdown_ratio whole (record yesterday { last_equity = negsuc 119 }) ≡ pos 2
unfolding drawdown_ratio
above_one = refl
