-- ===== src/Engine/Crashes/Aliasing.antt =====
-- What the overwritten array does to the next count.
use signalix.Prelude.{
  ℕ, suc, ◌+◌, ◌≤◌, ◌<◌, ◌≡◌, ap, ◌∙◌, Bool, true, false, List, [], ◌∷◌, ◌++◌, length, arith,
}
use signalix.Prelude.Int.{pos, leb_ℤ}
use signalix.Engine.Crashes.{
  RestartSettings, recent, prune_crash_times, overwritten, count_in_window, circuit_open,
}

-- Every one of the times is before the window.
abbrev pub TooOld : ℕ → ℕ → List ℕ → Type 0
TooOld w now [] = Unit
TooOld w now (t ∷ ts) = (t + w < now) × TooOld w now ts

recent-old :
    (w now new : ℕ) (ts : List ℕ)
    → TooOld w now ts
    → now ≤ new + w
    → recent w now (ts ++ new ∷ []) ≡ new ∷ []
unfolding recent
recent-old w now new [] h k = ground (arith, k)
recent-old w now new (t ∷ ts) h k = ground (arith, h.0, recent-old w now new ts h.1 k)

-- What is kept is one crash, so the array has lost the first time and shows the new one twice.
counted_twice :
    (w now new old : ℕ) (ts : List ℕ)
    → TooOld w now (old ∷ ts)
    → now ≤ new + w
    → recent w now (overwritten (recent w now (old ∷ ts ++ new ∷ [])) (old ∷ ts ++ new ∷ []))
      ≡ new ∷ new ∷ []
unfolding overwritten recent
counted_twice w now new old ts h k =
    ap (λ kept. recent w now (overwritten kept (old ∷ ts ++ new ∷ [])))
      (recent-old w now new (old ∷ ts) h k)
    ∙ ground (arith, recent-old w now new ts h.1 k, k)

-- At most two crashes in a window above zero
abbrev pub two_allowed : Bool → ℕ → RestartSettings
two_allowed enabled w = record {
  enabled = enabled;
  max_crashes = pos 2;
  crash_window = pos (suc w);
}

-- With two crashes allowed in a window above zero, and tracked times of which only the last lies in
-- the window while at least one is older, circuitOpen answers no, and asked again at the same time,
-- with no crash in between, it answers yes.
pub circuit_open_twice :
    (enabled : Bool) (w now new old : ℕ) (ts : List ℕ)
    → TooOld (suc w) now (old ∷ ts)
    → now ≤ new + suc w
    → let first = circuit_open (two_allowed enabled w) (old ∷ ts ++ new ∷ []) now in
      (first.1 ≡ false) × ((circuit_open (two_allowed enabled w) first.0 now).1 ≡ true)
unfolding circuit_open count_in_window prune_crash_times
circuit_open_twice enabled w now new old ts h k = (
  ap (λ l. leb_ℤ (pos 2) (pos (length l))) (recent-old (suc w) now new (old ∷ ts) h k),
  ap (λ l. leb_ℤ (pos 2) (pos (length l))) (counted_twice (suc w) now new old ts h k),
)
