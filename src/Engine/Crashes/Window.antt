-- ===== src/Engine/Crashes/Window.antt =====
-- The tracker forgets crashes that are outside the window, and still counts right.
use signalix.Prelude.{
  ℕ, zero, suc, ◌+◌, ◌≤◌, ◌≡◌, refl, ap, ◌∙◌, ◌⊎◌, inl, inr, Bool, true, false, Bool-cases, List,
  [], ◌∷◌, ◌++◌, length, drop, leb, arith, if◌then◌else◌,
}
use signalix.Prelude.Int.{ℤ, pos, negsuc}
use signalix.Engine.Crashes.{
  RestartSettings, recent, prune_crash_times, overwritten, record_crash, prune_and_count,
  count_in_window, record_strategy_crash, circuit_open,
}

-- How many of the times lie in the window that ends now, its first moment included; a window that is
-- not above zero has no beginning.
unfoldable pub crashes_within : ℤ → ℕ → List ℕ → ℕ
crashes_within window now [] = 0
crashes_within (pos (suc w)) now (t ∷ ts) =
    let rest = crashes_within (pos (suc w)) now ts in if leb now (t + suc w) then suc rest else rest
crashes_within window now (t ∷ ts) = suc (crashes_within window now ts)

-- The tracker after one crash was recorded at each of the times.
unfoldable pub replay : ℤ → List ℕ → List ℕ → List ℕ
unfolding record_strategy_crash
replay window times [] = times
replay window times (t ∷ ts) = replay window (record_strategy_crash times window t).0 ts

-- None of the times is after `now`.
abbrev pub NotAfter : ℕ → List ℕ → Type 0
NotAfter now [] = Unit
NotAfter now (t ∷ ts) = (t ≤ now) × NotAfter now ts

length-recent :
    (w now : ℕ) (ts : List ℕ) → length (recent (suc w) now ts) ≡ crashes_within (pos (suc w)) now ts
unfolding recent crashes_within
length-recent w now [] = refl
length-recent w now (t ∷ ts) = ground (arith, length-recent w now ts)

length-within :
    (window : ℤ) (now : ℕ) (ts : List ℕ)
    → length (prune_crash_times ts window now) ≡ crashes_within window now ts
unfolding prune_crash_times crashes_within
length-within (pos zero) now [] = refl
length-within (pos zero) now (t ∷ ts) = ap suc (length-within (pos zero) now ts)
length-within (pos (suc w)) now ts = length-recent w now ts
length-within (negsuc w) now [] = refl
length-within (negsuc w) now (t ∷ ts) = ap suc (length-within (negsuc w) now ts)

within-append :
    (window : ℤ) (now : ℕ) (ts us : List ℕ)
    → crashes_within window now (ts ++ us)
      ≡ crashes_within window now ts + crashes_within window now us
unfolding crashes_within
within-append window now [] us = omega arith
within-append (pos zero) now (t ∷ ts) us = omega (arith, within-append (pos zero) now ts us)
within-append (pos (suc w)) now (t ∷ ts) us = ground (arith, within-append (pos (suc w)) now ts us)
within-append (negsuc w) now (t ∷ ts) us = omega (arith, within-append (negsuc w) now ts us)

-- What an earlier pruning dropped lies outside the later window too.
within-recent :
    (w before now : ℕ) (ts : List ℕ)
    → before ≤ now
    → crashes_within (pos (suc w)) now (recent (suc w) before ts)
      ≡ crashes_within (pos (suc w)) now ts
unfolding recent crashes_within
within-recent w before now [] h = refl
within-recent w before now (t ∷ ts) h = ground (arith, within-recent w before now ts h)

within-prune :
    (window : ℤ) (before now : ℕ) (ts : List ℕ)
    → before ≤ now
    → crashes_within window now (prune_crash_times ts window before) ≡ crashes_within window now ts
unfolding prune_crash_times
within-prune (pos zero) before now ts h = refl
within-prune (pos (suc w)) before now ts h = within-recent w before now ts h
within-prune (negsuc w) before now ts h = refl

-- Recording a crash adds it to the count.
within-record :
    (window : ℤ) (before now : ℕ) (times : List ℕ)
    → before ≤ now
    → crashes_within window now (record_strategy_crash times window before).0
      ≡ crashes_within window now times + crashes_within window now (before ∷ [])
unfolding record_strategy_crash prune_and_count record_crash
within-record window before now times h =
    within-prune window before now (times ++ before ∷ []) h
    ∙ within-append window now times (before ∷ [])

-- The count that is returned is that of the times, and the new one.
count-within :
    (window : ℤ) (now : ℕ) (times : List ℕ)
    → (record_strategy_crash times window now).1
      ≡ crashes_within window now times + crashes_within window now (now ∷ [])
unfolding record_strategy_crash prune_and_count record_crash
count-within window now times =
    length-within window now (times ++ now ∷ []) ∙ within-append window now times (now ∷ [])

within-replay :
    (window : ℤ) (now : ℕ) (times ts : List ℕ)
    → NotAfter now ts
    → crashes_within window now (replay window times ts)
      ≡ crashes_within window now times + crashes_within window now ts
unfolding replay crashes_within
within-replay window now times [] h = omega arith
within-replay window now times (t ∷ ts) h = omega (
  arith,
  within-replay window now (record_strategy_crash times window t).0 ts h.1,
  within-record window t now times h.0,
  within-append window now (t ∷ []) ts,
)

-- Without a look in between, the count is that of all crashes.
record_strategy_crash-replay :
    (window : ℤ) (ts : List ℕ) (now : ℕ)
    → NotAfter now ts
    → (record_strategy_crash (replay window [] ts) window now).1
      ≡ crashes_within window now (ts ++ now ∷ [])
unfolding crashes_within
record_strategy_crash-replay window ts now h = omega (
  arith,
  count-within window now (replay window [] ts),
  within-replay window now [] ts h,
  within-append window now ts (now ∷ []),
)

-- What happens to the times of a strategy: a crash is recorded, or circuitOpen looks at them.
pub data Event : Type 0 where
  crash look : ℕ → Event

-- The crashes of a history, and its moments.
abbrev pub crashes : List Event → List ℕ
crashes [] = []
crashes (crash t ∷ es) = t ∷ crashes es
crashes (look t ∷ es) = crashes es

abbrev pub moments : List Event → List ℕ
moments [] = []
moments (crash t ∷ es) = t ∷ moments es
moments (look t ∷ es) = t ∷ moments es

-- The tracker after a history.
unfoldable pub after : RestartSettings → List ℕ → List Event → List ℕ
unfolding record_strategy_crash circuit_open
after cfg times [] = times
after cfg times (crash t ∷ es) = after cfg (record_strategy_crash times cfg.crash_window t).0 es
after cfg times (look t ∷ es) = after cfg (circuit_open cfg times t).0 es

-- A look may count a crash twice, and never loses one.
within-look :
    (cfg : RestartSettings) (before now : ℕ) (times : List ℕ)
    → before ≤ now
    → crashes_within cfg.crash_window now times
      ≤ crashes_within cfg.crash_window now (circuit_open cfg times before).0
unfolding circuit_open count_in_window overwritten
within-look cfg before now times h =
    let kept = prune_crash_times times cfg.crash_window before in
    omega (
      arith,
      within-append cfg.crash_window now kept (drop (length kept) times),
      within-prune cfg.crash_window before now times h,
    )

within-after :
    (cfg : RestartSettings) (now : ℕ) (times : List ℕ) (es : List Event)
    → NotAfter now (moments es)
    → crashes_within cfg.crash_window now times + crashes_within cfg.crash_window now (crashes es)
      ≤ crashes_within cfg.crash_window now (after cfg times es)
unfolding after crashes_within
within-after cfg now times [] h = omega arith
within-after cfg now times (crash t ∷ es) h = omega (
  arith,
  within-after cfg now (record_strategy_crash times cfg.crash_window t).0 es h.1,
  within-record cfg.crash_window t now times h.0,
  within-append cfg.crash_window now (t ∷ []) (crashes es),
)
within-after cfg now times (look t ∷ es) h = omega (
  arith,
  within-after cfg now (circuit_open cfg times t).0 es h.1,
  within-look cfg t now times h.0,
)

-- Whatever circuitOpen looked at in between, the count is not below that of all crashes.
never_below :
    (cfg : RestartSettings) (es : List Event) (now : ℕ)
    → NotAfter now (moments es)
    → crashes_within cfg.crash_window now (crashes es ++ now ∷ [])
      ≤ (record_strategy_crash (after cfg [] es) cfg.crash_window now).1
unfolding crashes_within
never_below cfg es now h = omega (
  arith,
  count-within cfg.crash_window now (after cfg [] es),
  within-after cfg now [] es h,
  within-append cfg.crash_window now (crashes es) (now ∷ []),
)

-- circuitOpen looked at the times.
abbrev pub looked : List Event → Bool
looked [] = false
looked (crash t ∷ es) = looked es
looked (look t ∷ es) = true

after-replay :
    (cfg : RestartSettings) (times : List ℕ) (es : List Event)
    → looked es ≡ false
    → after cfg times es ≡ replay cfg.crash_window times (crashes es)
unfolding after replay
after-replay cfg times [] h = refl
after-replay cfg times (crash t ∷ es) h =
    after-replay cfg (record_strategy_crash times cfg.crash_window t).0 es h
after-replay cfg times (look t ∷ es) h = absurd (cc h)

NotAfter-crashes :
    (now : ℕ) (es : List Event) → NotAfter now (moments es) → NotAfter now (crashes es)
NotAfter-crashes now [] h = tt
NotAfter-crashes now (crash t ∷ es) h = (h.0, NotAfter-crashes now es h.1)
NotAfter-crashes now (look t ∷ es) h = NotAfter-crashes now es h.1

-- After any history of recorded crashes and looks of circuitOpen, none later than now, the count
-- that recordStrategyCrash returns for a crash now is compared with the number of all crashes, and
-- this one, that lie in the window, its first moment included: without a look it is that number,
-- although each recording forgot the older ones, and with one it is at least that number.
pub record_strategy_crash-after :
    (cfg : RestartSettings) (es : List Event) (now : ℕ)
    → NotAfter now (moments es)
    → let count = (record_strategy_crash (after cfg [] es) cfg.crash_window now).1 in
      let right = crashes_within cfg.crash_window now (crashes es ++ now ∷ []) in
      ((looked es ≡ false) × (count ≡ right)) ⊎ ((looked es ≡ true) × (right ≤ count))
record_strategy_crash-after cfg es now h = elim (Bool-cases (looked es)) [
  | inl some_look ↦ inr (some_look, never_below cfg es now h)
  | inr no_look ↦ inl (
    no_look,
    ap (λ times. (record_strategy_crash times cfg.crash_window now).1)
          (after-replay cfg [] es no_look)
        ∙ record_strategy_crash-replay cfg.crash_window (crashes es) now
            (NotAfter-crashes now es h),
  )
]
