-- ===== src/Klines/Order.antt =====
-- The history stays in order, without two bars of one time, and within its maximum.
use signalix.Prelude.{
  ℕ, zero, suc, ◌-◌, ◌≤◌, ◌<◌, ◌≡◌, refl, ap, ◌∙◌, sym, Option, none, some, List, [], ◌∷◌, String,
  ltb, leb, ◌==◌, length, length-drop, drop, arith, Bool-cases, inl, inr,
}
use std.Path.{subst}
use signalix.Klines.{
  Kline, trim_list, append_or_replace, append_kline, merge_kline, sort_insert, sort_klines,
  closed_bar, merge_bars, ingest_history,
}
use signalix.Klines.Search.{After, IsSorted, insert_sorted, merge_kline-insert_sorted}

After-trans : (a b : ℕ) (l : List Kline) → a ≤ b → After b l → After a l
After-trans a b [] h t = tt
After-trans a b (k ∷ l) h t = (omega (arith, h, t.0), After-trans a b l h t.1)

After-insert_sorted :
    (t : ℕ) (k : Kline) (l : List Kline)
    → t < k.timestamp_sec
    → After t l
    → After t (insert_sorted k l)
unfolding insert_sorted
After-insert_sorted t k [] h a = (h, tt)
After-insert_sorted t k (b ∷ l) h a = ground (arith, a.0, a.1, h, After-insert_sorted t k l h a.1)

insert_sorted-IsSorted : (k : Kline) (l : List Kline) → IsSorted l → IsSorted (insert_sorted k l)
unfolding insert_sorted
insert_sorted-IsSorted k [] s = (tt, tt)
insert_sorted-IsSorted k (b ∷ l) s = elim (Bool-cases (ltb b.timestamp_sec k.timestamp_sec)) [
  | inl before ↦ rw before (
    After-insert_sorted b.timestamp_sec k l (ground (arith, before)) s.0,
    insert_sorted-IsSorted k l s.1,
  )
  | inr from ↦ elim (Bool-cases (b.timestamp_sec == k.timestamp_sec)) [
    | inl same ↦
        rw (from, same)
          (After-trans k.timestamp_sec b.timestamp_sec l (ground (arith, same)) s.0, s.1)
    | inr after ↦
        let lt : k.timestamp_sec < b.timestamp_sec = ground (arith, from, after) in
        rw (from, after)
          ((lt, After-trans k.timestamp_sec b.timestamp_sec l (ground (arith, lt)) s.0), (s.0, s.1))
  ]
]

merge_bars-IsSorted :
    (interval : String) (ks : List (Option Kline)) (l : List Kline)
    → IsSorted l
    → IsSorted (merge_bars interval ks l)
unfolding merge_bars
merge_bars-IsSorted interval [] l s = s
merge_bars-IsSorted interval (none ∷ ks) l s = merge_bars-IsSorted interval ks l s
merge_bars-IsSorted interval (some k ∷ ks) l s =
    let bar = closed_bar interval k in
    merge_bars-IsSorted interval ks (merge_kline bar l)
      (subst IsSorted (sym (merge_kline-insert_sorted bar l s)) (insert_sorted-IsSorted bar l s))

-- A list in order is left alone by the sort.
sort_insert-first : (k : Kline) (l : List Kline) → After k.timestamp_sec l → sort_insert k l ≡ k ∷ l
unfolding sort_insert
sort_insert-first k [] a = refl
sort_insert-first k (b ∷ l) a = ground (arith, a.0)

sort_klines-id : (l : List Kline) → IsSorted l → sort_klines l ≡ l
unfolding sort_klines
sort_klines-id [] s = refl
sort_klines-id (b ∷ l) s = ap (sort_insert b) (sort_klines-id l s.1) ∙ sort_insert-first b l s.0

drop-IsSorted : (n : ℕ) (l : List Kline) → IsSorted l → IsSorted (drop n l)
drop-IsSorted zero l s = s
drop-IsSorted (suc n) [] s = tt
drop-IsSorted (suc n) (b ∷ l) s = drop-IsSorted n l s.1

trim_list-IsSorted : (max : ℕ) (l : List Kline) → IsSorted l → IsSorted (trim_list max l)
unfolding trim_list
trim_list-IsSorted max l s = elim (Bool-cases (leb (length l) max)) [
  | inl short ↦ rw short s
  | inr long_ ↦ rw long_ (drop-IsSorted (length l - max) l s)
]

length-trim_list : (max : ℕ) (l : List Kline) → length (trim_list max l) ≤ max
unfolding trim_list
length-trim_list max l = elim (Bool-cases (leb (length l) max)) [
  | inl short ↦ rw short (ground (arith, short))
  | inr long_ ↦ rw (long_, length-drop (length l - max) l) (ground (arith, long_))
]

-- Whatever bars a warm-up brings, in any order and with nil entries: a history whose times rise
-- strictly is left with times that rise strictly, so no time is listed twice.
pub ingest_history-IsSorted :
    (max : ℕ) (interval : String) (ks : List (Option Kline)) (l : List Kline)
    → IsSorted l
    → IsSorted (ingest_history max interval ks l)
unfolding ingest_history
ingest_history-IsSorted max interval [] l s = s
ingest_history-IsSorted max interval (k ∷ ks) l s =
    let merged = merge_bars-IsSorted interval (k ∷ ks) l s in
    trim_list-IsSorted max (sort_klines (merge_bars interval (k ∷ ks) l))
      (subst IsSorted (sym (sort_klines-id (merge_bars interval (k ∷ ks) l) merged)) merged)

-- A history within its maximum stays within it, both when a bar is closed and when a warm-up brings
-- any bars.
pub ingest_history-bound :
    (max : ℕ) (interval : String) (ks : List (Option Kline)) (k : Kline) (l : List Kline)
    → length l ≤ max
    → (length (ingest_history max interval ks l) ≤ max) × (length (append_kline max k l) ≤ max)
unfolding ingest_history append_kline
ingest_history-bound max interval [] k l h = (h, length-trim_list max (append_or_replace k l))
ingest_history-bound max interval (b ∷ ks) k l h = (
  length-trim_list max (sort_klines (merge_bars interval (b ∷ ks) l)),
  length-trim_list max (append_or_replace k l),
)

-- The last bar of the history is not later than `k`.
abbrev pub NotOlder : Kline → List Kline → Type 0
NotOlder k [] = Unit
NotOlder k (b ∷ []) = b.timestamp_sec ≤ k.timestamp_sec
NotOlder k (b ∷ c ∷ l) = NotOlder k (c ∷ l)

-- In order, every bar is before what is not older than the last.
first-NotOlder :
    (k b : Kline) (l : List Kline)
    → IsSorted (b ∷ l)
    → NotOlder k (b ∷ l)
    → b.timestamp_sec ≤ k.timestamp_sec
first-NotOlder k b [] s h = h
first-NotOlder k b (c ∷ l) s h = omega (arith, s.0.0, first-NotOlder k c l s.1 h)

After-append_or_replace :
    (t : ℕ) (k : Kline) (l : List Kline)
    → t < k.timestamp_sec
    → After t l
    → After t (append_or_replace k l)
unfolding append_or_replace
After-append_or_replace t k [] h a = (h, tt)
After-append_or_replace t k (b ∷ []) h a = ground (arith, h, a.0)
After-append_or_replace t k (b ∷ c ∷ l) h a = (a.0, After-append_or_replace t k (c ∷ l) h a.1)

append_or_replace-IsSorted :
    (k : Kline) (l : List Kline) → IsSorted l → NotOlder k l → IsSorted (append_or_replace k l)
unfolding append_or_replace
append_or_replace-IsSorted k [] s h = (tt, tt)
append_or_replace-IsSorted k (b ∷ []) s h = ground (arith, h)
append_or_replace-IsSorted k (b ∷ c ∷ l) s h = (
  After-append_or_replace b.timestamp_sec k (c ∷ l)
      (omega (arith, s.0.0, first-NotOlder k c l s.1 h)) s.0,
  append_or_replace-IsSorted k (c ∷ l) s.1 h,
)

-- A closed bar that is not older than the last one of a history whose times rise strictly keeps
-- them so.
pub append_kline-IsSorted :
    (max : ℕ) (k : Kline) (l : List Kline)
    → IsSorted l
    → NotOlder k l
    → IsSorted (append_kline max k l)
unfolding append_kline
append_kline-IsSorted max k l s h =
    trim_list-IsSorted max (append_or_replace k l) (append_or_replace-IsSorted k l s h)
