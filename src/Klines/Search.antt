-- ===== src/Klines/Search.antt =====
-- The binary search finds the place of a timestamp in a sorted list.
use signalix.Prelude.{
  ℕ, zero, suc, ◌+◌, ◌/◌, ◌≤◌, ◌<◌, ◌≡◌, refl, ap, ◌∙◌, Bool, true, false, List, [], ◌∷◌, ltb, leb,
  ◌==◌, length, arith, Bool-cases, inl, inr, if◌then◌else◌,
}
use signalix.Klines.{
  Kline, search_from, search, is_at_least, is_at, replace_at, insert_at, merge_at, merge_kline,
}

-- Every bar of the list is after the time `t`.
abbrev pub After : ℕ → List Kline → Type 0
After t [] = Unit
After t (b ∷ l) = (t < b.timestamp_sec) × After t l

-- The times rise strictly.
abbrev pub IsSorted : List Kline → Type 0
IsSorted [] = Unit
IsSorted (b ∷ l) = After b.timestamp_sec l × IsSorted l

-- The number of bars at the front that are before the time.
pub rank : List Kline → ℕ → ℕ
rank [] ts = 0
rank (b ∷ l) ts = let rest = rank l ts in if ltb b.timestamp_sec ts then suc rest else 0

rank-le : (l : List Kline) (ts : ℕ) → rank l ts ≤ length l
unfolding rank
rank-le [] ts = omega arith
rank-le (b ∷ l) ts = ground (arith, rank-le l ts)

After-is_at_least :
    (l : List Kline) (t ts i : ℕ) → ts ≤ t → After t l → i < length l → is_at_least l ts i ≡ true
unfolding is_at_least
After-is_at_least [] t ts i h a lt = absurd (omega (arith, lt))
After-is_at_least (b ∷ l) t ts zero h a lt = ground (arith, a.0, h)
After-is_at_least (b ∷ l) t ts (suc i) h a lt = After-is_at_least l t ts i h a.1 (omega (arith, lt))

-- In a sorted list the test of the search holds from the rank on.
is_at_least-rank :
    (l : List Kline) (ts i : ℕ) → IsSorted l → i < length l → is_at_least l ts i ≡ leb (rank l ts) i
unfolding rank is_at_least
is_at_least-rank [] ts i s lt = absurd (omega (arith, lt))
is_at_least-rank (b ∷ l) ts zero s lt = ground arith
is_at_least-rank (b ∷ l) ts (suc i) s lt = elim (Bool-cases (ltb b.timestamp_sec ts)) [
  | inl before ↦ rw before (is_at_least-rank l ts i s.1 (omega (arith, lt)) ∙ ground arith)
  | inr from ↦ rw from (
      After-is_at_least l b.timestamp_sec ts i (ground (arith, from)) s.0 (omega (arith, lt))
      ∙ ground arith)
]

search_from-rank :
    (n : ℕ) (l : List Kline) (ts i j : ℕ)
    → IsSorted l
    → i ≤ rank l ts
    → rank l ts ≤ j
    → j ≤ length l
    → j ≤ i + n
    → search_from n (is_at_least l ts) i j ≡ rank l ts
unfolding search_from
search_from-rank zero l ts i j s a b c d = omega (arith, a, b, d)
search_from-rank (suc n) l ts i j s a b c d = elim (Bool-cases (ltb i j)) [
  | inl more ↦
      let below : (i + j) / 2 < j = ground (arith, more) in
      let above : i ≤ (i + j) / 2 = ground (arith, more) in
      let test = is_at_least-rank l ts ((i + j) / 2) s (omega (arith, below, c)) in
      elim (Bool-cases (leb (rank l ts) ((i + j) / 2))) [
        | inl left ↦
            rw (more, test, left)
              (search_from-rank n l ts i ((i + j) / 2) s a (ground (arith, left))
                (omega (arith, below, c)) (omega (arith, below, d)))
        | inr right ↦
            rw (more, test, right)
              (search_from-rank n l ts (suc ((i + j) / 2)) j s (ground (arith, right)) b c
                (omega (arith, above, d)))
      ]
  | inr done ↦ rw done (ground (arith, done, a, b))
]

-- Insertion in order, from the front: the bar replaces one of the same time.
unfoldable pub insert_sorted : Kline → List Kline → List Kline
insert_sorted k [] = k ∷ []
insert_sorted k (b ∷ l) =
    let rest = insert_sorted k l in
    if ltb b.timestamp_sec k.timestamp_sec
    then b ∷ rest
    else if b.timestamp_sec == k.timestamp_sec
    then k ∷ l
    else k ∷ b ∷ l

cons_if :
    (c : Bool) (b : Kline) (x y z : List Kline)
    → (if c then x else y) ≡ z
    → (if c then b ∷ x else b ∷ y) ≡ b ∷ z
cons_if true b x y z h = ap (λ l. b ∷ l) h
cons_if false b x y z h = ap (λ l. b ∷ l) h

merge_at-rank :
    (k : Kline) (l : List Kline) → merge_at (rank l k.timestamp_sec) k l ≡ insert_sorted k l
unfolding merge_at insert_sorted rank is_at replace_at insert_at
merge_at-rank k [] = refl
merge_at-rank k (b ∷ l) = elim (Bool-cases (ltb b.timestamp_sec k.timestamp_sec)) [
  | inl before ↦
      rw before
        (cons_if (is_at l k.timestamp_sec (rank l k.timestamp_sec)) b _ _ _ (merge_at-rank k l))
  | inr from ↦ rw from refl
]

-- In a list whose times rise strictly, the binary search of mergeKlineLocked puts the bar where an
-- insertion from the front puts it, in place of a bar of the same time if there is one.
pub merge_kline-insert_sorted :
    (k : Kline) (l : List Kline) → IsSorted l → merge_kline k l ≡ insert_sorted k l
unfolding merge_kline search
merge_kline-insert_sorted k l s =
    ap (λ i. merge_at i k l)
      (search_from-rank (length l) l k.timestamp_sec 0 (length l) s (omega arith)
        (rank-le l k.timestamp_sec) (omega arith) (omega arith))
    ∙ merge_at-rank k l
