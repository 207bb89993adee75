-- ===== src/Prelude/Dict.antt =====
-- A Go map with string keys, as an association list. Go visits a map in any order; here the order
-- of the list stands for the one that it takes.
use mathlib.Core.Path.{◌≡◌, refl}
use mathlib.Core.Option.{Option, none, some}
use mathlib.Core.List.{List, [], ◌∷◌}
use Prim.Native.Nat.{◌+◌}
use Prim.Native.String.{String}
use native.Mathlib.Omega.{arith}
use text.Mathlib.Text.{◌==◌}
use text.Mathlib.TextEquality.{eq_iff}
use signalix.Prelude.Tests.{if◌then◌else◌}
use signalix.Prelude.Lists.{length}

abbrev pub Dict {ℓ} : Type ℓ → Type ℓ
Dict V = List (String × V)

module _ {ℓ} {V : Type ℓ} where
  -- `m[k]` with its `ok`
  unfoldable pub lookup : String → Dict V → Option V
  lookup k [] = none
  lookup k ((j, v) ∷ m) = if j == k then some v else lookup k m

  -- `m[k] = v`
  unfoldable pub insert : String → V → Dict V → Dict V
  insert k v [] = (k, v) ∷ []
  insert k v ((j, w) ∷ m) = if j == k then (k, v) ∷ m else (j, w) ∷ insert k v m

  -- `delete(m, k)`
  unfoldable pub erase : String → Dict V → Dict V
  erase k [] = []
  erase k ((j, w) ∷ m) = let rest = erase k m in if j == k then rest else (j, w) ∷ rest

  -- No key is listed twice, as in every Go map.
  abbrev pub IsDict : Dict V → Type ℓ
  IsDict [] = Unit
  IsDict ((k, v) ∷ m) = (lookup k m ≡ none) × IsDict m

  -- Reading after a write and after a deletion.
  pub lookup-insert :
      (key x : String) (new : V) (m : Dict V)
      → lookup x (insert key new m) ≡ (if key == x then some new else lookup x m)
  unfolding insert lookup
  lookup-insert key x new [] = refl
  lookup-insert key x new ((head, old) ∷ rest) =
      ground (arith, lookup-insert key x new rest, eq_iff head x, eq_iff head key, eq_iff key x)

  pub lookup-erase :
      (key x : String) (m : Dict V)
      → lookup x (erase key m) ≡ (if key == x then none else lookup x m)
  unfolding erase lookup
  lookup-erase key x [] = ground arith
  lookup-erase key x ((head, old) ∷ rest) =
      ground (arith, lookup-erase key x rest, eq_iff head x, eq_iff head key, eq_iff key x)

  pub insert-IsDict : (k : String) (v : V) (m : Dict V) → IsDict m → IsDict (insert k v m)
  unfolding insert lookup
  insert-IsDict k v [] h = (refl, tt)
  insert-IsDict k v ((i, w) ∷ m) h =
      ground (arith, eq_iff i k, eq_iff k i, insert-IsDict k v m h.1, lookup-insert k i v m)

  -- A new key makes the map one longer.
  pub length-insert_new :
      (k : String) (v : V) (m : Dict V) → lookup k m ≡ none → length (insert k v m) ≡ length m + 1
  unfolding insert lookup
  length-insert_new k v [] h = omega arith
  length-insert_new k v ((i, w) ∷ m) h = ground (arith, length-insert_new k v m)

  pub length-insert_old :
      (k : String) (v w : V) (m : Dict V) → lookup k m ≡ some w → length (insert k v m) ≡ length m
  unfolding insert lookup
  length-insert_old k v w [] h = cc
  length-insert_old k v w ((i, u) ∷ m) h = ground (arith, length-insert_old k v w m)
