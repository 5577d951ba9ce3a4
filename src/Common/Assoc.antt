-- ===== src/Common/Assoc.antt =====
-- `HashMap` as an association list, for any key type with an equality test. The order of the
-- list is the iteration order, which the theorems leave open.
use Prim.Native.Nat.{◌≤◌, ◌<◌}
use mathlib.Core.Path.{◌≡◌, refl}
use mathlib.Core.Bool.{Bool}
use mathlib.Core.Option.{Option, none, some}
use mathlib.Core.List.{List, [], ◌∷◌}
use native.Mathlib.Omega.{arith}
use dravr_tronc.Common.Tests.{if◌then◌else◌}
use dravr_tronc.Common.Equality.{PartialEq, ◌==◌}
use dravr_tronc.Common.Lists.{length, retain}

module _ {ℓ κ} {K : Type ℓ} {V : Type κ} ⦃e : PartialEq K⦄ where
  -- `HashMap::get`.
  unfoldable pub lookup : K → List (K × V) → Option V
  lookup k [] = none
  lookup k ((j, v) ∷ m) = if j == k then some v else lookup k m

  -- `HashMap::remove`.
  unfoldable pub without : K → List (K × V) → List (K × V)
  without k [] = []
  without k ((j, v) ∷ m) = let rest = without k m in if j == k then rest else (j, v) ∷ rest

  -- `HashMap::insert`.
  unfoldable pub insert : K → V → List (K × V) → List (K × V)
  insert k v m = (k, v) ∷ without k m

  pub lookup-without :
      (k j : K) (m : List (K × V)) → lookup j (without k m) ≡ (if k == j then none else lookup j m)
  unfolding lookup without
  lookup-without k j [] = ground arith
  lookup-without k j ((i, v) ∷ m) =
      ground (arith, lookup-without k j m, e.same_iff i k, e.same_iff i j, e.same_iff k j)

  pub lookup-insert :
      (k j : K) (v : V) (m : List (K × V))
      → lookup j (insert k v m) ≡ (if k == j then some v else lookup j m)
  unfolding insert lookup
  lookup-insert k j v m = ground (arith, lookup-without k j m, e.same_iff k j)

  pub length-without-le : (k : K) (m : List (K × V)) → length (without k m) ≤ length m
  unfolding without
  length-without-le k [] = omega arith
  length-without-le k ((j, v) ∷ m) = ground (arith, length-without-le k m)

  -- Removing a key that is present makes the map shorter.
  pub length-without-lt :
      (k : K) (v : V) (m : List (K × V)) → lookup k m ≡ some v → length (without k m) < length m
  unfolding lookup without
  length-without-lt k v [] h = ground arith
  length-without-lt k v ((j, w) ∷ m) h =
      ground (arith, length-without-lt k v m, length-without-le k m)

  -- No key occurs twice, as in every `HashMap`.
  abbrev pub IsMap : List (K × V) → Type κ
  IsMap [] = Unit
  IsMap ((k, v) ∷ m) = (lookup k m ≡ none) × IsMap m

  pub without-IsMap : (k : K) (m : List (K × V)) → IsMap m → IsMap (without k m)
  unfolding without
  without-IsMap k [] h = tt
  without-IsMap k ((j, v) ∷ m) h =
      ground (arith, without-IsMap k m h.1, lookup-without k j m, e.same_iff j k, e.same_iff k j)

  pub insert-IsMap : (k : K) (v : V) (m : List (K × V)) → IsMap m → IsMap (insert k v m)
  unfolding insert
  insert-IsMap k v m h = ground (arith, lookup-without k k m, e.same_iff k k, without-IsMap k m h)

  pub lookup-retain-none :
      (p : K × V → Bool) (k : K) (m : List (K × V))
      → lookup k m ≡ none
      → lookup k (retain p m) ≡ none
  unfolding lookup
  lookup-retain-none p k [] h = refl
  lookup-retain-none p k ((j, v) ∷ m) h = ground (arith, lookup-retain-none p k m)

  pub retain-IsMap : (p : K × V → Bool) (m : List (K × V)) → IsMap m → IsMap (retain p m)
  retain-IsMap p [] h = tt
  retain-IsMap p ((j, v) ∷ m) h = ground (arith, retain-IsMap p m h.1, lookup-retain-none p j m h.0)

  abbrev pub keep_if : (K × V → Bool) → K → Option V → Option V
  keep_if p k none = none
  keep_if p k (some v) = if p (k, v) then some v else none

  -- `HashMap::retain` keeps an entry exactly when it passes the test.
  pub lookup-retain :
      (p : K × V → Bool) (k : K) (m : List (K × V))
      → IsMap m
      → lookup k (retain p m) ≡ keep_if p k (lookup k m)
  unfolding lookup
  lookup-retain p k [] h = refl
  lookup-retain p k ((j, v) ∷ m) h =
      ground (arith, lookup-retain p k m h.1, lookup-retain-none p j m h.0, e.same_iff j k)
