-- ===== src/Pagination/Sorting.antt =====
-- mcp/pagination.rs: the sort by key, and the position after a cursor in a sorted list.
use mathlib.Core.List.{Perm}
use mathlib.Core.List.Perm
use dravr_tronc.Common.{◌≡◌, ◌≢◌, refl, inl, inr, true, List, [], ◌∷◌, ◌++◌, arith, Bool-cases, sym}
use dravr_tronc.Common.Lists.{All}
use dravr_tronc.Common.Bytes.{
  Bytes, text_le, text_le_refl, text_le_total, text_le_trans, text_le_antisym,
}
use dravr_tronc.Pagination.{insert_sorted, sort, skip_served}

module _ {ℓ} {T : Type ℓ} (key : T → Bytes) where
  -- In key order.
  abbrev pub IsSorted : List T → Type ℓ
  IsSorted [] = Unit
  IsSorted (x ∷ xs) = All (λ y. text_le (key x) (key y) ≡ true) xs × IsSorted xs

  -- No two items have one key.
  abbrev pub Distinct : List T → Type ℓ
  Distinct [] = Unit
  Distinct (x ∷ xs) = All (λ y. key x ≢ key y) xs × Distinct xs

  pub All-middle {κ} :
      (P : T → Type κ) (xs : List T) (y : T) (zs : List T) → All P (xs ++ y ∷ zs) → P y
  All-middle P [] y zs h = h.0
  All-middle P (x ∷ xs) y zs h = All-middle P xs y zs h.1

  insert_sorted-perm : (x : T) (xs : List T) → Perm (insert_sorted key x xs) (x ∷ xs)
  unfolding insert_sorted
  insert_sorted-perm x [] = Perm.refl _
  insert_sorted-perm x (y ∷ ys) = elim (Bool-cases (text_le (key x) (key y))) [
    | inl first ↦ rw first (Perm.refl _)
    | inr later ↦ rw later (Perm.trans (Perm.cons y (insert_sorted-perm x ys)) (Perm.swap x y ys))
  ]

  pub sort-perm : (xs : List T) → Perm (sort key xs) xs
  unfolding sort
  sort-perm [] = Perm.refl _
  sort-perm (x ∷ xs) = Perm.trans (insert_sorted-perm x (sort key xs)) (Perm.cons x (sort-perm xs))

  insert_sorted-All {κ} :
      (P : T → Type κ) (x : T) (xs : List T) → P x → All P xs → All P (insert_sorted key x xs)
  unfolding insert_sorted
  insert_sorted-All P x [] p ps = (p, tt)
  insert_sorted-All P x (y ∷ ys) p ps = elim (Bool-cases (text_le (key x) (key y))) [
    | inl first ↦ rw first (p, ps)
    | inr later ↦ rw later (ps.0, insert_sorted-All P x ys p ps.1)
  ]

  pub sort-All {κ} : (P : T → Type κ) (xs : List T) → All P xs → All P (sort key xs)
  unfolding sort
  sort-All P [] ps = tt
  sort-All P (x ∷ xs) ps = insert_sorted-All P x (sort key xs) ps.0 (sort-All P xs ps.1)

  All-map {κ μ} :
      (P : T → Type κ) (Q : T → Type μ) (xs : List T) → ((y : T) → P y → Q y) → All P xs → All Q xs
  All-map P Q [] f ps = tt
  All-map P Q (x ∷ xs) f ps = (f x ps.0, All-map P Q xs f ps.1)

  insert_sorted-IsSorted : (x : T) (xs : List T) → IsSorted xs → IsSorted (insert_sorted key x xs)
  unfolding insert_sorted
  insert_sorted-IsSorted x [] s = (tt, tt)
  insert_sorted-IsSorted x (y ∷ ys) s = elim (Bool-cases (text_le (key x) (key y))) [
    | inl first ↦
        rw first
          ((first, All-map _ _ ys (λ z h. text_le_trans (key x) (key y) (key z) first h) s.0), s)
    | inr later ↦
        let back : text_le (key y) (key x) ≡ true = ground (arith, text_le_total (key x) (key y)) in
        rw later (
          insert_sorted-All (λ z. text_le (key y) (key z) ≡ true) x ys back s.0,
          insert_sorted-IsSorted x ys s.1,
        )
  ]

  pub sort-IsSorted : (xs : List T) → IsSorted (sort key xs)
  unfolding sort
  sort-IsSorted [] = tt
  sort-IsSorted (x ∷ xs) = insert_sorted-IsSorted x (sort key xs) (sort-IsSorted xs)

  insert_sorted-Distinct :
      (x : T) (xs : List T)
      → All (λ y. key x ≢ key y) xs
      → Distinct xs
      → Distinct (insert_sorted key x xs)
  unfolding insert_sorted
  insert_sorted-Distinct x [] n d = (tt, tt)
  insert_sorted-Distinct x (y ∷ ys) n d = elim (Bool-cases (text_le (key x) (key y))) [
    | inl first ↦ rw first (n, d)
    | inr later ↦ rw later (
      insert_sorted-All (λ z. key y ≢ key z) x ys (λ e. n.0 (sym e)) d.0,
      insert_sorted-Distinct x ys n.1 d.1,
    )
  ]

  pub sort-Distinct : (xs : List T) → Distinct xs → Distinct (sort key xs)
  unfolding sort
  sort-Distinct [] d = tt
  sort-Distinct (x ∷ xs) d =
      insert_sorted-Distinct x (sort key xs) (sort-All (λ y. key x ≢ key y) xs d.0)
        (sort-Distinct xs d.1)

  -- All that is left after an item of a sorted list is what stands behind it.
  skip_served-behind :
      (y : T) (zs : List T)
      → All (λ z. text_le (key y) (key z) ≡ true) zs
      → All (λ z. key y ≢ key z) zs
      → skip_served key (key y) zs ≡ zs
  unfolding skip_served
  skip_served-behind y [] s d = refl
  skip_served-behind y (z ∷ zs) s d = ground (arith, text_le_antisym (key y) (key z) s.0, d.0)

  pub skip_served-split :
      (xs : List T) (y : T) (zs : List T)
      → IsSorted (xs ++ y ∷ zs)
      → Distinct (xs ++ y ∷ zs)
      → skip_served key (key y) (xs ++ y ∷ zs) ≡ zs
  unfolding skip_served
  skip_served-split [] y zs s d =
      ground (arith, text_le_refl (key y), skip_served-behind y zs s.0 d.0)
  skip_served-split (x ∷ xs) y zs s d = ground (
    arith,
    skip_served-split xs y zs s.1 d.1,
    All-middle (λ z. text_le (key x) (key z) ≡ true) xs y zs s.0,
  )
