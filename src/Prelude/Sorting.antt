-- ===== src/Prelude/Sorting.antt =====
-- `l.sort(key=…)`: a stable sort by a number, and what it keeps.
use Prim.Native.Nat.{ℕ, zero, suc, ◌≤◌}
use mathlib.Core.Path.{◌≡◌, refl}
use mathlib.Core.Bool.{true, false}
use mathlib.Core.Logic.{inl, inr}
use mathlib.Core.List.{List, [], ◌∷◌}
use native.Mathlib.Omega.{arith}
use flud.Prelude.Lists.{length, take}
use flud.Prelude.PyList.{All}
use flud.Prelude.Tests.{if◌then◌else◌, leb, Bool-cases, leb→le}

module _ {ℓ} {A : Type ℓ} (key : A → ℕ) where
  -- An element goes before the first one with a key that is not smaller.
  unfoldable pub insert_by : A → List A → List A
  insert_by a [] = a ∷ []
  insert_by a (x ∷ xs) = if leb (key a) (key x) then a ∷ x ∷ xs else x ∷ insert_by a xs

  unfoldable pub sort_by : List A → List A
  sort_by [] = []
  sort_by (x ∷ xs) = insert_by x (sort_by xs)

  -- Each element's key is at most those of the elements behind it.
  abbrev pub Sorted : List A → Type 0
  Sorted [] = Unit
  Sorted (x ∷ xs) = All (λ y. key x ≤ key y) xs × Sorted xs

  pub length-insert_by : (a : A) (xs : List A) → length (insert_by a xs) ≡ suc (length xs)
  unfolding insert_by
  length-insert_by a [] = refl
  length-insert_by a (x ∷ xs) = ground (arith, length-insert_by a xs)

  pub length-sort_by : (xs : List A) → length (sort_by xs) ≡ length xs
  unfolding sort_by
  length-sort_by [] = refl
  length-sort_by (x ∷ xs) = omega (arith, length-insert_by x (sort_by xs), length-sort_by xs)

  All-insert_by {κ} :
      (P : A → Type κ) (a : A) (xs : List A) → P a → All P xs → All P (insert_by a xs)
  unfolding insert_by
  All-insert_by P a [] p h = (p, tt)
  All-insert_by P a (x ∷ xs) p h =
      elim (leb (key a) (key x)) as (λ b. All P (if b then a ∷ x ∷ xs else x ∷ insert_by a xs)) [
        | true ↦ (p, h)
        | false ↦ (h.0, All-insert_by P a xs p h.1)
      ]

  pub All-sort_by {κ} : (P : A → Type κ) (xs : List A) → All P xs → All P (sort_by xs)
  unfolding sort_by
  All-sort_by P [] h = tt
  All-sort_by P (x ∷ xs) h = All-insert_by P x (sort_by xs) h.0 (All-sort_by P xs h.1)

  All-le :
      (a x : A) (xs : List A)
      → key a ≤ key x
      → All (λ y. key x ≤ key y) xs
      → All (λ y. key a ≤ key y) xs
  All-le a x [] h g = tt
  All-le a x (y ∷ xs) h g = (omega arith, All-le a x xs h g.1)

  Sorted-insert_by : (a : A) (xs : List A) → Sorted xs → Sorted (insert_by a xs)
  unfolding insert_by
  Sorted-insert_by a [] h = (tt, tt)
  Sorted-insert_by a (x ∷ xs) h = elim (Bool-cases (leb (key a) (key x))) [
    | inl le ↦ rw le ((leb→le _ _ le, All-le a x xs (leb→le _ _ le) h.0), h)
    | inr gt ↦
        rw gt
          (All-insert_by (λ y. key x ≤ key y) a xs (ground arith) h.0, Sorted-insert_by a xs h.1)
  ]

  pub Sorted-sort_by : (xs : List A) → Sorted (sort_by xs)
  unfolding sort_by
  Sorted-sort_by [] = tt
  Sorted-sort_by (x ∷ xs) = Sorted-insert_by x (sort_by xs) (Sorted-sort_by xs)

  pub Sorted-take : (n : ℕ) (xs : List A) → Sorted xs → Sorted (take n xs)
  Sorted-take zero xs h = tt
  Sorted-take (suc n) [] h = tt
  Sorted-take (suc n) (x ∷ xs) h = (all_take n xs h.0, Sorted-take n xs h.1)
    where
      all_take :
          (m : ℕ) (ys : List A) → All (λ y. key x ≤ key y) ys → All (λ y. key x ≤ key y) (take m ys)
      all_take zero ys g = tt
      all_take (suc m) [] g = tt
      all_take (suc m) (y ∷ ys) g = (g.0, all_take m ys g.1)

pub All-take {ℓ κ} :
    {A : Type ℓ} (P : A → Type κ) (n : ℕ) (xs : List A) → All P xs → All P (take n xs)
All-take P zero xs h = tt
All-take P (suc n) [] h = tt
All-take P (suc n) (x ∷ xs) h = (h.0, All-take P n xs h.1)
