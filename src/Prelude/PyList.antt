-- ===== src/Prelude/PyList.antt =====
-- Python's list methods, over the lists of the library, with the exceptions that they raise.
use Prim.Native.Nat.{ℕ, zero, suc}
use mathlib.Core.Path.{◌≡◌, refl, ap}
use mathlib.Core.List.{List, [], ◌∷◌, ◌++◌}
use flud.Prelude.Equality.{Eq, ◌=?◌}
use flud.Prelude.Exceptions.{Result, ok, raise, value_error, index_error, ◌>>=◌}
use flud.Prelude.Lists.{length}
use flud.Prelude.Tests.{if◌then◌else◌}

abbrev pub All {ℓ κ} : {A : Type ℓ} → (A → Type κ) → List A → Type κ
All P [] = Unit
All P (x ∷ xs) = P x × All P xs

module _ {ℓ} {A : Type ℓ} where
  -- `l[i]`
  unfoldable pub nth : List A → ℕ → Result A
  nth [] i = raise index_error
  nth (x ∷ xs) zero = ok x
  nth (x ∷ xs) (suc i) = nth xs i

  -- `l.pop(i)`, without the element
  unfoldable pub pop_at : List A → ℕ → Result (List A)
  pop_at [] i = raise index_error
  pop_at (x ∷ xs) zero = ok xs
  pop_at (x ∷ xs) (suc i) = do rest ← pop_at xs i; ok (x ∷ rest)

  -- `l.insert(i, x)`: past the end it appends
  unfoldable pub insert_at : ℕ → A → List A → List A
  insert_at zero a xs = a ∷ xs
  insert_at (suc i) a [] = a ∷ []
  insert_at (suc i) a (x ∷ xs) = x ∷ insert_at i a xs

  pub nth-append :
      (pre : List A) (x : A) (post : List A) → nth (pre ++ x ∷ post) (length pre) ≡ ok x
  unfolding nth
  nth-append [] x post = refl
  nth-append (p ∷ pre) x post = nth-append pre x post

  pub insert_at-append :
      (pre : List A) (x y : A) (post : List A)
      → insert_at (suc (length pre)) y (pre ++ x ∷ post) ≡ pre ++ x ∷ y ∷ post
  unfolding insert_at
  insert_at-append [] x y post = refl
  insert_at-append (p ∷ pre) x y post = ap (◌∷◌ p) (insert_at-append pre x y post)

module _ {ℓ} {A : Type ℓ} ⦃e : Eq A⦄ where
  -- `l.remove(a)`
  unfoldable pub erase : A → List A → Result (List A)
  erase a [] = raise value_error
  erase a (x ∷ xs) = let rest = erase a xs in if x =? a then ok xs else (do r ← rest; ok (x ∷ r))

  -- `l.index(a)`
  unfoldable pub index : A → List A → Result ℕ
  index a [] = raise value_error
  index a (x ∷ xs) = let rest = index a xs in if x =? a then ok 0 else (do i ← rest; ok (suc i))

module _ {ℓ κ} {A : Type ℓ} where
  pub All-append : (P : A → Type κ) (xs ys : List A) → All P xs → All P ys → All P (xs ++ ys)
  All-append P [] ys hx hy = hy
  All-append P (x ∷ xs) ys hx hy = (hx.0, All-append P xs ys hx.1 hy)

  pub All-append_left : (P : A → Type κ) (xs ys : List A) → All P (xs ++ ys) → All P xs
  All-append_left P [] ys h = tt
  All-append_left P (x ∷ xs) ys h = (h.0, All-append_left P xs ys h.1)

  pub All-append_right : (P : A → Type κ) (xs ys : List A) → All P (xs ++ ys) → All P ys
  All-append_right P [] ys h = h
  All-append_right P (x ∷ xs) ys h = All-append_right P xs ys h.1

  pub All-map {μ} :
      (P : A → Type κ) (Q : A → Type μ) (xs : List A) → ((a : A) → P a → Q a) → All P xs → All Q xs
  All-map P Q [] f h = tt
  All-map P Q (x ∷ xs) f h = (f x h.0, All-map P Q xs f h.1)
