-- ===== src/Lookup/Fields.antt =====
-- flud/protocol/ClientDHTPrimitives.py: membership in the lists and the dict of a lookup.
use flud.Prelude.{
  ℕ, zero, suc, ◌≤◌, ◌<◌, ◌≡◌, refl, ◌⊎◌, inr, Bool, true, false, ◌||◌, some, List, [], ◌∷◌, ◌++◌,
  arith, String, Eq, Dict, get, has, put, elem, get-put, nat_eq, eq_iff, ◌==◌, if◌then◌else◌, take,
  drop,
}
use flud.Prelude.Sorting.{sort_by, insert_by}
use flud.Lookup.{Contact, contact_eq, without, was_queried}

module _ {ℓ} {A : Type ℓ} ⦃e : Eq A⦄ where
  pub elem-append :
      (x : A) (xs ys : List A) → elem x (xs ++ ys) ≡ true → (elem x xs ≡ true) ⊎ (elem x ys ≡ true)
  unfolding elem
  elem-append x [] ys h = inr h
  elem-append x (z ∷ xs) ys h = ground (arith, elem-append x xs ys)

  pub elem-append_left : (x : A) (xs ys : List A) → elem x xs ≡ true → elem x (xs ++ ys) ≡ true
  unfolding elem
  elem-append_left x [] ys h = cc
  elem-append_left x (z ∷ xs) ys h = ground (arith, elem-append_left x xs ys)

  elem-insert_by :
      (key : A → ℕ) (x a : A) (xs : List A)
      → elem x (insert_by key a xs) ≡ true
      → elem x (a ∷ xs) ≡ true
  unfolding elem insert_by
  elem-insert_by key x a [] h = h
  elem-insert_by key x a (y ∷ xs) h = ground (arith, elem-insert_by key x a xs)

  pub elem-sort_by :
      (key : A → ℕ) (x : A) (xs : List A) → elem x (sort_by key xs) ≡ true → elem x xs ≡ true
  unfolding elem sort_by
  elem-sort_by key x [] h = h
  elem-sort_by key x (y ∷ xs) h =
      ground (arith, elem-insert_by key x y (sort_by key xs) h, elem-sort_by key x xs)

  pub elem-drop : (n : ℕ) (x : A) (xs : List A) → elem x (drop n xs) ≡ true → elem x xs ≡ true
  unfolding elem
  elem-drop zero x xs h = h
  elem-drop (suc n) x [] h = h
  elem-drop (suc n) x (y ∷ xs) h = ground (arith, elem-drop n x xs h)

  pub elem-take : (n : ℕ) (x : A) (xs : List A) → elem x (take n xs) ≡ true → elem x xs ≡ true
  unfolding elem
  elem-take zero x xs h = cc
  elem-take (suc n) x [] h = h
  elem-take (suc n) x (y ∷ xs) h = ground (arith, elem-take n x xs)

pub has-put :
    {V : Type 0} (i j : ℕ) (v : V) (d : Dict ℕ V) → has j (put i v d) ≡ ((i == j) || has j d)
unfolding has put
has-put i j v [] = refl
has-put i j v ((n, w) ∷ d) = ground (arith, has-put i j v d)

pub elem-without :
    (x c : Contact) (xs : List Contact) → elem x (without c xs) ≡ true → elem x xs ≡ true
unfolding elem without
elem-without x c [] h = h
elem-without x c (y ∷ xs) h = ground (arith, elem-without x c xs)

-- The contact that was just queried is known as such.
pub was_queried-put :
    (c : Contact) (d : Dict ℕ (String × ℕ)) → was_queried (put c.id (c.host, c.port) d) c ≡ true
unfolding was_queried
was_queried-put c d =
    let found : get c.id (put c.id (c.host, c.port) d) ≡ some (c.host, c.port) =
      ground (arith, get-put c.id c.id (c.host, c.port) d) in
    rw (found, was_queried) (ground (arith, eq_iff c.host c.host))

-- How many elements of a list a test accepts.
pub count {ℓ} : {A : Type ℓ} → (A → Bool) → List A → ℕ
count p [] = 0
count p (x ∷ xs) = if p x then suc (count p xs) else count p xs

module _ {ℓ} {A : Type ℓ} ⦃e : Eq A⦄ (p q : A → Bool)
    (weaker : (x : A) → p x ≡ true → q x ≡ true) where
  pub count-le : (xs : List A) → count p xs ≤ count q xs
  unfolding count
  count-le [] = omega arith
  count-le (x ∷ xs) = ground (arith, weaker x, count-le xs)

  pub count-lt :
      (x : A) (xs : List A) → elem x xs ≡ true → q x ≡ true → p x ≡ false → count p xs < count q xs
  unfolding count elem
  count-lt x [] h a b = cc
  count-lt x (y ∷ xs) h a b = ground (arith, e.beq_iff y x, weaker y, count-le xs, count-lt x xs)
