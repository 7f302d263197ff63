-- ===== src/Prelude/Unique.antt =====
-- Dicts in which every key stands once, as in Python's.
use mathlib.Core.Path.{◌≡◌, refl, sym, ap, ◌∙◌}
use mathlib.Core.Logic.{inl, inr}
use mathlib.Core.Bool.{false}
use mathlib.Core.Option.{none}
use mathlib.Core.List.{[], ◌∷◌}
use native.Mathlib.Omega.{arith}
use flud.Prelude.Equality.{Eq, ◌=?◌}
use flud.Prelude.Tests.{Bool-cases}
use flud.Prelude.Dicts.{Dict, get, has, put, remove, has-get}

module _ {ℓ κ} {K : Type ℓ} {V : Type κ} ⦃e : Eq K⦄ where
  abbrev pub Unique : Dict K V → Type 0
  Unique [] = Unit
  Unique ((k, v) ∷ d) = (has k d ≡ false) × Unique d

  has-put :
      (k j : K) (v : V) (d : Dict K V)
      → has j d ≡ false
      → (j =? k) ≡ false
      → has j (put k v d) ≡ false
  unfolding has put
  has-put k j v [] h n = ground (arith, n, e.beq_iff k j, e.beq_iff j k)
  has-put k j v ((i, w) ∷ d) h n =
      ground
        (arith, h, n, e.beq_iff k j, e.beq_iff j k, e.beq_iff i k, e.beq_iff i j, has-put k j v d)

  pub put-Unique : (k : K) (v : V) (d : Dict K V) → Unique d → Unique (put k v d)
  unfolding put
  put-Unique k v [] u = (unfold has in refl, tt)
  put-Unique k v ((i, w) ∷ d) u = elim (Bool-cases (i =? k)) [
    | inl same ↦ rw same u
    | inr other ↦ rw other (has-put k i v d u.0 other, put-Unique k v d u.1)
  ]

  has-remove : (k j : K) (d : Dict K V) → has j d ≡ false → has j (remove k d) ≡ false
  unfolding has remove
  has-remove k j [] h = refl
  has-remove k j ((i, w) ∷ d) h = ground (arith, h, has-remove k j d)

  pub get-remove_self : (k : K) (d : Dict K V) → Unique d → get k (remove k d) ≡ none
  unfolding get remove
  get-remove_self k [] u = refl
  get-remove_self k ((i, w) ∷ d) u = elim (Bool-cases (i =? k)) [
    | inl same ↦
        let is : i ≡ k = (e.beq_iff i k).0 same in
        rw same (has-get k d (ap (λ x. has x d) (sym is) ∙ u.0))
    | inr other ↦ rw (other, other) (get-remove_self k d u.1)
  ]

  pub remove-Unique : (k : K) (d : Dict K V) → Unique d → Unique (remove k d)
  unfolding remove
  remove-Unique k [] u = tt
  remove-Unique k ((i, w) ∷ d) u = elim (Bool-cases (i =? k)) [
    | inl same ↦ rw same u.1
    | inr other ↦ rw other (has-remove k i d u.0, remove-Unique k d u.1)
  ]
