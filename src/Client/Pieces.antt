-- ===== src/Client/Pieces.antt =====
-- flud/protocol/ClientPrimitives.py: the search for the boundary in what comes between two of them.
use flud.Prelude.{
  ℕ, ◌≤◌, ◌≡◌, refl, sym, ap, ◌∙◌, false, Option, none, some, List, [], ◌∷◌, ◌++◌, arith, length,
  length-append, append_assoc, ◌==◌, inl, inr, Option-cases, Bool-cases, All,
}
use flud.Server.Auth.{after_prefix}
use flud.Client.Save.{cut_at, strip_bytes, strip_left, strip_right, unless_stripped, is_space_byte}
use flud.Client.Multipart.{cut_at-hit, cut_at-miss, push, NoReturn}
use flud.Client.Tokens.{IsVisible}

-- A prefix that a long enough text has not is not found with more behind it.
after_prefix-none :
    (p t s : List ℕ)
    → length p ≤ length t
    → after_prefix p t ≡ none
    → after_prefix p (t ++ s) ≡ none
unfolding after_prefix
after_prefix-none [] t s few h = absurd cc
after_prefix-none (a ∷ p) [] s few h = absurd (omega (arith, few))
after_prefix-none (a ∷ p) (b ∷ t) s few h = elim (Bool-cases (a == b)) [
  | inl same ↦ rw same (after_prefix-none p t s (omega (arith, few)) (ground (arith, h, same)))
  | inr differ ↦ rw differ refl
]

-- The first boundary in a piece with a boundary behind it is that one.
abbrev pub Clear : List ℕ → List ℕ → Type 0
Clear mark x = cut_at mark (x ++ mark) ≡ some (x, [])

pushed :
    (c : ℕ) (x : List ℕ) (o : Option (List ℕ × List ℕ))
    → push c o ≡ some (c ∷ x, [])
    → o ≡ some (x, [])
unfolding push
pushed c x none h = absurd cc
pushed c x (some (before, after)) h = cc

found_here :
    (mark : List ℕ) (c : ℕ) (s r : List ℕ)
    → after_prefix mark (c ∷ s) ≡ some r
    → cut_at mark (c ∷ s) ≡ some ([], r)
unfolding cut_at
found_here mark c s r h = rw (cut_at, h) refl

clash :
    (c : ℕ) (x r : List ℕ) (o : Option (List ℕ × List ℕ))
    → o ≡ some ([], r)
    → o ≡ some (c ∷ x, [])
    → ⊥
clash c x r o h g = cc

pub cut_at-Clear :
    (a : ℕ) (mark x s : List ℕ)
    → Clear (a ∷ mark) x
    → cut_at (a ∷ mark) (x ++ ((a ∷ mark) ++ s)) ≡ some (x, s)
cut_at-Clear a mark [] s h = cut_at-hit a mark s
cut_at-Clear a mark (c ∷ x) s h =
    elim (Option-cases (after_prefix (a ∷ mark) (c ∷ (x ++ (a ∷ mark))))) [
      | inl misses ↦
          let rest = pushed c x _ (sym (cut_at-miss (a ∷ mark) c (x ++ (a ∷ mark)) misses) ∙ h) in
          let long : length (a ∷ mark) ≤ length (c ∷ (x ++ (a ∷ mark))) =
            omega (arith, length-append x (a ∷ mark)) in
          let still : after_prefix (a ∷ mark) (c ∷ (x ++ ((a ∷ mark) ++ s))) ≡ none =
            ap (λ l. after_prefix (a ∷ mark) (c ∷ l)) (sym (append_assoc x (a ∷ mark) s))
            ∙ after_prefix-none (a ∷ mark) (c ∷ (x ++ (a ∷ mark))) s long misses in
          cut_at-miss (a ∷ mark) c (x ++ ((a ∷ mark) ++ s)) still
          ∙ ap (push c) (cut_at-Clear a mark x s rest)
          ∙ (unfold push in refl)
      | inr (r, hits) ↦
          let here = found_here (a ∷ mark) c (x ++ (a ∷ mark)) r hits in
          absurd (clash c x r _ here h)
    ]

-- What a visible text is to the reading of a header.
pub visible-NoReturn : (s : List ℕ) → All IsVisible s → All NoReturn s
visible-NoReturn [] h = tt
visible-NoReturn (c ∷ s) h = (ground (arith, h.0.above), visible-NoReturn s h.1)

space_byte_not : (c : ℕ) → IsVisible c → is_space_byte c ≡ false
space_byte_not c v = ground (arith, v.above)

strip_right_visible : (s : List ℕ) → All IsVisible s → strip_right is_space_byte s ≡ s
unfolding strip_right
strip_right_visible [] h = refl
strip_right_visible (c ∷ []) h = rw (unless_stripped, space_byte_not c h.0) refl
strip_right_visible (c ∷ d ∷ s) h =
    ap (unless_stripped is_space_byte c) (strip_right_visible (d ∷ s) h.1)
    ∙ (unfold unless_stripped in refl)

pub strip_bytes_visible :
    (c : ℕ) (s : List ℕ) → All IsVisible (c ∷ s) → strip_bytes (32 ∷ c ∷ s) ≡ c ∷ s
unfolding strip_bytes
strip_bytes_visible c s h =
    let first : strip_left is_space_byte (32 ∷ c ∷ s) ≡ c ∷ s =
      unfold strip_left in rw (space_byte_not c h.0) refl in
    ap (strip_right is_space_byte) first ∙ strip_right_visible (c ∷ s) h
