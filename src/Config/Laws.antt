-- ===== src/Config/Laws.antt =====
-- flud/FludConfig.py: what the reputations, the pauses, the order of nodes and the manifest's file are.
use flud.Prelude.{
  ℕ, suc, ◌≡◌, refl, ap, ◌∙◌, true, false, some, List, [], ◌∷◌, arith, get, put, get-put, nat_eq,
  ◌==◌, length, inl, inr, Bool-cases, if◌then◌else◌, All,
}
use flud.Prelude.Int.{ℤ, pos, ◌+ℤ◌, ltb_ℤ, ◌≤ℤ◌}
use flud.Config.{
  Config, Reason, value, modify_reputation, throttle_node, or_initial, over, place, ahead,
  descending,
}

reputations_after :
    (now : ℕ) (c : Config) (i : ℕ) (reason : Reason)
    → (modify_reputation now c i reason).reputations
      ≡ put i (or_initial (get i c.reputations) +ℤ value reason) c.reputations
unfolding modify_reputation throttle_node
reputations_after now c i reason = elim (Bool-cases (ltb_ℤ (value reason) (pos 0))) [
  | inl worse ↦ rw worse
  | inr better ↦ elim (Bool-cases (over (get i c.throttled) now)) [
    | inl done ↦ rw (better, done)
    | inr still ↦ rw (better, still)
  ]
]

-- After `modifyReputation` of a node, for every reason and time, its reputation is the one
-- before, or the initial score for a node without one, plus the value of the reason; the
-- reputation of every other node stays.
modify_reputation-reputations :
    (now : ℕ) (c : Config) (i j : ℕ) (reason : Reason)
    → get j (modify_reputation now c i reason).reputations ≡ (
        if i == j
        then some (or_initial (get i c.reputations) +ℤ value reason)
        else get j c.reputations)
modify_reputation-reputations now c i j reason =
    ap (get j) (reputations_after now c i reason)
    ∙ get-put i j (or_initial (get i c.reputations) +ℤ value reason) c.reputations

-- Scores that never rise from an element to a later one.
abbrev pub Below : ℤ × ℕ → ℤ × ℕ → Type 0
Below x y = y.0 ≤ℤ x.0

abbrev pub Falling : List (ℤ × ℕ) → Type 0
Falling [] = Unit
Falling (x ∷ xs) = All (Below x) xs × Falling xs

ahead-Below : (x y : ℤ × ℕ) → ahead x y ≡ true → Below x y
unfolding ahead
ahead-Below (v, k) (w, j) h = ground (arith, h)

behind-Below : (x y : ℤ × ℕ) → ahead x y ≡ false → Below y x
unfolding ahead
behind-Below (v, k) (w, j) h = ground (arith, h)

Below-All : (x y : ℤ × ℕ) (ys : List (ℤ × ℕ)) → Below x y → All (Below y) ys → All (Below x) ys
Below-All x y [] h g = tt
Below-All x y (z ∷ ys) h g = (omega (arith, h, g.0), Below-All x y ys h g.1)

All-place :
    (y x : ℤ × ℕ) (ys : List (ℤ × ℕ)) → Below y x → All (Below y) ys → All (Below y) (place x ys)
unfolding place
All-place y x [] h g = (h, tt)
All-place y x (z ∷ ys) h g = elim (Bool-cases (ahead x z)) [
  | inl before ↦ rw before (h, g)
  | inr after ↦ rw after (g.0, All-place y x ys h g.1)
]

place-Falling : (x : ℤ × ℕ) (ys : List (ℤ × ℕ)) → Falling ys → Falling (place x ys)
unfolding place
place-Falling x [] g = (tt, tt)
place-Falling x (y ∷ ys) g = elim (Bool-cases (ahead x y)) [
  | inl before ↦
      let down = ahead-Below x y before in rw before ((down, Below-All x y ys down g.0), g)
  | inr after ↦ rw after (All-place y x ys (behind-Below x y after) g.0, place-Falling x ys g.1)
]

length-place : (x : ℤ × ℕ) (ys : List (ℤ × ℕ)) → length (place x ys) ≡ suc (length ys)
unfolding place
length-place x [] = refl
length-place x (y ∷ ys) = ground (arith, length-place x ys)

place-All :
    (P : ℤ × ℕ → Type 0) (x : ℤ × ℕ) (ys : List (ℤ × ℕ)) → P x → All P ys → All P (place x ys)
unfolding place
place-All P x [] h g = (h, tt)
place-All P x (y ∷ ys) h g = elim (Bool-cases (ahead x y)) [
  | inl before ↦ rw before (h, g)
  | inr after ↦ rw after (g.0, place-All P x ys h g.1)
]

-- The sorting and reversing of scored nodes gives scores that never rise, keeps the number of
-- nodes, and what holds for all of them before holds for all of them after.
pub descending-Falling :
    (P : ℤ × ℕ → Type 0) (xs : List (ℤ × ℕ))
    → All P xs
    → Falling (descending xs) × (length (descending xs) ≡ length xs) × All P (descending xs)
unfolding descending
descending-Falling P [] h = (tt, refl, tt)
descending-Falling P (x ∷ xs) h =
    let (falls, same, kept) = descending-Falling P xs h.1 in
    (
      place-Falling x (descending xs) falls,
      omega (arith, length-place x (descending xs), same),
      place-All P x (descending xs) h.0 kept,
    )
