-- ===== src/Tarball/Named.antt =====
-- flud/TarfileUtils.py: what `verifyHashes` has checked where it returns names.
use flud.Prelude.{
  ℕ, ◌≡◌, ◌≢◌, refl, sym, ap, ◌∙◌, ◌⊎◌, inl, inr, true, false, some, List, [], ◌∷◌, ◌++◌, Result,
  ok, raise, All, Bool-cases, append_assoc, append-nil, if◌then◌else◌, Option-cases, Exc,
}
use flud.Prelude.Int.{pos}
use flud.Fencode.Values.{int_value, same_text, same_text_iff}
use flud.Fencode.Encode.{fencode}
use flud.Tarball.{Member, passed_over, is_named, verify_loop, verify_hashes}

-- The names of the members that are not passed over.
unfoldable pub checked_names : List (List ℕ) → List Member → List (List ℕ)
checked_names ignore_names [] = []
checked_names ignore_names (m ∷ ms) =
    let rest = checked_names ignore_names ms in
    if passed_over ignore_names m then rest else m.name ∷ rest

-- A member that is passed over, or whose name is the encoded hash of its contents.
abbrev pub Right : (List ℕ → ℕ) → List (List ℕ) → Member → Type 0
Right hash ignore_names m =
    (passed_over ignore_names m ≡ true)
    ⊎ ((bytes : List ℕ) × (m.contents ≡ some bytes)
        × (fencode false (int_value (pos (hash bytes))) ≡ ok m.name))

module _ (hash : List ℕ → ℕ) (ignore_names : List (List ℕ)) where
  data Checked (m : Member) : Type 0 where
    over : passed_over ignore_names m ≡ true → Checked m
    wrong : passed_over ignore_names m ≡ false → is_named hash ignore_names m ≡ ok false → Checked m
    fails :
        (e : Exc)
        → passed_over ignore_names m ≡ false
        → is_named hash ignore_names m ≡ raise e
        → Checked m
    right :
        passed_over ignore_names m ≡ false
        → is_named hash ignore_names m ≡ ok true
        → Right hash ignore_names m
        → Checked m

  checked : (m : Member) → Checked m
  unfolding is_named
  checked m = elim (Bool-cases (passed_over ignore_names m)) [
    | inl skip ↦ over skip
    | inr kept ↦ elim (Option-cases m.contents) [
      | inl nothing ↦ wrong kept (rw (is_named, nothing) refl)
      | inr (bytes, there) ↦
          hashed kept bytes there (fencode false (int_value (pos (hash bytes)))) refl
    ]
  ]
    where
      hashed :
          passed_over ignore_names m ≡ false
          → (bytes : List ℕ) → m.contents ≡ some bytes
          → (d : Result (List ℕ)) → fencode false (int_value (pos (hash bytes))) ≡ d
          → Checked m
      hashed kept bytes there (raise e) h = fails e kept (rw (is_named, there, h) refl)
      hashed kept bytes there (ok digest) h = elim (Bool-cases (same_text m.name digest)) [
        | inl same ↦
            let is : m.name ≡ digest = (same_text_iff m.name digest).0 same in
            right kept (rw (is_named, there, h, same) refl) (inr (bytes, there, h ∙ ap ok (sym is)))
        | inr other ↦ wrong kept (rw (is_named, there, h, other) refl)
      ]

  verify_loop-Right :
      (digests : List (List ℕ)) (ms : List Member) (names : List (List ℕ))
      → verify_loop hash ignore_names digests ms ≡ ok names
      → names ≢ []
      → (names ≡ digests ++ checked_names ignore_names ms) × All (Right hash ignore_names) ms
  unfolding verify_loop checked_names
  verify_loop-Right digests [] names e some_names =
      (let same : digests ≡ names = cc in sym same ∙ sym (append-nil digests), tt)
  verify_loop-Right digests (m ∷ ms) names e some_names = elim (checked m) [
    | over skip ↦
        let is : verify_loop hash ignore_names digests (m ∷ ms)
            ≡ verify_loop hash ignore_names digests ms =
          rw (verify_loop, skip) refl in
        let rest = verify_loop-Right digests ms names (sym is ∙ e) some_names in
        let without : checked_names ignore_names (m ∷ ms) ≡ checked_names ignore_names ms =
          rw (checked_names, skip) refl in
        (rest.0 ∙ ap (λ l. digests ++ l) (sym without), (inl skip, rest.1))
    | wrong kept bad ↦
        let is : verify_loop hash ignore_names digests (m ∷ ms) ≡ ok [] =
          rw (verify_loop, kept, bad) refl in
        let empty : [] ≡ names = cc in absurd (some_names (sym empty))
    | fails x kept bad ↦
        let is : verify_loop hash ignore_names digests (m ∷ ms) ≡ raise x =
          rw (verify_loop, kept, bad) refl in
        absurd cc
    | right kept good r ↦
        let is : verify_loop hash ignore_names digests (m ∷ ms)
            ≡ verify_loop hash ignore_names (digests ++ (m.name ∷ [])) ms =
          rw (verify_loop, kept, good) refl in
        let rest = verify_loop-Right (digests ++ (m.name ∷ [])) ms names (sym is ∙ e) some_names in
        let with_it : checked_names ignore_names (m ∷ ms) ≡ m.name ∷ checked_names ignore_names ms =
          rw (checked_names, kept) refl in
        (
          rest.0
              ∙ append_assoc digests (m.name ∷ []) (checked_names ignore_names ms)
              ∙ ap (λ l. digests ++ l) (sym with_it),
          (r, rest.1),
        )
  ]

  -- If `verifyHashes` of a tarball that can be opened returns a list with a name in it, then that
  -- list has, in their order, the names of all the members that it does not pass over, and the name
  -- of each of these is the encoded hash of its contents.
  pub verify_hashes-Right :
      (members : List Member) (names : List (List ℕ))
      → verify_hashes hash ignore_names (some members) ≡ ok names
      → names ≢ []
      → (names ≡ checked_names ignore_names members) × All (Right hash ignore_names) members
  unfolding verify_hashes
  verify_hashes-Right members names e some_names = verify_loop-Right [] members names e some_names
