-- ===== src/Lookup/ValueEnds.antt =====
-- flud/protocol/ClientDHTPrimitives.py: the rounds of `k_find_value`.
use flud.Prelude.{
  ℕ, zero, suc, ◌≤◌, ◌<◌, ◌≡◌, refl, ap, sym, subst, ◌∙◌, ◌⊎◌, inl, inr, true, List, [], ◌∷◌, arith,
  map, Result, ok, raise, elem, length, take, drop, List-cases, Bool-cases, Option, some,
  if◌then◌else◌,
}
use flud.Routing.Node.{Node}
use flud.Lookup.{
  Contact, contact_eq, contact_of, Search, Response, nodes, value, nothing, Turn, more, stop,
  run_batch, alpha, drop_failed, absorb,
}
use flud.Lookup.FindValue.{
  ValueSearch, update_value_state, finish, remember_value, take_values, find_value_loop, result_of,
}
use flud.Lookup.Fields.{count}
use flud.Lookup.Open.{
  is_open, named, Goes, unchanged, Went, Went-cons, Went-nil, Turn-cases, told, told-Closes,
  told-Adds, told_closed,
}
use flud.Lookup.Ends.{progress, Within}

-- A dict has the id of the contact that was asked.
abbrev pub HonestValue : Contact → Result Response → Type 0
HonestValue c (ok (nodes i ns)) = i ≡ c.id
HonestValue c (ok (value v)) = Unit
HonestValue c (ok nothing) = Unit
HonestValue c (raise e) = Unit

-- The network's answers: an honest dict names contacts of `known` only.
pub record ValueAnswers (known : List Contact) (ask : ℕ → Contact → Result Response) : Type 0 where
  pub honest : (r : ℕ) (c : Contact) → HonestValue c (ask r c)
  pub within :
      (r : ℕ) (c x : Contact)
      → elem x (map contact_of (named (ask r c))) ≡ true
      → elem x known ≡ true

value_state_of : Turn ValueSearch (List ℕ) → ValueSearch
value_state_of (more s) = s
value_state_of (stop s v) = s

told-Goes :
    (key : ℕ) (c : Contact) (ns : List Node) (s : Search)
    → Goes c (ok (nodes c.id ns)) s (told key c ns s)
told-Goes key c ns s = record {
  closes = told-Closes key c ns s;
  adds = told-Adds key c ns s;
  moved = inr (told_closed key c ns s);
}

-- What one result leaves.
One : ℕ → (Contact → Result Response) → Contact → List Contact → ValueSearch → Type 0
One key answer c batch s =
    ((u : ValueSearch) × (v : List ℕ) × (take_values key answer (c ∷ batch) s ≡ stop u v))
    ⊎ ((u : ValueSearch) × (take_values key answer (c ∷ batch) s ≡ take_values key answer batch u)
        × ((u.done ≡ true) ⊎ ((u.done ≡ s.done) × Goes c (answer c) s.search u.search)))

one :
    (key : ℕ) (answer : Contact → Result Response) (c : Contact) (batch : List Contact)
    (s : ValueSearch)
    → HonestValue c (answer c)
    → One key answer c batch s
unfolding One take_values update_value_state finish
one key answer c batch s honest = go (answer c) refl
  where
    go : (r : Result Response) → answer c ≡ r → One key answer c batch s
    go (raise e) h = inr (
      record s { search = record (s.search) { kclosest = drop_failed c s.search.kclosest } },
      rw (take_values, h) refl,
      inr (refl, unchanged c (answer c) s.search _ refl refl),
    )
    go (ok (value v)) h = inl (finish (remember_value v s), v, rw (take_values, h) refl)
    go (ok nothing) h = inr (finish s, rw (take_values, h) refl, inl refl)
    go (ok (nodes i ns)) h =
        let own : c.id ≡ i = sym (subst (HonestValue c) h honest) in
        let reached : take_values key answer (c ∷ batch) s
            ≡ take_values key answer batch
                (record s { search = absorb key c.host c.port i ns s.search }) =
          rw (take_values, h) refl in
        let same : absorb key c.host c.port i ns s.search ≡ told key c ns s.search =
          ap (λ j. absorb key c.host c.port j ns s.search) (sym own) in
        let its_own : ok (nodes c.id ns) ≡ answer c = ap (λ j. ok (nodes j ns)) own ∙ sym h in
        inr (
          record s { search = told key c ns s.search },
          reached ∙ ap (λ t. take_values key answer batch (record s { search = t })) same,
          inr (
            refl,
            subst (λ r. Goes c r s.search (told key c ns s.search)) its_own
                (told-Goes key c ns s.search),
          ),
        )

-- What a batch that goes on leaves: the end of the lookup, or a batch as that of `k_find_node`.
take_values-Went :
    (key : ℕ) (answer : Contact → Result Response) (batch : List Contact) (s s' : ValueSearch)
    → ((c : Contact) → HonestValue c (answer c))
    → take_values key answer batch s ≡ more s'
    → (s'.done ≡ true) ⊎ ((s'.done ≡ s.done) × Went batch answer s.search s'.search)
unfolding take_values value_state_of One
take_values-Went key answer [] s s' honest t =
    let same : s ≡ s' = ap value_state_of t in
    inr (
      ap (λ u. u.done) (sym same),
      subst (λ u. Went [] answer s.search u.search) same (Went-nil answer s.search),
    )
take_values-Went key answer (c ∷ batch) s s' honest t = elim (one key answer c batch s (honest c)) [
  | inl (u, v, ended) ↦ absurd cc
  | inr (u, on, how) ↦
      let rest = take_values-Went key answer batch u s' honest (sym on ∙ t) in
      elim how [
        | inl over ↦ elim rest [ inl done ↦ inl done | inr (same, went) ↦ inl (same ∙ over) ]
        | inr (kept, goes) ↦ elim rest [
          | inl done ↦ inl done
          | inr (same, went) ↦
              inr (same ∙ kept, Went-cons answer c batch s.search u.search s'.search goes went)
        ]
      ]
]

-- With enough rounds the loop returns, always the same.
abbrev pub ValueEnds : ℕ → (ℕ → Contact → Result Response) → ℕ → ValueSearch → Type 0
ValueEnds key ask r s =
    (enough : ℕ) × (found : Option (List ℕ)) × ((fuel : ℕ)
      → enough ≤ fuel
      → find_value_loop fuel key ask r s ≡ ok found)

module _ (key : ℕ) (known : List Contact) (ask : ℕ → Contact → Result Response)
    (net : ValueAnswers known ask) where
  -- The batch of a round.
  batch_of : ValueSearch → List Contact
  batch_of s = if s.done then [] else take alpha s.search.pending

  at_round : ℕ → ValueSearch → Contact → List Contact → Turn ValueSearch (List ℕ)
  at_round r s c batch = take_values key (ask r) (c ∷ batch) (record s {
    search = run_batch (c ∷ batch) (record (s.search) { pending = drop alpha s.search.pending });
  })

  loop_over : (r : ℕ) (s : ValueSearch) → batch_of s ≡ [] → ValueEnds key ask r s
  unfolding find_value_loop batch_of
  loop_over r s e = (1, result_of s.values, go)
    where
      go : (fuel : ℕ) → 1 ≤ fuel → find_value_loop fuel key ask r s ≡ ok (result_of s.values)
      go zero h = absurd (omega arith)
      go (suc f) h = rw (e, find_value_loop) refl

  loop_stop :
      (r : ℕ) (s : ValueSearch) (c : Contact) (batch : List Contact) (u : ValueSearch) (v : List ℕ)
      → batch_of s ≡ c ∷ batch
      → at_round r s c batch ≡ stop u v
      → ValueEnds key ask r s
  unfolding find_value_loop batch_of at_round
  loop_stop r s c batch u v e t = (1, some v, go)
    where
      go : (fuel : ℕ) → 1 ≤ fuel → find_value_loop fuel key ask r s ≡ ok (some v)
      go zero h = absurd (omega arith)
      go (suc f) h = rw (e, find_value_loop, t) refl

  loop_more :
      (r : ℕ) (s : ValueSearch) (c : Contact) (batch : List Contact) (s' : ValueSearch)
      → batch_of s ≡ c ∷ batch
      → at_round r s c batch ≡ more s'
      → ValueEnds key ask (suc r) s'
      → ValueEnds key ask r s
  unfolding find_value_loop batch_of at_round
  loop_more r s c batch s' e t later = (suc later.0, later.1, go)
    where
      go : (fuel : ℕ) → suc later.0 ≤ fuel → find_value_loop fuel key ask r s ≡ ok later.1
      go zero h = absurd (omega arith)
      go (suc f) h = rw (e, find_value_loop, t) (later.2 f (omega arith))

  pub ends_values :
      (m l r : ℕ) (s : ValueSearch)
      → count (is_open s.search) known < m
      → length s.search.pending < l
      → Within known s.search
      → ValueEnds key ask r s
  unfolding batch_of at_round
  ends_values zero l r s a b w = absurd (omega arith)
  ends_values (suc m) zero r s a b w = absurd (omega arith)
  ends_values (suc m) (suc l) r s a b w = elim (Bool-cases s.done) [
    | inl over ↦ loop_over r s (rw over refl)
    | inr going ↦ elim (List-cases (take alpha s.search.pending)) [
      | inl e ↦ loop_over r s (rw (going, e) refl)
      | inr (c, batch, e) ↦
          let some_batch : batch_of s ≡ c ∷ batch = rw (going, e) refl in
          elim (Turn-cases (at_round r s c batch)) [
            | inl (u, v, t) ↦ loop_stop r s c batch u v some_batch t
            | inr (s', t) ↦
                loop_more r s c batch s' some_batch t
                  (elim (take_values-Went key (ask r) (c ∷ batch) _ s' (net.honest r) t) [
                    | inl done ↦ loop_over (suc r) s' (rw done refl)
                    | inr (same, went) ↦
                        let (w', fewer, less) =
                          progress known (ask r) (net.within r) s.search s'.search c batch e went
                            w in
                        elim less [
                          | inl closed ↦
                              ends_values m (suc (length s'.search.pending)) (suc r) s'
                                (omega (arith, closed)) (omega arith) w'
                          | inr shorter ↦
                              ends_values (suc m) l (suc r) s' (omega (arith, fewer))
                                (omega (arith, shorter)) w'
                        ]
                  ])
          ]
    ]
  ]
