-- ===== src/Lookup/Values.antt =====
-- flud/protocol/ClientDHTPrimitives.py: what `k_find_value` returns, and `k_store`.
use flud.Prelude.{
  ℕ, zero, suc, ◌≡◌, refl, sym, ap, ◌∙◌, subst, ◌⊎◌, inl, inr, Option, none, some, List, [], ◌∷◌,
  String, Result, Exc, ok, raise, List-cases, take, drop, if◌then◌else◌,
}
use flud.Routing.Node.{Node}
use flud.Lookup.{
  Contact, Response, nodes, value, nothing, Turn, more, stop, run_batch, alpha, drop_failed, absorb,
}
use flud.Lookup.FindValue.{
  ValueSearch, update_value_state, take_values, find_value_loop, k_find_value, result_of, finish,
  remember_value,
}
use flud.Lookup.Open.{Turn-cases}

-- Whether the value is an answer.
abbrev pub Answered : Result Response → List ℕ → Type 0
Answered r v = r ≡ ok (value v)

-- A batch that goes on has counted no value, and one that ends the lookup returns an answer of it.
Fair : (Contact → Result Response) → Turn ValueSearch (List ℕ) → Type 0
Fair answer (more s) = s.values ≡ []
Fair answer (stop s v) = (c : Contact) × Answered (answer c) v

-- What a request for a value can come to.
Response-cases :
    (r : Result Response)
    → (((e : Exc) × (r ≡ raise e)) ⊎ (r ≡ ok nothing))
      ⊎ (((v : List ℕ) × (r ≡ ok (value v))) ⊎ ((i : ℕ) × (ns : List Node) × (r ≡ ok (nodes i ns))))
Response-cases (raise e) = inl (inl (e, refl))
Response-cases (ok nothing) = inl (inr refl)
Response-cases (ok (value v)) = inr (inl (v, refl))
Response-cases (ok (nodes i ns)) = inr (inr (i, ns, refl))

take_values-Fair :
    (key : ℕ) (answer : Contact → Result Response) (batch : List Contact) (s : ValueSearch)
    → s.values ≡ []
    → Fair answer (take_values key answer batch s)
unfolding take_values update_value_state Fair
take_values-Fair key answer [] s h = h
take_values-Fair key answer (c ∷ batch) s h = elim (Response-cases (answer c)) [
  | inl quiet ↦ elim quiet [
    | inl failed ↦
        let s' : ValueSearch = record s {
          search = record (s.search) { kclosest = drop_failed c s.search.kclosest };
        } in
        let whole : take_values key answer (c ∷ batch) s ≡ take_values key answer batch s' =
          rw (failed.1, take_values) in
        subst (Fair answer) (sym whole) (take_values-Fair key answer batch s' h)
    | inr empty ↦
        let whole : take_values key answer (c ∷ batch) s ≡ take_values key answer batch (finish s) =
          rw (empty, take_values) in
        subst (Fair answer) (sym whole)
          (take_values-Fair key answer batch (finish s) (unfold finish in h))
  ]
  | inr answered ↦ elim answered [
    | inl found ↦
        let s' = finish (remember_value found.0 s) in
        let whole : take_values key answer (c ∷ batch) s ≡ stop s' found.0 =
          rw (found.1, take_values) in
        subst (Fair answer) (sym whole) (c, found.1)
    | inr told ↦
        let (i, ns, e) = told in
        let s' : ValueSearch = record s { search = absorb key c.host c.port i ns s.search } in
        let whole : take_values key answer (c ∷ batch) s ≡ take_values key answer batch s' =
          rw (e, take_values) in
        subst (Fair answer) (sym whole) (take_values-Fair key answer batch s' h)
  ]
]

-- What a lookup for a value may return: no value, or an answer.
abbrev pub Returned : (ℕ → Contact → Result Response) → Option (List ℕ) → Type 0
Returned ask none = Unit
Returned ask (some v) = (r : ℕ) × (c : Contact) × Answered (ask r c) v

the_same : {a b : Option (List ℕ)} → ok a ≡ ok b → a ≡ b
the_same {a} {b} e = cc

find_value_loop-Returned :
    (fuel key r : ℕ) (ask : ℕ → Contact → Result Response) (s : ValueSearch)
    (result : Option (List ℕ))
    → s.values ≡ []
    → find_value_loop fuel key ask r s ≡ ok result
    → Returned ask result
unfolding find_value_loop
find_value_loop-Returned zero key r ask s result h e = absurd cc
find_value_loop-Returned (suc f) key r ask s result h e =
    elim (List-cases (if s.done then [] else take alpha s.search.pending)) [
      | inl over ↦
          let done : find_value_loop (suc f) key ask r s ≡ ok none =
            rw (over, find_value_loop) (ap (λ d. ok (result_of d)) h) in
          subst (Returned ask) (the_same (sym done ∙ e)) tt
      | inr some_batch ↦
          let (c, batch, left) = some_batch in
          let s0 : ValueSearch = record s {
            search =
                run_batch (c ∷ batch) (record (s.search) { pending = drop alpha s.search.pending });
          } in
          let fair = take_values-Fair key (ask r) (c ∷ batch) s0 h in
          elim (Turn-cases (take_values key (ask r) (c ∷ batch) s0)) [
            | inl ended ↦
                let (u, v, t) = ended in
                let done : find_value_loop (suc f) key ask r s ≡ ok (some v) =
                  rw (left, find_value_loop, t) in
                let by : (d : Contact) × Answered (ask r d) v =
                  unfold Fair in subst (Fair (ask r)) t fair in
                subst (Returned ask) (the_same (sym done ∙ e)) (r, by.0, by.1)
            | inr going ↦
                let (u, t) = going in
                let rounds : find_value_loop (suc f) key ask r s
                    ≡ find_value_loop f key ask (suc r) u =
                  rw (left, find_value_loop, t) in
                find_value_loop-Returned f key (suc r) ask u result
                  (unfold Fair in subst (Fair (ask r)) t fair) (sym rounds ∙ e)
          ]
    ]

value_response : Option (List ℕ) → Result Response
value_response none = ok nothing
value_response (some v) = ok (value v)

-- If `k_find_value` returns a value, then the node itself or a contact that was asked in some
-- round answered with that value.
pub k_find_value-Returned :
    (fuel key : ℕ) (ask : ℕ → Contact → Result Response) (localhost : String) (local_port : ℕ)
    (initial : Result Response) (v : List ℕ)
    → k_find_value fuel key ask localhost local_port initial ≡ ok (some v)
    → Answered initial v ⊎ ((r : ℕ) × (c : Contact) × Answered (ask r c) v)
unfolding k_find_value value_response
k_find_value-Returned fuel key ask localhost local_port (raise x) v e = absurd cc
k_find_value-Returned fuel key ask localhost local_port (ok (value w)) v e =
    inl (unfold update_value_state in ap value_response (the_same e))
k_find_value-Returned fuel key ask localhost local_port (ok nothing) v e = inr (
    find_value_loop-Returned fuel key 0 ask _ (some v) (unfold finish in refl)
      (unfold update_value_state in e))
k_find_value-Returned fuel key ask localhost local_port (ok (nodes i ns)) v e =
    inr (find_value_loop-Returned fuel key 0 ask _ (some v) refl (unfold update_value_state in e))
