-- ===== src/Lookup/Ends.antt =====
-- flud/protocol/ClientDHTPrimitives.py: the rounds of `k_find_node`.
use flud.Prelude.{
  ℕ, zero, suc, ◌≤◌, ◌<◌, ◌≡◌, ap, ◌∙◌, ◌⊎◌, inl, inr, true, List, [], ◌∷◌, arith, map, Result, ok,
  elem, nat_eq, length, take, drop, length-drop, length-take, List-cases,
}
use flud.Lookup.{Contact, contact_eq, contact_of, Search, Response, more, stop, run_batch, alpha}
use flud.Lookup.FindNode.{Found, take_results, find_node_loop, exact, finished}
use flud.Lookup.Fields.{elem-drop, elem-take, count, count-le, count-lt}
use flud.Lookup.Open.{is_open, Closes, Honest, named, take_results-Went, Turn-cases, Went}

-- The network's answers: a dict has the id of the contact that was asked, and names contacts of
-- `known` only.
pub record Answers (known : List Contact) (ask : ℕ → Contact → Result Response) : Type 0 where
  pub honest : (r : ℕ) (c : Contact) → Honest c (ask r c)
  pub within :
      (r : ℕ) (c x : Contact)
      → elem x (map contact_of (named (ask r c))) ≡ true
      → elem x known ≡ true

abbrev pub Within : List Contact → Search → Type 0
Within known s = (x : Contact) → elem x s.pending ≡ true → elem x known ≡ true

-- With enough rounds the loop returns, always the same.
abbrev pub Ends : ℕ → (ℕ → Contact → Result Response) → ℕ → Search → Type 0
Ends key ask r s =
    (enough : ℕ) × (found : Found) × ((fuel : ℕ)
      → enough ≤ fuel
      → find_node_loop fuel key ask r s ≡ ok found)

-- What a batch leaves that goes on: the contacts stay known, and either fewer of them are open, or no
-- more are and the list of pending ones is shorter.
pub progress :
    (known : List Contact) (answer : Contact → Result Response)
    → ((c x : Contact) → elem x (map contact_of (named (answer c))) ≡ true → elem x known ≡ true)
    → (s s' : Search) (c : Contact) (batch : List Contact) → take alpha s.pending ≡ c ∷ batch
    → Went
        (c ∷ batch)
        answer
        (run_batch (c ∷ batch) (record s { pending = drop alpha s.pending }))
        s'
    → Within known s
    → Within known s'
      × (count (is_open s') known ≤ count (is_open s) known)
      × ((count (is_open s') known < count (is_open s) known)
          ⊎ (length s'.pending < length s.pending))
unfolding run_batch
progress known answer told s s' c batch e went inside =
    let shuts : Closes s s' = λ x o. ground (arith, went.closes x o, elem-drop alpha x s.pending) in
    let size = ap length e in
    (
      (λ x h. elim (went.adds x h) [
        | inl old ↦ inside x (elem-drop alpha x s.pending old)
        | inr new ↦ told new.0 x new.1
      ]),
      count-le (is_open s') (is_open s) shuts known,
      elim went.moved [
        | inl quiet ↦ inr (
            omega (
              arith,
              ap length quiet,
              length-drop alpha s.pending,
              size,
              length-take alpha s.pending,
            ))
        | inr past ↦
            let (d, asked, shut) = past in
            let waiting : elem d s.pending ≡ true =
              elem-take alpha d s.pending (ap (elem d) e ∙ asked) in
            inl (
              count-lt (is_open s') (is_open s) shuts d known (inside d waiting)
                (ground (arith, waiting)) shut)
      ],
    )

module _ (key : ℕ) (known : List Contact) (ask : ℕ → Contact → Result Response)
    (net : Answers known ask) where
  round_empty : (r : ℕ) (s : Search) → take alpha s.pending ≡ [] → Ends key ask r s
  unfolding find_node_loop
  round_empty r s e = (1, finished key s, go)
    where
      go : (fuel : ℕ) → 1 ≤ fuel → find_node_loop fuel key ask r s ≡ ok (finished key s)
      go zero h = absurd (omega arith)
      go (suc f) h = rw (e, find_node_loop)

  round_stop :
      (r : ℕ) (s : Search) (c : Contact) (batch : List Contact) (u : Search) (response : Response)
      → take alpha s.pending ≡ c ∷ batch
      → take_results key
          (ask r)
          (c ∷ batch)
          (run_batch (c ∷ batch) (record s { pending = drop alpha s.pending }))
        ≡ stop u response
      → Ends key ask r s
  unfolding find_node_loop
  round_stop r s c batch u response e t = (1, exact response, go)
    where
      go : (fuel : ℕ) → 1 ≤ fuel → find_node_loop fuel key ask r s ≡ ok (exact response)
      go zero h = absurd (omega arith)
      go (suc f) h = rw (e, find_node_loop, t)

  round_more :
      (r : ℕ) (s : Search) (c : Contact) (batch : List Contact) (s' : Search)
      → take alpha s.pending ≡ c ∷ batch
      → take_results key
          (ask r)
          (c ∷ batch)
          (run_batch (c ∷ batch) (record s { pending = drop alpha s.pending }))
        ≡ more s'
      → Ends key ask (suc r) s'
      → Ends key ask r s
  unfolding find_node_loop
  round_more r s c batch s' e t later = (suc later.0, later.1, go)
    where
      go : (fuel : ℕ) → suc later.0 ≤ fuel → find_node_loop fuel key ask r s ≡ ok later.1
      go zero h = absurd (omega arith)
      go (suc f) h = rw (e, find_node_loop, t) (later.2 f (omega arith))

  pub ends :
      (m l r : ℕ) (s : Search)
      → count (is_open s) known < m
      → length s.pending < l
      → Within known s
      → Ends key ask r s
  ends zero l r s a b w = absurd (omega arith)
  ends (suc m) zero r s a b w = absurd (omega arith)
  ends (suc m) (suc l) r s a b w = elim (List-cases (take alpha s.pending)) [
    | inl e ↦ round_empty r s e
    | inr some_batch ↦
        let (c, batch, e) = some_batch in
        elim (Turn-cases (
          take_results key (ask r) (c ∷ batch)
            (run_batch (c ∷ batch) (record s { pending = drop alpha s.pending })))) [
              | inl ended ↦ round_stop r s c batch ended.0 ended.1 e ended.2
              | inr going ↦
                  let (s', t) = going in
                  let (w', fewer, less) =
                    progress known (ask r) (net.within r) s s' c batch e
                      (take_results-Went key (ask r) (c ∷ batch) _ s' (net.honest r) t) w in
                  round_more r s c batch s' e t (elim less [
                    | inl closed ↦
                        ends m (suc (length s'.pending)) (suc r) s' (omega (arith, closed))
                          (omega arith) w'
                    | inr shorter ↦
                        ends (suc m) l (suc r) s' (omega (arith, fewer)) (omega (arith, shorter)) w'
                  ])
            ]
  ]
