-- ===== src/Lookup/Answer.antt =====
-- flud/protocol/ClientDHTPrimitives.py: what `k_find_node` returns.
use flud.Prelude.{
  ℕ, zero, suc, ◌≤◌, ◌≡◌, refl, sym, subst, ◌∙◌, inl, inr, some, List, [], ◌∷◌, arith, String,
  Result, ok, raise, recursion_error, elem, length, take, drop, length-take, All, All-append,
  Bool-cases, Option-cases, List-cases, if◌then◌else◌,
}
use flud.Prelude.Sorting.{sort_by, Sorted, Sorted-take, Sorted-sort_by, All-take, All-sort_by}
use flud.Routing.Node.{Node, node_eq}
use flud.Routing.Table.{distance}
use flud.Lookup.{
  k, Contact, contact_eq, contact_of, same_contact, Search, Response, nodes, value, nothing, Turn,
  more, stop, consider, consider_all, absorb, settle, drop_failed, run_batch, alpha, without,
}
use flud.Lookup.FindNode.{
  Found, take_result, take_results, find_node_loop, update_state, exact_node, exact, closest,
  finished,
}
use flud.Lookup.Open.{named, Honest, Turn-cases, told}
use flud.Lookup.Ends.{Answers}

the_same : {a b : Found} → ok a ≡ ok b → a ≡ b
the_same {a} {b} e = cc

module _ (key : ℕ) (P : Node → Type 0) where
  -- A lookup's result: the only node of an answer, with the id looked for, or at most `k` nodes in the
  -- order of the XOR distance; all of them nodes that were told.
  unfoldable pub Good : Found → Type 0
  Good (exact r) = (i : ℕ) × (n : Node) × (r ≡ nodes i (n ∷ [])) × (n.id ≡ key) × P n
  Good (closest ns) = Sorted (distance key) ns × (length ns ≤ k) × All P ns

  consider-All : (s : Search) (n : Node) → All P s.kclosest → P n → All P (consider s n).kclosest
  unfolding consider
  consider-All s n h p = elim (Bool-cases (elem n s.kclosest)) [
    | inl there ↦ rw there h
    | inr new ↦ rw new (All-append P s.kclosest (n ∷ []) h (p, tt))
  ]

  consider_all-All :
      (s : Search) (ns : List Node)
      → All P s.kclosest
      → All P ns
      → All P (consider_all s ns).kclosest
  unfolding consider_all
  consider_all-All s [] h g = h
  consider_all-All s (n ∷ ns) h g = consider_all-All (consider s n) ns (consider-All s n h g.0) g.1

  absorb-All :
      (host : String) (port i : ℕ) (ns : List Node) (s : Search)
      → All P s.kclosest
      → All P ns
      → All P (absorb key host port i ns s).kclosest
  unfolding absorb settle
  absorb-All host port i ns s h g =
      All-take P k _ (All-sort_by (distance key) P _ (consider_all-All _ ns h g))

  drop_failed-All : (c : Contact) (ns : List Node) → All P ns → All P (drop_failed c ns)
  unfolding drop_failed
  drop_failed-All c [] h = tt
  drop_failed-All c (n ∷ ns) h = elim (Bool-cases (same_contact (contact_of n) c)) [
    | inl failed ↦ rw failed (drop_failed-All c ns h.1)
    | inr stays ↦ rw stays (h.0, drop_failed-All c ns h.1)
  ]

  -- What one result comes to.
  unfoldable pub Kept : Turn Search Response → Type 0
  Kept (more s) = All P s.kclosest
  Kept (stop s r) = Good (exact r)

  exact_id : (m n : Node) → exact_node key (m ∷ []) ≡ some n → m.id ≡ key
  unfolding exact_node
  exact_id m n e = ground (arith, e)

  exact-Good :
      (i : ℕ) (ns : List Node) (n : Node)
      → exact_node key ns ≡ some n
      → All P ns
      → Good (exact (nodes i ns))
  unfolding exact_node Good
  exact-Good i [] n e h = cc
  exact-Good i (m ∷ []) n e h = (i, m, refl, exact_id m n e, h.0)
  exact-Good i (m ∷ o ∷ ns) n e h = cc

  pub update_state-Kept :
      (c : Contact) (r : Response) (s : Search)
      → Honest c (ok r)
      → All P s.kclosest
      → All P (named (ok r))
      → Kept (update_state key r c.host c.port s)
  unfolding update_state Kept
  update_state-Kept c (value v) s o h g = absurd o
  update_state-Kept c nothing s o h g = h
  update_state-Kept c (nodes i ns) s o h g = elim (Option-cases (exact_node key ns)) [
    | inl none_exact ↦
        let c' : Contact = record { host = c.host; port = c.port; id = i } in
        let s0 : Search = record s { outstanding = without c' s.outstanding } in
        let e : update_state key (nodes i ns) c.host c.port s
            ≡ more (absorb key c.host c.port i ns s0) =
          rw (none_exact, update_state) in
        subst Kept (sym e) (absorb-All c.host c.port i ns s0 h g)
    | inr found ↦
        let (n, is_exact) = found in
        let s0 : Search = record s {
          kclosest = if elem n s.kclosest then s.kclosest else take k (n ∷ s.kclosest);
        } in
        let e : update_state key (nodes i ns) c.host c.port s ≡ stop s0 (nodes i ns) =
          rw (is_exact, update_state) in
        subst Kept (sym e) (exact-Good i ns n is_exact g)
  ]

  take_result-Kept :
      (c : Contact) (r : Result Response) (s : Search)
      → Honest c r
      → All P s.kclosest
      → All P (named r)
      → Kept (take_result key c r s)
  unfolding take_result Kept
  take_result-Kept c (raise e) s o h g = drop_failed-All c s.kclosest h
  take_result-Kept c (ok r) s o h g = update_state-Kept c r s o h g

  take_results-Kept :
      (answer : Contact → Result Response) (batch : List Contact) (s : Search)
      → ((c : Contact) → Honest c (answer c))
      → ((c : Contact) → All P (named (answer c)))
      → All P s.kclosest
      → Kept (take_results key answer batch s)
  unfolding take_results Kept
  take_results-Kept answer [] s honest told h = h
  take_results-Kept answer (c ∷ batch) s honest told h =
      let one = take_result-Kept c (answer c) s (honest c) h (told c) in
      elim (Turn-cases (take_result key c (answer c) s)) [
        | inl ended ↦
            let (u, r, e) = ended in
            let whole : take_results key answer (c ∷ batch) s ≡ stop u r = rw (e, take_results) in
            subst Kept (sym whole) (subst Kept e one)
        | inr going ↦
            let (u, e) = going in
            let whole : take_results key answer (c ∷ batch) s ≡ take_results key answer batch u =
              rw (e, take_results) in
            subst Kept (sym whole) (take_results-Kept answer batch u honest told (subst Kept e one))
      ]

  finished-Good : (s : Search) → All P s.kclosest → Good (finished key s)
  unfolding Good
  finished-Good s h =
      let sorted = sort_by (distance key) s.kclosest in
      (
        Sorted-take (distance key) k sorted (Sorted-sort_by (distance key) s.kclosest),
        omega (arith, length-take k sorted),
        All-take P k sorted (All-sort_by (distance key) P s.kclosest h),
      )

  module _ (known : List Contact) (ask : ℕ → Contact → Result Response) (net : Answers known ask)
      (told : (r : ℕ) (c : Contact) → All P (named (ask r c))) where
    pub find_node_loop-Good :
        (fuel r : ℕ) (s : Search) (found : Found)
        → All P s.kclosest
        → find_node_loop fuel key ask r s ≡ ok found
        → Good found
    find_node_loop-Good zero r s found h e =
        let out : find_node_loop 0 key ask r s ≡ raise recursion_error =
          unfold find_node_loop in refl in
        absurd cc
    find_node_loop-Good (suc f) r s found h e = elim (List-cases (take alpha s.pending)) [
      | inl none_left ↦
          let done : find_node_loop (suc f) key ask r s ≡ ok (finished key s) =
            unfold find_node_loop in rw (none_left, find_node_loop) in
          subst Good (the_same (sym done ∙ e)) (finished-Good s h)
      | inr some_batch ↦
          let (c, batch, left) = some_batch in
          let s0 = run_batch (c ∷ batch) (record s { pending = drop alpha s.pending }) in
          let kept =
            take_results-Kept (ask r) (c ∷ batch) s0 (net.honest r) (told r)
              (unfold run_batch in h) in
          elim (Turn-cases (take_results key (ask r) (c ∷ batch) s0)) [
            | inl ended ↦
                let (u, response, t) = ended in
                let done : find_node_loop (suc f) key ask r s ≡ ok (exact response) =
                  unfold find_node_loop in rw (left, find_node_loop, t) in
                subst Good (the_same (sym done ∙ e)) (unfold Kept in subst Kept t kept)
            | inr going ↦
                let (u, t) = going in
                let more_rounds : find_node_loop (suc f) key ask r s
                    ≡ find_node_loop f key ask (suc r) u =
                  unfold find_node_loop in rw (left, find_node_loop, t) in
                find_node_loop-Good f (suc r) u found (unfold Kept in subst Kept t kept)
                  (sym more_rounds ∙ e)
          ]
    ]
