-- ===== src/Lookup/Storing.antt =====
-- flud/protocol/ClientDHTPrimitives.py: `k_store` with its lookup.
use flud.Prelude.{
  ℕ, ◌≤◌, ◌≡◌, refl, sym, ap, subst, ◌⊎◌, inl, inr, true, false, List, [], ◌∷◌, arith, map, String,
  Result, ok, raise, elem, length, All, Exc, runtime_error,
}
use flud.Routing.Node.{Node}
use flud.Lookup.{Contact, contact_eq, contact_of, Response, nodes}
use flud.Lookup.FindNode.{Found, exact, closest, k_find_node}
use flud.Lookup.Store.{k_store, all_stored, nodes_of}
use flud.Lookup.Open.{named}
use flud.Lookup.Ends.{Answers}
use flud.Lookup.Answer.{Good}
use flud.Lookup.Total.{k_find_node-Ends}

-- The nodes of a lookup's result: the closest ones, or those of the answer that is returned.
pub data Lists : Found → List Node → Type 0 where
  of_closest : (ns : List Node) → Lists (closest ns) ns
  of_answer : (responder : ℕ) (ns : List Node) → Lists (exact (nodes responder ns)) ns

module _ (store : Node → Result (List ℕ)) where
  -- The request to store at the node came back.
  abbrev pub Stored : Node → Type 0
  Stored n = (body : List ℕ) × (store n ≡ ok body)

  -- The request to store at one of some nodes raised.
  pub data Loses : List Node → Type 0 where
    here : {n : Node} {ns : List Node} (e : Exc) → store n ≡ raise e → Loses (n ∷ ns)
    later : {n : Node} {ns : List Node} → Loses ns → Loses (n ∷ ns)

  -- What storing at some nodes comes to.
  pub data Stores (ns : List Node) : Result (List ℕ) → Type 0 where
    kept : 1 ≤ length ns → All Stored ns → Stores ns (ok [])
    no_nodes : ns ≡ [] → Stores ns (raise runtime_error)
    lost : Loses ns → Stores ns (raise runtime_error)

  all_stored-cases :
      (ns : List Node)
      → (All Stored ns × (all_stored store ns ≡ true)) ⊎ (Loses ns × (all_stored store ns ≡ false))
  unfolding all_stored
  all_stored-cases [] = inl (tt, refl)
  all_stored-cases (n ∷ ns) = go (store n) refl (all_stored-cases ns)
    where
      go :
          (r : Result (List ℕ))
          → store n ≡ r
          → (All Stored ns × (all_stored store ns ≡ true))
            ⊎ (Loses ns × (all_stored store ns ≡ false))
          → (All Stored (n ∷ ns) × (all_stored store (n ∷ ns) ≡ true))
            ⊎ (Loses (n ∷ ns) × (all_stored store (n ∷ ns) ≡ false))
      go (raise e) h rest = inr (here e h, rw (all_stored, h) refl)
      go (ok body) h (inl (all, t)) = inl (((body, h), all), rw (all_stored, h) t)
      go (ok body) h (inr (loses, f)) = inr (later loses, rw (all_stored, h) f)

  at_closest : (ns : List Node) → Stores ns (k_store store (ok (closest ns)))
  unfolding k_store nodes_of
  at_closest [] = no_nodes refl
  at_closest (n ∷ ns) = elim (all_stored-cases (n ∷ ns)) [
    | inl every ↦ rw every.1 (kept (omega arith) every.0)
    | inr some_lost ↦ rw some_lost.1 (lost some_lost.0)
  ]

  at_answer :
      (responder : ℕ) (ns : List Node) → Stores ns (k_store store (ok (exact (nodes responder ns))))
  unfolding k_store nodes_of
  at_answer responder ns = at_closest ns

  k_store-Lists :
      (found : Found) (ns : List Node) → Lists found ns → Stores ns (k_store store (ok found))
  k_store-Lists _ _ (of_closest ns) = at_closest ns
  k_store-Lists _ _ (of_answer responder ns) = at_answer responder ns

lists :
    (key : ℕ) (P : Node → Type 0) (found : Found)
    → Good key P found
    → (ns : List Node) × Lists found ns
unfolding Good
lists key P (closest ns) good = (ns, of_closest ns)
lists key P (exact r) (i, n, is, same, holds) =
    (n ∷ [], subst (λ r. Lists (exact r) (n ∷ [])) (sym is) (of_answer i (n ∷ [])))

-- `k_store` for every key, where each answer of the network is a dict with the id of the contact
-- that was asked, or an exception, and all the contacts that are named are in a finite list, and
-- for whatever the requests to store come to: from some number of rounds on, its lookup returns,
-- always the same, a dict of exactly one node, with the id that was looked for, or a list of at
-- most 12 nodes by rising distance, of nodes that the network or the own table named; and
-- `k_store` comes to always the same. It returns where there is a node among these and the
-- request to store came back from every one, and raises `RuntimeError` where there is none or one
-- of the requests raised.
pub k_store-Ends :
    (key : ℕ) (P : Node → Type 0) (known : List Contact) (ask : ℕ → Contact → Result Response)
    (localhost : String) (local_port local_id : ℕ) (local_k : List Node)
    (store : Node → Result (List ℕ))
    → Answers known ask
    → ((r : ℕ) (c : Contact) → All P (named (ask r c)))
    → All P local_k
    → ((x : Contact) → elem x (map contact_of local_k) ≡ true → elem x known ≡ true)
    → (enough : ℕ) × (found : Found) × (ns : List Node) × (result : Result (List ℕ)) × ((fuel : ℕ)
        → enough ≤ fuel
        → (k_find_node fuel key ask localhost local_port local_id local_k ≡ ok found)
          × (k_store store (k_find_node fuel key ask localhost local_port local_id local_k)
              ≡ result))
      × Good key P found
      × Lists found ns
      × Stores store ns result
k_store-Ends key P known ask localhost local_port local_id local_k store net told mine inside =
    let (enough, found, runs, good) =
      k_find_node-Ends key P known ask localhost local_port local_id local_k net told mine inside in
    let (ns, gives) = lists key P found good in
    (
      enough,
      found,
      ns,
      k_store store (ok found),
      λ fuel h. (runs fuel h, ap (k_store store) (runs fuel h)),
      good,
      gives,
      k_store-Lists store found ns gives,
    )
