-- ===== src/Lookup/ValueTotal.antt =====
-- flud/protocol/ClientDHTPrimitives.py: what `k_find_value` comes to.
use flud.Prelude.{
  ℕ, suc, ◌≤◌, ◌≡◌, refl, ◌⊎◌, inl, inr, true, false, List, [], arith, map, String, Result, ok,
  elem, length, Option, none, some,
}
use flud.Lookup.{Contact, contact_eq, contact_of, start, Response, nodes, value, nothing}
use flud.Lookup.FindValue.{update_value_state, finish, k_find_value}
use flud.Lookup.Fields.{count}
use flud.Lookup.Open.{is_open, named, told, told-Adds}
use flud.Lookup.ValueEnds.{ValueAnswers, ends_values}
use flud.Lookup.Values.{k_find_value-Returned, Answered}

-- A value that the node itself or a contact that was asked answered with, or none.
abbrev pub Given : (ℕ → Contact → Result Response) → Response → Option (List ℕ) → Type 0
Given ask response none = Unit
Given ask response (some v) =
    Answered (ok response) v ⊎ ((r : ℕ) × (c : Contact) × Answered (ask r c) v)

module _ (key : ℕ) (known : List Contact) (ask : ℕ → Contact → Result Response) (localhost : String)
    (local_port : ℕ) (net : ValueAnswers known ask) where
  Returns : Response → Type 0
  Returns response =
      (enough : ℕ) × (found : Option (List ℕ)) × ((fuel : ℕ)
        → enough ≤ fuel
        → k_find_value fuel key ask localhost local_port (ok response) ≡ ok found)

  returns :
      (response : Response)
      → ((x : Contact) → elem x (map contact_of (named (ok response))) ≡ true → elem x known ≡ true)
      → Returns response
  unfolding Returns k_find_value update_value_state finish
  returns (value v) inside = (0, some v, λ fuel h. refl)
  returns nothing inside =
      ends_values key known ask net (suc (count (is_open start) known)) 1 0
        (record { search = start; done = true; values = [] }) (omega arith) (omega arith)
        (λ x h. absurd (unfold elem in cc))
  returns (nodes i ns) inside =
      let me : Contact = record { host = localhost; port = local_port; id = i } in
      let s = told key me ns start in
      ends_values key known ask net (suc (count (is_open s) known)) (suc (length s.pending)) 0
        (record { search = s; done = false; values = [] }) (omega arith) (omega arith)
        (λ x h. elim (told-Adds key me ns start x h) [
          | inl old ↦ absurd (unfold elem in cc)
          | inr new ↦ inside x new
        ])

  given :
      (response : Response) (fuel : ℕ) (found : Option (List ℕ))
      → k_find_value fuel key ask localhost local_port (ok response) ≡ ok found
      → Given ask response found
  given response fuel none e = tt
  given response fuel (some v) e =
      k_find_value-Returned fuel key ask localhost local_port (ok response) v e

  -- `k_find_value` for every key, where each answer of the network is a dict with the id of the
  -- contact that was asked, a value, nothing or an exception, all the contacts that are named are
  -- in a finite list, and the request to the node itself does not raise: from some number of rounds
  -- on, the lookup returns, always the same. If it returns a value, then the node itself or a
  -- contact that was asked answered with that value.
  pub k_find_value-Ends :
      (response : Response)
      → ((x : Contact) → elem x (map contact_of (named (ok response))) ≡ true → elem x known ≡ true)
      → (enough : ℕ) × (found : Option (List ℕ)) × ((fuel : ℕ)
          → enough ≤ fuel
          → k_find_value fuel key ask localhost local_port (ok response) ≡ ok found)
        × Given ask response found
  unfolding Returns
  k_find_value-Ends response inside =
      let (enough, found, runs) = returns response inside in
      (enough, found, runs, given response enough found (runs enough (omega arith)))
