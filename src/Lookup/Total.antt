-- ===== src/Lookup/Total.antt =====
-- flud/protocol/ClientDHTPrimitives.py: `k_find_node` as a whole.
use flud.Prelude.{
  ℕ, suc, ◌≤◌, ◌≡◌, refl, subst, inl, inr, true, List, arith, map, String, Result, ok, elem, length,
  All,
}
use flud.Routing.Node.{Node}
use flud.Lookup.{Contact, contact_eq, contact_of, Response, nodes, start}
use flud.Lookup.FindNode.{Found, exact, k_find_node, update_state, take_result}
use flud.Lookup.Fields.{count}
use flud.Lookup.Open.{is_open, named, Turn-cases, take_result-Goes}
use flud.Lookup.Ends.{Answers, ends}
use flud.Lookup.Answer.{Good, Kept, update_state-Kept, find_node_loop-Good}

-- `k_find_node` for every key, where each answer of the network is a dict with the id of the
-- contact that was asked, or an exception, and all the contacts that are named are in a finite
-- list: from some number of rounds on, the lookup returns, always the same. What it returns is a
-- dict of exactly one node, with the id that was looked for, or a list of at most 12 nodes by
-- rising distance; and what holds for every node that the network or the own table named holds
-- for these.
pub k_find_node-Ends :
    (key : ℕ) (P : Node → Type 0) (known : List Contact) (ask : ℕ → Contact → Result Response)
    (localhost : String) (local_port local_id : ℕ) (local_k : List Node)
    → Answers known ask
    → ((r : ℕ) (c : Contact) → All P (named (ask r c)))
    → All P local_k
    → ((x : Contact) → elem x (map contact_of local_k) ≡ true → elem x known ≡ true)
    → (enough : ℕ) × (found : Found) × ((fuel : ℕ)
        → enough ≤ fuel
        → k_find_node fuel key ask localhost local_port local_id local_k ≡ ok found)
      × Good key P found
unfolding k_find_node Kept
k_find_node-Ends key P known ask localhost local_port local_id local_k net told mine inside =
    let me : Contact = record { host = localhost; port = local_port; id = local_id } in
    let first = update_state key (nodes local_id local_k) localhost local_port start in
    let kept = update_state-Kept key P me (nodes local_id local_k) start refl tt mine in
    elim (Turn-cases first) [
      | inl ended ↦
          let (s, response, e) = ended in
          (0, exact response, λ fuel h. rw (e, k_find_node), subst (Kept key P) e kept)
      | inr going ↦
          let (s, e) = going in
          let goes =
            take_result-Goes key me (ok (nodes local_id local_k)) start s refl
              (unfold take_result in e) in
          let within : (x : Contact) → elem x s.pending ≡ true → elem x known ≡ true = λ x h.
            elim (goes.adds x h) [
              | inl old ↦ absurd (unfold elem in cc)
              | inr new ↦ inside x new
            ] in
          let (enough, found, runs) =
            ends key known ask net (suc (count (is_open s) known)) (suc (length s.pending)) 0 s
              (omega arith) (omega arith) within in
          (
            enough,
            found,
            λ fuel h. rw (e, k_find_node) (runs fuel h),
            find_node_loop-Good key P known ask net told enough 0 s found
                (subst (Kept key P) e kept) (runs enough (omega arith)),
          )
    ]
