-- ===== src/Lookup/FindNode.antt =====
-- flud/protocol/ClientDHTPrimitives.py: `k_find_node`.
use flud.Prelude.{
  ℕ, zero, suc, String, Option, none, some, List, [], ◌∷◌, Result, ok, raise, recursion_error, elem,
  nat_eq, ◌==◌, take, drop, if◌then◌else◌,
}
use flud.Prelude.Sorting.{sort_by}
use flud.Routing.Node.{Node, node_eq, same_node}
use flud.Routing.Table.{distance}
use flud.Lookup.{
  k, alpha, Turn, Contact, Response, Search, start, without, absorb, drop_failed, run_batch, more,
  stop, nodes, value, nothing,
}

-- The first test of `_update_state`: a list of one node, with the id that is looked for.
unfoldable pub exact_node : ℕ → List Node → Option Node
exact_node key [] = none
exact_node key (n ∷ []) = if n.id == key then some n else none
exact_node key (n ∷ m ∷ ns) = none

-- `_update_state` of `k_find_node`: the response, where it ends the lookup.
unfoldable pub update_state : ℕ → Response → String → ℕ → Search → Turn Search Response
unfolding exact_node absorb same_node without
update_state key (value v) host port s = stop s (value v)
update_state key nothing host port s = more s
update_state key (nodes responder ns) host port s = elim (exact_node key ns) [
  | some n ↦
      stop
        (record s { kclosest = if elem n s.kclosest then s.kclosest else take k (n ∷ s.kclosest) })
        (nodes responder ns)
  | none ↦
      let c : Contact = record { host = host; port = port; id = responder } in
      more (absorb key host port responder ns (record s { outstanding = without c s.outstanding }))
]

-- What the loop over `zip(batch, results)` does with one result.
unfoldable pub take_result : ℕ → Contact → Result Response → Search → Turn Search Response
unfolding update_state drop_failed
take_result key c (raise e) s = more (record s { kclosest = drop_failed c s.kclosest })
take_result key c (ok response) s = update_state key response c.host c.port s

-- The loop, which returns at an exact response.
unfoldable pub take_results :
    ℕ → (Contact → Result Response) → List Contact → Search → Turn Search Response
unfolding take_result
take_results key answer [] s = more s
take_results key answer (c ∷ batch) s = elim (take_result key c (answer c) s) [
  | stop s' response ↦ stop s' response
  | more s' ↦ take_results key answer batch s'
]

-- What a lookup returns: an exact response, or `{'k': …}`.
pub data Found : Type 0 where
  exact : Response → Found
  closest : List Node → Found

abbrev pub finished : ℕ → Search → Found
finished key s = closest (take k (sort_by (distance key) s.kclosest))

-- The `while` loop of `k_find_node`, with fuel for the rounds.
unfoldable pub find_node_loop : ℕ → ℕ → (ℕ → Contact → Result Response) → ℕ → Search → Result Found
unfolding take_results run_batch
find_node_loop zero key ask round s = raise recursion_error
find_node_loop (suc f) key ask round s = elim (take alpha s.pending) [
  | [] ↦ ok (finished key s)
  | c ∷ batch ↦
      elim (take_results key (ask round) (c ∷ batch)
        (run_batch (c ∷ batch) (record s { pending = drop alpha s.pending }))) [
          | stop s' response ↦ ok (exact response)
          | more s' ↦ find_node_loop f key ask (suc round) s'
        ]
]

-- `local_k` is what the node's own routing table answers.
unfoldable pub k_find_node :
    ℕ → ℕ → (ℕ → Contact → Result Response) → String → ℕ → ℕ → List Node → Result Found
unfolding find_node_loop
k_find_node fuel key ask localhost local_port local_id local_k =
    elim (update_state key (nodes local_id local_k) localhost local_port start) [
      | stop s response ↦ ok (exact response)
      | more s ↦ find_node_loop fuel key ask 0 s
    ]
