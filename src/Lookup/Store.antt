-- ===== src/Lookup/Store.antt =====
-- flud/protocol/ClientDHTPrimitives.py: `k_store`.
use flud.Prelude.{
  ℕ, Bool, true, false, List, [], ◌∷◌, Result, ok, raise, runtime_error, type_error, nat_eq, ◌>>=◌,
  if◌then◌else◌,
}
use flud.Routing.Node.{Node, node_eq}
use flud.Lookup.{nodes, value, nothing}
use flud.Lookup.FindNode.{Found, exact, closest}

-- Whether every request of `k_store` came back.
unfoldable pub all_stored : (Node → Result (List ℕ)) → List Node → Bool
all_stored store [] = true
all_stored store (n ∷ ns) =
    let rest = all_stored store ns in elim (store n) [ ok body ↦ rest | raise e ↦ false ]

-- `knodes['k']`
unfoldable pub nodes_of : Found → Result (List Node)
nodes_of (closest ns) = ok ns
nodes_of (exact (nodes responder ns)) = ok ns
nodes_of (exact (value v)) = raise type_error
nodes_of (exact nothing) = raise type_error

-- `k_store` after `k_find_node`: all the requests are made before any result is looked at.
unfoldable pub k_store : (Node → Result (List ℕ)) → Result Found → Result (List ℕ)
unfolding all_stored nodes_of
k_store store found = do
  knodes ← found
  ns ← nodes_of knodes
  elim ns [
    | [] ↦ raise runtime_error
    | n ∷ rest ↦ if all_stored store (n ∷ rest) then ok [] else raise runtime_error
  ]
