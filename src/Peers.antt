-- ===== src/Peers.antt =====
-- flud/protocol/FludCommUtil.py: what a node learns of the nodes that it hears of, and the parameters
-- of a request. An id is the number of its text, a key stands for the modulus of its public key, and
-- `id_of` for `FludRSA.id`.
mod Tests
pub mod Sample
pub mod Trust
pub mod Imposter
pub mod Once
use flud.Prelude.{
  ℕ, Bool, true, false, not, Option, none, some, List, [], ◌∷◌, ◌++◌, Result, ok, raise,
  value_error, String, Dict, get, has, put, elem, nat_eq, ◌==◌, ◌>>=◌, if◌then◌else◌, key_error,
  index_error,
}
use flud.Routing.Node.{Node}
use flud.Routing.Table.{Table}
use flud.Routing.Table
use flud.Fencode.Utf8.{utf8_encode, utf8_decode}
use flud.Fencode.Values.{text_eq}
use flud.Config.{Config, Known, add_node}

-- A call of `client.get_id`, with the id that is expected of the host.
pub record Request : Type 0 where
  pub host : String
  pub port : ℕ
  pub expected : Option ℕ

-- The configuration with its `groupIDu`, the keys of `updateNodePendingGETID`, and the requests made.
pub record Peers : Type 0 where
  pub config : Config
  pub group : ℕ
  pub pending : List ℕ
  pub requests : List Request

-- What a call leaves, and whether it returned or raised.
abbrev pub Outcome : Type 0
Outcome = Peers × Result (Unit {0})

abbrev pub and_then : Outcome → (Peers → Outcome) → Outcome
and_then (p, raise e) next = (p, raise e)
and_then (p, ok u) next = next p

-- `del updateNodePendingGETID[nID]` for an id that is there
unfoldable pub forget : ℕ → List ℕ → List ℕ
forget i [] = []
forget i (j ∷ js) = let rest = forget i js in if j == i then rest else j ∷ rest

abbrev pub forget_expected : Option ℕ → List ℕ → List ℕ
forget_expected none pending = pending
forget_expected (some i) pending = forget i pending

-- `config.addNode(nID, host, port, nKu)`
unfoldable pub add_peer : Peers → String → ℕ → ℕ → ℕ → Outcome
add_peer p host port ku i =
    let (c, result) = add_node p.config i host port ku p.group in (record p { config = c }, result)

-- `config.routing.updateNode(node)`, which returns nothing: no node is ever replaced.
unfoldable pub update_routing : Peers → Node → Outcome
update_routing p n = elim (Table.insert_node p.config.routing n) [
  | raise e ↦ (p, raise e)
  | ok (t, oldest) ↦ (record p { config = record (p.config) { routing = t } }, ok tt)
]

-- The rest of `updateNode` for a key and its own id.
unfoldable pub record_node : Peers → String → ℕ → ℕ → ℕ → Outcome
unfolding add_peer update_routing
record_node p host port ku i =
    let known = (if has i p.config.nodes then (p, ok tt) else add_peer p host port ku i) in
    and_then known (λ q. update_routing q (record { host = host; port = port; id = i; ku = ku }))

abbrev pub mismatch : ℕ → Option ℕ → Bool
mismatch own none = false
mismatch own (some i) = not (i == own)

-- The id that is gone on with: the given one, else that of the key.
abbrev pub given : ℕ → Option ℕ → ℕ
given own none = own
given own (some i) = i

-- `updateNode` with a key
unfoldable pub update_with_key : (ℕ → ℕ) → Peers → String → ℕ → ℕ → Option ℕ → Outcome
unfolding forget record_node
update_with_key id_of p host port ku node_id =
    let q : Peers = record p { pending = forget_expected node_id p.pending } in
    if mismatch (id_of ku) node_id
    then (q, raise value_error)
    else record_node q host port ku (given (id_of ku) node_id)

abbrev pub send_get_id : Peers → String → ℕ → Option ℕ → Peers
send_get_id p host port expected = record p {
  requests = p.requests ++ ((record { host = host; port = port; expected = expected }) ∷ []);
}

-- `updateNode` without a key, for an id
unfoldable pub update_by_id : (ℕ → ℕ) → Peers → String → ℕ → ℕ → Outcome
unfolding update_with_key
update_by_id id_of p host port i = elim (get i p.config.nodes) [
  | some known ↦ update_with_key id_of p host port known.ku (some i)
  | none ↦
      if elem i p.pending
      then (p, ok tt)
      else (send_get_id (record p { pending = i ∷ p.pending }) host port (some i), ok tt)
]

-- `updateNode`, with `nKu` and `nID` where they are not `None`
unfoldable pub update_node : (ℕ → ℕ) → Peers → String → ℕ → Option ℕ → Option ℕ → Outcome
unfolding update_with_key update_by_id
update_node id_of p host port (some ku) node_id = update_with_key id_of p host port ku node_id
update_node id_of p host port none (some i) = update_by_id id_of p host port i
update_node id_of p host port none none = (send_get_id p host port none, ok tt)

-- `_handle_get_id`: the key that the host sent, or the exception of the request.
unfoldable pub handle_get_id : (ℕ → ℕ) → Peers → Request → Result ℕ → Outcome
unfolding update_node
handle_get_id id_of p r (raise e) = (p, ok tt)
handle_get_id id_of p r (ok ku) = update_node id_of p r.host r.port (some ku) r.expected

unfoldable pub update_nodes : (ℕ → ℕ) → Peers → List Node → Outcome
unfolding update_node
update_nodes id_of p [] = (p, ok tt)
update_nodes id_of p (n ∷ ns) =
    and_then (update_node id_of p n.host n.port (some n.ku) (some n.id))
      (λ q. update_nodes id_of q ns)

-- The parameters of a request by name, or the name of the first that is missing or unreadable.
pub data Params : Type 0 where
  found : Dict (List ℕ) (List ℕ) → Params
  missing : List ℕ → Params

-- `request.args[key][0].decode("utf-8")`
abbrev pub first_value : Option (List (List ℕ)) → Result (List ℕ)
first_value none = raise key_error
first_value (some []) = raise index_error
first_value (some (v ∷ vs)) = utf8_decode v

unfoldable pub param : Dict (List ℕ) (List (List ℕ)) → List ℕ → Result (List ℕ)
param args name = do key ← utf8_encode name; first_value (get key args)

unfoldable pub collect :
    Dict (List ℕ) (List (List ℕ)) → List (List ℕ) → Dict (List ℕ) (List ℕ) → Params
unfolding param
collect args [] params = found params
collect args (name ∷ names) params = elim (param args name) [
  | raise e ↦ missing name
  | ok v ↦ collect args names (put name v params)
]

-- `requireParams`
unfoldable pub require_params : Dict (List ℕ) (List (List ℕ)) → List (List ℕ) → Params
unfolding collect
require_params args names = collect args names []
