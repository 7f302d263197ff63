-- ===== src/Server/Meta.antt =====
-- flud/protocol/AiohttpServer.py: the requests of the DHT, `_handle_id`, `_handle_nodes_get`,
-- `_handle_meta_put` and `_handle_meta_get`. A key that comes in a path is the name of a file.
use flud.Prelude.{
  ℕ, false, ◌&&◌, Option, none, some, List, [], ◌∷◌, ◌++◌, Result, ok, raise, type_error, key_error,
  String, Dict, get, put, elem, length, ltb, ◌>>=◌, if◌then◌else◌,
}
use flud.Prelude.Int.{pos}
use flud.Fencode.Values.{
  Value, str_value, bytes_value, int_value, dict_value, entry, end, same_text,
}
use flud.Fencode.Encode.{fencode}
use flud.Fencode.Decode.{fdecode, depth, put_entry}
use flud.Fencode.Utf8.{utf8_encode}
use flud.BlockFile.Accounting.{get_entry}
use flud.Routing.Node.{Node, same_node, node_eq}
use flud.Routing.Table.{find_closest, known_external_nodes}
use flud.Fencode.Values.{text_eq}
use flud.Peers.{found, missing, require_params, update_node}
use flud.Server.Auth.{Server, Library}

-- What these requests use besides: `int` of a text, `FludRSA.importPublicKey` of an exponent and a
-- modulus, the text of an id, and `random.choice`.
pub record Tools : Type 0 where
  pub library : Library
  pub read_int : List ℕ → Result ℕ
  pub import_key : ℕ → ℕ → Result ℕ
  pub id_text : ℕ → List ℕ
  pub choice : List Node → Node

-- What a response says: one of the fixed texts, with the name of the parameter that is missing, the
-- node's own key, the file's contents, or the node's id with nodes.
pub data Told : Type 0 where
  parameter_missing : List ℕ → Told
  key_mismatch nothing_told own_key : Told
  contents : List ℕ → Told
  closest_nodes : List Node → Told

pub record Answer : Type 0 where
  pub status : ℕ
  pub told : Told

abbrev pub answer : ℕ → Told → Answer
answer status told = record { status = status; told = told }

abbrev pub node_id_name : List ℕ
node_id_name = b'n' ∷ b'o' ∷ b'd' ∷ b'e' ∷ b'I' ∷ b'D' ∷ []

abbrev pub ku_e_name : List ℕ
ku_e_name = b'K' ∷ b'u' ∷ b'_' ∷ b'e' ∷ []

abbrev pub ku_n_name : List ℕ
ku_n_name = b'K' ∷ b'u' ∷ b'_' ∷ b'n' ∷ []

abbrev pub port_name : List ℕ
port_name = b'p' ∷ b'o' ∷ b'r' ∷ b't' ∷ []

-- `params[name]`
abbrev pub at_name : List ℕ → Dict (List ℕ) (List ℕ) → Result (List ℕ)
at_name name params = elim (get name params) [ none ↦ raise key_error | some v ↦ ok v ]

-- Who asks: a request that is refused, or a key, with the text of its id and that of the port.
pub data Identified : Type 0 where
  refused : Answer → Identified
  identified : ℕ → List ℕ → List ℕ → Identified

unfoldable pub identify_key : Tools → Dict (List ℕ) (List ℕ) → Result Identified
unfolding same_text
identify_key tools params = do
  e_text ← at_name ku_e_name params
  e ← tools.read_int e_text
  n_text ← at_name ku_n_name params
  n ← tools.read_int n_text
  ku ← tools.import_key e n
  node_id ← at_name node_id_name params
  port ← at_name port_name params
  if same_text (tools.id_text (tools.library.id_of ku)) node_id
      then ok (identified ku node_id port)
      else ok (refused (answer 400 key_mismatch))

-- The common beginning of the four.
unfoldable pub identify : Tools → Dict (List ℕ) (List (List ℕ)) → Result Identified
unfolding require_params identify_key
identify tools query =
    elim (require_params query (node_id_name ∷ ku_e_name ∷ ku_n_name ∷ port_name ∷ [])) [
      | missing name ↦ ok (refused (answer 400 (parameter_missing name)))
      | found params ↦ identify_key tools params
    ]

-- `updateNode` of the requester
unfoldable pub greet : Tools → String → ℕ → List ℕ → Server → Server × Result (Unit {0})
unfolding update_node
greet tools host ku port_text s = elim (tools.read_int port_text) [
  | raise e ↦ (s, raise e)
  | ok port ↦
      let i = tools.library.id_of ku in
      let (p, result) = update_node tools.library.id_of s.peers host port (some ku) (some i) in
      (record s { peers = p }, result)
]

-- What a handler leaves, and its response or exception.
abbrev pub Handled : Type 0
Handled = Server × Result Answer

-- The rest of a handler after `updateNode`.
abbrev pub greeted : Server × Result (Unit {0}) → (Server → Handled) → Handled
greeted (s, raise e) rest = (s, raise e)
greeted (s, ok u) rest = rest s

-- A handler of a requester with a key and the text of its id, behind the common beginning.
unfoldable pub handle :
    Tools → String → Dict (List ℕ) (List (List ℕ)) → (List ℕ → Server → Handled) → Server → Handled
unfolding identify greet
handle tools host query rest s = elim (identify tools query) [
  | raise e ↦ (s, raise e)
  | ok (refused r) ↦ (s, ok r)
  | ok (identified ku node_id port) ↦ greeted (greet tools host ku port s) (rest node_id)
]

unfoldable pub handle_id : Tools → String → Dict (List ℕ) (List (List ℕ)) → Server → Handled
unfolding handle
handle_id tools host query s = handle tools host query (λ node_id t. (t, ok (answer 200 own_key))) s

-- An id that `findNode` can take. A negative number, which it takes too, is the id of no node, and is
-- left out.
abbrev pub as_id : Value → Result ℕ
as_id (int_value (pos n)) = ok n
as_id _ = raise type_error

unfoldable pub closest_to : List ℕ → Server → Result (List Node)
unfolding find_closest
closest_to key s = do
  v ← fdecode (depth 1) (str_value key)
  i ← as_id v
  find_closest s.peers.config.routing i

-- `set(knownExternalNodes()) - set(kclosest)`, in the order of the list
unfoldable pub not_close : List Node → List Node → List Node
unfolding same_node
not_close close [] = []
not_close close (n ∷ ns) = let rest = not_close close ns in if elem n close then rest else n ∷ rest

unfoldable pub nodes_told : Tools → List ℕ → Server → Result (List Node)
unfolding closest_to not_close
nodes_told tools key s = do
  close ← closest_to key s
  known ← known_external_nodes s.peers.config.routing
  let others = not_close close known
  ok (
      if ltb 0 (length others) && ltb 1 (length close)
      then close ++ (tools.choice others ∷ [])
      else close)

-- The nodes are looked up before the requester is added.
unfoldable pub handle_nodes_get :
    Tools → String → Dict (List ℕ) (List (List ℕ)) → List ℕ → Server → Handled
unfolding identify greet nodes_told
handle_nodes_get tools host query key s = elim (identify tools query) [
  | raise e ↦ (s, raise e)
  | ok (refused r) ↦ (s, ok r)
  | ok (identified ku node_id port) ↦ elim (nodes_told tools key s) [
    | raise e ↦ (s, raise e)
    | ok ns ↦ greeted (greet tools host ku port s) (λ t. (t, ok (answer 200 (closest_nodes ns))))
  ]
]

-- `fencode(…).encode("utf-8")`
unfoldable pub encoded : Value → Result (List ℕ)
encoded v = do text ← fencode false v; utf8_encode text

abbrev pub save : List ℕ → List ℕ → Server → Server
save key bytes s = record s { kstore = put key bytes s.kstore }

-- The file is opened, and emptied, before the value is encoded.
unfoldable pub put_meta : List ℕ → List ℕ → Server → Handled
unfolding encoded same_text
put_meta key val s = elim (fdecode (depth 1) (str_value val)) [
  | raise e ↦ (s, raise e)
  | ok md ↦ elim (encoded md) [
    | raise e ↦ (save key [] s, raise e)
    | ok bytes ↦ (save key bytes s, ok (answer 200 nothing_told))
  ]
]

unfoldable pub handle_meta_put :
    Tools → String → Dict (List ℕ) (List (List ℕ)) → List ℕ → List ℕ → Server → Handled
unfolding handle put_meta
handle_meta_put tools host query key val s =
    handle tools host query (λ node_id t. put_meta key val t) s

abbrev pub b_key : Value
b_key = str_value (b'b' ∷ [])

-- What a requester gets of a value: of a dict with its own id, that and the entry `b`.
unfoldable pub part_for : List ℕ → Value → Result Value
unfolding get_entry put_entry
part_for node_id (dict_value es) = elim (get_entry (str_value node_id) es) [
  | none ↦ ok (dict_value es)
  | some own ↦ elim (get_entry b_key es) [
    | none ↦ raise key_error
    | some b ↦ ok (dict_value (put_entry (str_value node_id) own (entry b_key b end)))
  ]
]
part_for node_id d = ok d

unfoldable pub told_of : List ℕ → List ℕ → Server → Option (List ℕ) → Result Told
unfolding part_for encoded closest_to
told_of node_id key s none = do ns ← closest_to key s; ok (closest_nodes ns)
told_of node_id key s (some []) = ok nothing_told
told_of node_id key s (some (c ∷ bytes)) = do
  d ← fdecode (depth 1) (bytes_value (c ∷ bytes))
  resp ← part_for node_id d
  body ← encoded resp
  ok (contents body)

unfoldable pub get_meta : List ℕ → List ℕ → Server → Result Answer
unfolding told_of same_text
get_meta node_id key s = do told ← told_of node_id key s (get key s.kstore); ok (answer 200 told)

unfoldable pub handle_meta_get :
    Tools → String → Dict (List ℕ) (List (List ℕ)) → List ℕ → Server → Handled
unfolding handle get_meta
handle_meta_get tools host query key s =
    handle tools host query (λ node_id t. (t, get_meta node_id key t)) s
