-- ===== src/BlockFile/Accounting.antt =====
-- flud/protocol/BlockFile.py: the accounting of a block file, a dict from node ids to `None` or to a
-- dict of metadata. An accounting that is not a dict raises where a dict is needed.
use flud.Prelude.{
  Bool, true, false, not, Option, none, some, [], ◌∷◌, Result, ok, raise, type_error, io_error,
  ◌==◌, ◌>>=◌, if◌then◌else◌,
}
use flud.Prelude.Int.{pos, negsuc}
use flud.Fencode.Values.{
  Value, none_value, bool_value, int_value, bytes_value, str_value, fencoded_value, list_value,
  tuple_value, dict_value, nil, cons, Entries, end, entry, same_key, hashable,
}
use flud.Fencode.Decode.{set_item}

unfoldable pub as_dict : Value → Result Entries
as_dict (dict_value es) = ok es
as_dict _ = raise type_error

-- The dict where a key is looked up, which raises for a key without a hash.
unfoldable pub dict_for : Value → Value → Result Entries
unfolding as_dict hashable
dict_for k v = do es ← as_dict v; if hashable k then ok es else raise type_error

unfoldable pub get_entry : Value → Entries → Option Value
get_entry k end = none
get_entry k (entry j v es) = if same_key j k then some v else get_entry k es

unfoldable pub remove_entry : Value → Entries → Entries
remove_entry k end = end
remove_entry k (entry j v es) = if same_key j k then es else entry j v (remove_entry k es)

-- `bool(v)` of a value
unfoldable pub truthy : Value → Bool
truthy none_value = false
truthy (bool_value b) = b
truthy (int_value (pos n)) = not (n == 0)
truthy (int_value (negsuc n)) = true
truthy (bytes_value []) = false
truthy (bytes_value (b ∷ bs)) = true
truthy (str_value []) = false
truthy (str_value (c ∷ s)) = true
truthy (list_value nil) = false
truthy (list_value (cons x xs)) = true
truthy (tuple_value nil) = false
truthy (tuple_value (cons x xs)) = true
truthy (dict_value end) = false
truthy (dict_value (entry k v es)) = true
truthy (fencoded_value d) = true

-- `for key in meta: self._accounting[nodeID][key] = meta[key]`
unfoldable pub merge : Entries → Entries → Result Entries
merge end old = ok old
merge (entry k v meta) old = do old' ← set_item k v old; merge meta old'

-- The body of `addNode` after the test of the mode. A dict of metadata is the caller's own, which it
-- does not change later.
unfoldable pub put_node : Value → Value → Value → Result Value
unfolding as_dict dict_for get_entry merge
put_node node_id none_value accounting = do
  es ← dict_for node_id accounting
  es' ← set_item node_id none_value es
  ok (dict_value es')
put_node node_id (dict_value meta) accounting = do
  es ← dict_for node_id accounting
  elim (get_entry node_id es) [
    | none ↦ do es' ← set_item node_id (dict_value meta) es; ok (dict_value es')
    | some none_value ↦ do es' ← set_item node_id (dict_value meta) es; ok (dict_value es')
    | some old ↦ do
      es0 ← as_dict old
      es1 ← merge meta es0
      es2 ← set_item node_id (dict_value es1) es
      ok (dict_value es2)
  ]
put_node node_id _ accounting = raise io_error

unfoldable pub has_node : Value → Value → Result Bool
has_node node_id accounting = do
  es ← dict_for node_id accounting
  ok (elim (get_entry node_id es) [ none ↦ false | some m ↦ true ])

-- `meta`, which answers `False` for a node that is not there
unfoldable pub meta : Value → Value → Result Value
meta node_id accounting = do
  es ← dict_for node_id accounting
  ok (elim (get_entry node_id es) [ none ↦ bool_value false | some m ↦ m ])

-- What `delNode` leaves of a node's metadata.
unfoldable pub without : Value → Value → Result Value
unfolding truthy remove_entry
without metakey m =
    if truthy metakey
    then (do es ← dict_for metakey m; ok (dict_value (remove_entry metakey es)))
    else ok (dict_value end)

-- The accounting with what is left of the node's metadata, or without the node.
abbrev pub put_left : Value → Entries → Value → Result Value
put_left node_id es m' =
    if truthy m'
    then (do es' ← set_item node_id m' es; ok (dict_value es'))
    else ok (dict_value (remove_entry node_id es))

abbrev pub drop_found : Value → Value → Entries → Option Value → Result Value
drop_found node_id metakey es none = ok (dict_value es)
drop_found node_id metakey es (some m) = do m' ← without metakey m; put_left node_id es m'

-- The body of `delNode` after the test of the mode.
unfoldable pub drop_node : Value → Value → Value → Result Value
unfolding without
drop_node node_id metakey accounting = do
  es ← dict_for node_id accounting
  drop_found node_id metakey es (get_entry node_id es)

-- `emptyNodes`, where `len` raises for a value without a length
unfoldable pub empty_nodes : Value → Result Bool
empty_nodes (dict_value end) = ok true
empty_nodes (dict_value (entry k v es)) = ok false
empty_nodes (list_value nil) = ok true
empty_nodes (list_value (cons x xs)) = ok false
empty_nodes (tuple_value nil) = ok true
empty_nodes (tuple_value (cons x xs)) = ok false
empty_nodes (bytes_value []) = ok true
empty_nodes (bytes_value (b ∷ bs)) = ok false
empty_nodes (str_value []) = ok true
empty_nodes (str_value (c ∷ s)) = ok false
empty_nodes _ = raise type_error
