-- ===== src/Routing/Table/Operations.antt =====
-- flud/FludkRouting.py: the methods of `kRouting` on a valid table, against the map that it stores.
use flud.Prelude.{
  ℕ, suc, ◌-◌, ◌^◌, ◌≤◌, ◌<◌, ◌≡◌, ◌≢◌, refl, ap, true, Option, none, some, [], ◌∷◌, arith, ok,
  raise, ltb, ◌>>=◌, ◌∙◌, id_too_large, if◌then◌else◌, elem, inl, inr, Bool-cases, ltb→lt,
}
use flud.Routing.Node.{Node, node_eq}
use flud.Routing.NodeLists.{lookup_id}
use flud.Routing.NodeCache
use flud.Routing.NodeCache.{NodeCache}
use flud.Routing.NodeCache.Fifo.{new_cache-Holds, get_node-Holds, remove_node-Holds}
use flud.Routing.Bucket.{new_bucket}
use flud.Routing.Bucket.Valid.{find_node-lookup_id, accepts}
use flud.Routing.Table.{Table, insert_node, new_table, get_node, idspace, all_contents}
use flud.Routing.Table.Search.{
  Chain-le, Focus, focus, find_bucket-Focus, find_bucket_past, make_focus,
}
use flud.Routing.Table.Contents.{stored, stored_found, or_else}
use flud.Routing.Table.Insert.{
  IsValid, After, pre_valid, post_valid, placed_valid, placed, placed_eq, placed-stored_self,
  placed-stored_ne,
}
use flud.Routing.Table.Halving.{Answer, insert_loop-Inserts}

-- The bucket of an id's range.
abbrev pub focus_of :
    (stop : ℕ) (t : Table) (i : ℕ) → IsValid stop t → i < stop → Focus i 0 t.buckets stop
focus_of stop t i v h = focus i 0 t.buckets stop v.chain (omega arith) h

range-le :
    (stop : ℕ) (t : Table) (i : ℕ) (f : Focus i 0 t.buckets stop)
    → stop ≤ suc (2 ^ idspace)
    → f.bucket.end - f.bucket.begin ≤ 2 ^ idspace
range-le stop t i f h = omega (arith, Chain-le (suc f.bucket.end) f.post stop f.above)

-- `insertNode` on a valid table that has its local node, for an id below `stop`, where `stop` is
-- in the id space: it never raises and its recursion ends. The table stays valid, keeps its depth
-- and local node, and what is stored under every other id. The node is stored under its own id,
-- or what is stored there stays and the bucket of its range refuses the node. A node is returned
-- only where the table did not change, and is then the oldest of the bucket of the id.
pub insert_node-After :
    (stop : ℕ) (t : Table) (n me : Node) (v : IsValid stop t)
    → t.node ≡ some me
    → (h : n.id < stop) → stop ≤ suc (2 ^ idspace)
    → (t' : Table) × (r : Option Node) × (insert_node t n ≡ ok (t', r))
      × After stop t n t'
      × Answer t (focus_of stop t n.id v h).bucket t' r
unfolding insert_node
insert_node-After stop t n me v local h small =
    let f = focus_of stop t n.id v h in
    insert_loop-Inserts idspace stop t n me v local f (range-le stop t n.id f small)

-- What is stored under an id is what its bucket finds.
pub stored-focus :
    (stop : ℕ) (t : Table) (i : ℕ) (v : IsValid stop t) (f : Focus i 0 t.buckets stop)
    → stored t.buckets i ≡ lookup_id i f.bucket.contents
stored-focus stop t i v f =
    ap (λ bs. stored bs i) f.whole
    ∙ stored_found f.pre f.bucket f.post stop i f.below f.above f.at_least f.at_most
        (pre_valid stop t v i f) (post_valid stop t v i f)

-- `getNode` on a valid table, for every id: below `stop` it returns what the buckets store under
-- the id, else what the replacement cache holds under it; from `stop` on it raises.
pub get_node-stored :
    (stop : ℕ) (t : Table) (i : ℕ) (v : IsValid stop t)
    → get_node t i ≡ (
        if ltb i stop
        then ok (or_else (stored t.buckets i) (lookup_id i v.cached))
        else raise id_too_large)
unfolding get_node
get_node-stored stop t i v = elim (Bool-cases (ltb i stop)) [
  | inl in_space ↦
      let f = focus_of stop t i v (ltb→lt i stop in_space) in
      let (found, got) = find_bucket-Focus t i stop v.chain f in
      rw (in_space, found, got)
        (ground (
          arith,
          stored-focus stop t i v f,
          find_node-lookup_id f.bucket i,
          get_node-Holds t.replacement_cache v.cached i v.cache,
        ))
  | inr past ↦ rw (past, find_bucket_past t i stop v.chain (ground arith))
]

-- The table of `__init__` before the node is inserted.
start : ℕ → ℕ → Table
start bits depth = record {
  k = depth;
  replacement_cache = NodeCache.new_cache 300;
  buckets = new_bucket 0 (2 ^ bits) depth ∷ [];
  node = none;
}

start-IsValid : (bits depth : ℕ) → 3 ≤ depth → IsValid (suc (2 ^ bits)) (start bits depth)
unfolding start new_bucket
start-IsValid bits depth d = record {
  chain = (refl, omega arith, refl);
  sound = (
    record { valid = record { fits = omega arith; distinct = tt; in_range = tt }; depth = refl },
    tt,
  );
  cached = [];
  cache = new_cache-Holds 300;
  deep = d;
}

stored-start : (bits depth j : ℕ) → stored (start bits depth).buckets j ≡ none
unfolding start new_bucket stored all_contents lookup_id
stored-start bits depth j = refl

start_focus :
    (bits depth i : ℕ) → i ≤ 2 ^ bits → Focus i 0 (start bits depth).buckets (suc (2 ^ bits))
unfolding start new_bucket make_focus
start_focus bits depth i h =
    make_focus i _ [] (new_bucket 0 (2 ^ bits) depth) [] _ refl refl refl (omega arith) h

start_accepts :
    (bits depth : ℕ) (n : Node) (h : n.id ≤ 2 ^ bits)
    → 3 ≤ depth
    → accepts (start_focus bits depth n.id h).bucket n ≡ true
unfolding start_focus new_bucket make_focus elem
start_accepts bits depth n h d = ground arith

-- `__init__` for a node with an id of the id space and a depth of three at least: it returns a
-- valid table, whose local node is the node, and which stores the node and nothing under any
-- other id.
pub new_table-IsValid :
    (node : Node) (bits depth : ℕ)
    → node.id ≤ 2 ^ bits
    → 3 ≤ depth
    → (t : Table) × (new_table node bits depth ≡ ok t)
      × IsValid (suc (2 ^ bits)) t
      × (t.node ≡ some node)
      × (stored t.buckets node.id ≡ some node)
      × ((j : ℕ) → node.id ≢ j → stored t.buckets j ≡ none)
unfolding new_table insert_node
new_table-IsValid node bits depth h d =
    let stop = suc (2 ^ bits) in
    let s = start bits depth in
    let v = start-IsValid bits depth d in
    let f = start_focus bits depth node.id h in
    let a = start_accepts bits depth node h d in
    let (c, removed, held) = remove_node-Holds s.replacement_cache v.cached node v.cache in
    let valid = placed_valid stop s node v f c _ held a in
    (
      record (placed stop s node v f c) { node = some node },
      (unfold start in
          ap (λ m. m >>= λ (x : Table × Option Node). ok (record (x.0) { node = some node }))
            (placed_eq stop s node v f idspace c a removed)),
      record {
        chain = valid.chain;
        sound = valid.sound;
        cached = valid.cached;
        cache = valid.cache;
        deep = valid.deep;
      },
      refl,
      placed-stored_self stop s node v f c _ held a,
      λ j ne. placed-stored_ne stop s node v f c j ne ∙ stored-start bits depth j,
    )
