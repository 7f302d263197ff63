-- ===== src/Routing/Table.antt =====
-- flud/FludkRouting.py: `kRouting`, the routing table. The buckets are the list `kBuckets`; a bucket
-- that the code holds and changes is the element at its place in that list.
pub mod Search
pub mod Split
pub mod Contents
pub mod Insert
pub mod Halving
pub mod Operations
pub mod Removal
pub mod Closest
use Prim.Native.Nat.{bit_xor}
use flud.Prelude.{
  ℕ, zero, suc, ◌+◌, ◌-◌, ◌/◌, ◌^◌, Bool, true, false, ◌&&◌, ◌||◌, not, Result, ok, raise,
  bucket_full, value_error, id_too_large, recursion_error, attribute_error, Option, none, some,
  List, [], ◌∷◌, ◌++◌, ltb, leb, length, nth, insert_at, set, take, if◌then◌else◌, ◌>>=◌, ◌==◌,
  get_elem?,
}
use flud.Prelude.Sorting.{sort_by}
use flud.Routing.Node.{Node}
use flud.Routing.NodeCache
use flud.Routing.NodeCache.{NodeCache, new_cache}
use flud.Routing.Bucket.{
  Bucket, new_bucket, add_node, update_node, del_node, find_node, covers, before, overlaps,
}

abbrev pub idspace : ℕ
idspace = 256

-- `None` for `node` is the table before `__init__` has set the attribute.
pub record Table : Type 0 where
  pub k : ℕ
  pub replacement_cache : NodeCache
  pub buckets : List Bucket
  pub node : Option Node

-- `bisect.bisect_left(self.kBuckets, i)`: the loop of the library, by rounds.
pub bisect_loop : ℕ → List Bucket → ℕ → ℕ → ℕ → ℕ
bisect_loop zero bs i lo hi = lo
bisect_loop (suc f) bs i lo hi =
    let mid = (lo + hi) / 2 in
    let right = bisect_loop f bs i (mid + 1) hi in
    let left = bisect_loop f bs i lo mid in
    if ltb lo hi
    then elim (get_elem? bs mid) [ none ↦ left | some b ↦ if before b i then right else left ]
    else lo

unfoldable pub bisect_left : List Bucket → ℕ → ℕ
unfolding bisect_loop before
bisect_left bs i = bisect_loop (length bs) bs i 0 (length bs)

-- `_findBucket`, as the place of the bucket in the list
unfoldable pub find_bucket : Table → ℕ → Result ℕ
unfolding bisect_left
find_bucket t i =
    let bl = bisect_left t.buckets i in
    if leb (length t.buckets) bl then raise id_too_large else ok bl

-- `self.kBuckets.index(i)` for an id, and for a bucket
unfoldable pub index_covering : ℕ → List Bucket → Result ℕ
unfolding covers
index_covering i [] = raise value_error
index_covering i (b ∷ bs) =
    let rest = index_covering i bs in if covers b i then ok 0 else (do j ← rest; ok (suc j))

unfoldable pub index_overlapping : Bucket → List Bucket → Result ℕ
unfolding overlaps
index_overlapping x [] = raise value_error
index_overlapping x (b ∷ bs) =
    let rest = index_overlapping x bs in if overlaps b x then ok 0 else (do j ← rest; ok (suc j))

-- The loop of `_splitBucket` over the copy of the contents.
unfoldable pub move_nodes : List Node → Bucket → Bucket → Result (Bucket × Bucket)
move_nodes [] bucket newbucket = ok (bucket, newbucket)
move_nodes (n ∷ ns) bucket newbucket =
    let stay = move_nodes ns bucket newbucket in
    let go = (do nb ← add_node newbucket n; move_nodes ns (del_node bucket n) nb) in
    if ltb bucket.end n.id then go else stay

-- `_splitBucket(bucket)`, where `bucket` is the element at place `j`
unfoldable pub split_bucket : Table → ℕ → Result Table
unfolding move_nodes index_covering new_bucket
split_bucket t j = do
  bucket ← nth t.buckets j
  let halfpoint = (bucket.end - bucket.begin) / 2
  let newbucket = new_bucket (bucket.end - halfpoint + 1) bucket.end t.k
  i ← index_covering bucket.begin t.buckets
  (low, high) ←
      move_nodes bucket.contents (record bucket { end = bucket.end - halfpoint }) newbucket
  ok (record t { buckets = insert_at (suc i) high (set t.buckets j low) })

-- `bucket.begin <= self.node[2] < bucket.end`
unfoldable pub local_inside : Table → Bucket → Result Bool
local_inside t b = elim t.node [
  | none ↦ raise attribute_error
  | some me ↦ ok (leb b.begin me.id && ltb me.id b.end)
]

-- The rest of `insertNode` after `bucket.updateNode(node)`, where `again` is the call of itself.
unfoldable pub after_update :
    (Table → Node → Result (Table × Option Node))
    → Table
    → Node
    → ℕ
    → Bucket
    → Result Bucket
    → Result (Table × Option Node)
after_update again t node j bucket (ok b') = do
  cache ← NodeCache.remove_node t.replacement_cache node
  ok (record t { buckets = set t.buckets j b'; replacement_cache = cache }, none)
after_update again t node j bucket (raise bucket_full) = do
  inside ← local_inside t bucket
  if inside
      then (do t' ← split_bucket t j; (t'', _) ← again t' node; ok (t'', none))
      else (do oldest ← nth bucket.contents 0; ok (t, some oldest))
after_update again t node j bucket (raise e) = raise e

-- `insertNode`, with fuel for the calls of itself after a split. The result is the oldest node of a
-- full bucket, if there is one to be pinged.
unfoldable pub insert_loop : ℕ → Table → Node → Result (Table × Option Node)
unfolding after_update
insert_loop zero t node = raise recursion_error
insert_loop (suc f) t node = do
  j ← find_bucket t node.id
  bucket ← nth t.buckets j
  after_update (insert_loop f) t node j bucket (update_node bucket node)

-- Each split halves the range of the bucket that is found next.
unfoldable pub insert_node : Table → Node → Result (Table × Option Node)
insert_node = insert_loop (suc idspace)

unfoldable pub new_table : Node → ℕ → ℕ → Result Table
new_table node bits depth = do
  let t : Table = record {
    k = depth;
    replacement_cache = new_cache 300;
    buckets = new_bucket 0 (2 ^ bits) depth ∷ [];
    node = none;
  }
  (t', _) ← insert_node t node
  ok (record t' { node = some node })

unfoldable pub remove_node : Table → Node → Result Table
remove_node t node = do
  j ← find_bucket t node.id
  bucket ← nth t.buckets j
  ok (record t { buckets = set t.buckets j (del_node bucket node) })

unfoldable pub replace_node : Table → Node → Node → Result Table
replace_node t replacee replacer = do
  t' ← remove_node t replacee
  (t'', _) ← insert_node t' replacer
  ok t''

unfoldable pub get_node : Table → ℕ → Result (Option Node)
get_node t node_id = do
  j ← find_bucket t node_id
  bucket ← nth t.buckets j
  elim (find_node bucket node_id) [
    | none ↦ ok (NodeCache.get_node t.replacement_cache node_id)
    | some n ↦ ok (some n)
  ]

-- `_nextbucket` and `_prevbucket`
unfoldable pub next_bucket : Table → Option Bucket → Result (Option Bucket)
unfolding index_overlapping
next_bucket t none = ok none
next_bucket t (some bucket) = do
  i ← index_overlapping bucket t.buckets
  ok (get_elem? t.buckets (i + 1))

unfoldable pub prev_bucket : Table → Option Bucket → Result (Option Bucket)
unfolding index_overlapping
prev_bucket t none = ok none
prev_bucket t (some bucket) = do
  i ← index_overlapping bucket t.buckets
  if i == 0 then ok none else ok (get_elem? t.buckets (i - 1))

abbrev pub contents_of : Option Bucket → List Node
contents_of none = []
contents_of (some b) = b.contents

abbrev pub present : Option Bucket → Bool
present none = false
present (some b) = true

-- The `while` loop of `findNode`, by rounds.
unfoldable pub gather : ℕ → Table → List Node → Option Bucket → Option Bucket → Result (List Node)
gather zero t nodes next prev = raise recursion_error
gather (suc f) t nodes next prev =
    let more = (do
      next' ← next_bucket t next
      prev' ← prev_bucket t prev
      gather f t (nodes ++ (contents_of next ++ contents_of prev)) next' prev') in
    if ltb (length nodes) t.k && (present next || present prev) then more else ok nodes

-- The `if len(nodes) < self.k` of `findNode`. Each round moves on to another bucket on each side.
unfoldable pub gather_from : Table → Bucket → Result (List Node)
gather_from t bucket =
    if ltb (length bucket.contents) t.k
    then (do
      next ← next_bucket t (some bucket)
      prev ← prev_bucket t (some bucket)
      gather (suc (length t.buckets)) t bucket.contents next prev)
    else ok bucket.contents

abbrev pub distance : ℕ → Node → ℕ
distance target n = bit_xor target n.id

unfoldable pub find_closest : Table → ℕ → Result (List Node)
unfolding gather_from
find_closest t node_id = do
  j ← find_bucket t node_id
  bucket ← nth t.buckets j
  nodes ← gather_from t bucket
  ok (take t.k (sort_by (distance node_id) nodes))

unfoldable pub all_contents : List Bucket → List Node
all_contents [] = []
all_contents (b ∷ bs) = b.contents ++ all_contents bs

unfoldable pub known_nodes : Table → List Node
known_nodes t = all_contents t.buckets ++ NodeCache.nodes t.replacement_cache

unfoldable pub others : ℕ → List Node → List Node
others i [] = []
others i (n ∷ ns) = let rest = others i ns in if n.id == i then rest else n ∷ rest

unfoldable pub known_external_nodes : Table → Result (List Node)
known_external_nodes t = elim t.node [
  | none ↦ raise attribute_error
  | some me ↦ ok (others me.id (all_contents t.buckets) ++ NodeCache.nodes t.replacement_cache)
]
