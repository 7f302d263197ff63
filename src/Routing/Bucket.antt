-- ===== src/Routing/Bucket.antt =====
-- flud/FludkRouting.py: `kBucket`. A method that changes a bucket returns the new bucket.
pub mod Valid
use flud.Prelude.{
  ℕ, ◌+◌, ◌-◌, ◌/◌, Bool, ◌&&◌, Result, ok, raise, bucket_full, value_error, Option, none, some,
  List, [], ◌∷◌, ◌++◌, ltb, leb, length, elem, erase, index, pop_at, nat_eq, if◌then◌else◌, ◌>>=◌,
  ◌==◌,
}
use flud.Routing.Node.{Node, node_eq, ids, same_node}

pub record Bucket : Type 0 where
  pub k : ℕ
  pub begin : ℕ
  pub end : ℕ
  pub contents : List Node

unfoldable pub new_bucket : ℕ → ℕ → ℕ → Bucket
new_bucket begin end depth = record { k = depth; begin = begin; end = end; contents = [] }

-- `self.contents.pop(ids.index(node[2]))` under its test
unfoldable pub drop_old_contact : Node → List Node → Result (List Node)
drop_old_contact node contents =
    if elem node.id (ids contents)
    then (do i ← index node.id (ids contents); pop_at contents i)
    else ok contents

unfoldable pub add_node : Bucket → Node → Result Bucket
unfolding same_node
add_node b node =
    if elem node b.contents
    then (do rest ← erase node b.contents; ok (record b { contents = rest ++ (node ∷ []) }))
    else (if leb b.k (length b.contents) then raise bucket_full else (do
      rest ← drop_old_contact node b.contents
      ok (record b { contents = rest ++ (node ∷ []) })))

unfoldable pub update_node : Bucket → Node → Result Bucket
update_node = add_node

-- `try: self.contents.remove(node)`, with every exception passed over
unfoldable pub del_node : Bucket → Node → Bucket
unfolding same_node
del_node b node = elim (erase node b.contents) [
  | ok rest ↦ record b { contents = rest }
  | raise e ↦ b
]

unfoldable pub find_in : ℕ → List Node → Option Node
find_in node_id [] = none
find_in node_id (n ∷ ns) = if n.id == node_id then some n else find_in node_id ns

unfoldable pub find_node : Bucket → ℕ → Option Node
find_node b node_id = find_in node_id b.contents

-- The comparisons of a bucket with an id (`__eq__`, `__lt__`), and of two buckets, where `>=` and
-- the reflected `<=` compare an end with a begin.
unfoldable pub covers : Bucket → ℕ → Bool
covers b i = leb b.begin i && leb i b.end

unfoldable pub before : Bucket → ℕ → Bool
before b i = ltb b.end i

unfoldable pub overlaps : Bucket → Bucket → Bool
overlaps a b = leb a.begin b.end && leb b.begin a.end
