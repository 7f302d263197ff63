-- ===== src/Routing/Tests.antt =====
-- flud/FludkRouting.py: runs of the routing table on concrete nodes, and concrete inputs on which the
-- theorems' conditions hold.
use flud.Routing.Table.Split.{split_bucket-halves, low_half, high_half}
use flud.Prelude.{
  ℕ, suc, ◌^◌, ◌≡◌, ◌≢◌, refl, ok, raise, none, some, List, [], ◌∷◌, arith, Option, if◌then◌else◌,
  bucket_full, All, length, min, ltb, id_too_large,
}
use flud.Prelude.Sorting.{Sorted}
use flud.Routing.Node.{Node, node_eq}
use flud.Routing.NodeLists.{lookup_id, known}
use flud.Routing.NodeCache
use flud.Routing.NodeCache.{NodeCache, new_cache}
use flud.Routing.NodeCache.Fifo.{new_cache-Holds, Holds, insert_node-Holds, enqueue}
use flud.Routing.Bucket
use flud.Routing.Bucket.{Bucket, add_node, del_node, find_node}
use flud.Routing.Bucket.Valid.{add_node-renewed, accepts, renewed, del_node_lem, InRange}
use flud.Routing.Table.{
  Table, insert_node, get_node, remove_node, replace_node, find_closest, new_table, find_bucket,
  distance, all_contents, split_bucket,
}
use flud.Routing.Table.Search.{find_bucket-rank, rank, make_focus}
use flud.Routing.Table.Contents.{stored}
use flud.Routing.Table.Insert.{IsValid, After}
use flud.Routing.Table.Halving.{Answer}
use flud.Routing.Table.Operations.{insert_node-After, get_node-stored, new_table-IsValid, focus_of}
use flud.Routing.Table.Removal.{remove_node-Removed, Removed, replace_node-stored}
use flud.Routing.Table.Closest.{find_closest_lem, total}

abbrev node_at : ℕ → Node
node_at i = record { host = "10.0.0.1"; port = 8080; id = i; ku = 7 }

abbrev bucket : Bucket
bucket = record {
  k = 3;
  begin = 0;
  end = 256;
  contents = node_at 17 ∷ node_at 130 ∷ node_at 200 ∷ [];
}

-- One full bucket, which holds the local node 17.
abbrev full : Table
full = record {
  k = 3;
  replacement_cache = new_cache 300;
  buckets = bucket ∷ [];
  node = some (node_at 17);
}

bucket-IsValid : Bucket.Valid.IsValid bucket
bucket-IsValid = record { fits = omega arith; distinct = ground arith; in_range = ground arith }

full-IsValid : IsValid 257 full
full-IsValid = record {
  chain = (refl, omega arith, refl);
  sound = (record { valid = bucket-IsValid; depth = refl }, tt);
  cached = [];
  cache = new_cache-Holds 300;
  deep = omega arith;
}

insert_node-After_example :
    (t' : Table) × (r : Option Node) × (insert_node full (node_at 40) ≡ ok (t', r))
    × After 257 full (node_at 40) t'
    × Answer full (focus_of 257 full 40 full-IsValid (omega arith)).bucket t' r
insert_node-After_example =
    insert_node-After 257 full (node_at 40) (node_at 17) full-IsValid refl (omega arith)
      (omega arith)

new_table-IsValid_example :
    (t : Table) × (new_table (node_at 17) 8 3 ≡ ok t)
    × IsValid (suc (2 ^ 8)) t
    × (t.node ≡ some (node_at 17))
    × (stored t.buckets 17 ≡ some (node_at 17))
    × ((j : ℕ) → 17 ≢ j → stored t.buckets j ≡ none)
new_table-IsValid_example = new_table-IsValid (node_at 17) 8 3 (omega arith) (omega arith)

get_node-stored_example : get_node full 130 ≡ ok (some (node_at 130))
unfolding stored lookup_id all_contents
get_node-stored_example = get_node-stored 257 full 130 full-IsValid

remove_node-Removed_example :
    (t' : Table) × (remove_node full (node_at 130) ≡ ok t') × Removed 257 full (node_at 130) t'
remove_node-Removed_example = remove_node-Removed 257 full (node_at 130) full-IsValid (omega arith)

replace_node-stored_example :
    (t' : Table) × (replace_node full (node_at 130) (node_at 90) ≡ ok t')
    × IsValid 257 t'
    × (stored t'.buckets 90 ≡ some (node_at 90))
    × ((node_at 130).id ≢ 90 → stored t'.buckets 130 ≡ none)
    × ((j : ℕ) → 130 ≢ j → 90 ≢ j → stored t'.buckets j ≡ stored full.buckets j)
unfolding make_focus stored lookup_id all_contents
replace_node-stored_example =
    replace_node-stored 257 full (node_at 130) (node_at 90) full-IsValid
      (make_focus 130 full.buckets [] bucket [] 257 refl refl refl (omega arith) (omega arith)) refl
      (omega arith) (omega arith)

find_closest_lem_example :
    (r : List Node) × (find_closest full 20 ≡ ok r)
    × Sorted (distance 20) r
    × All (InRange bucket) r
    × (length r ≡ min 3 (total full.buckets))
find_closest_lem_example =
    find_closest_lem 257 full 20 (InRange bucket) full-IsValid.chain (omega arith)
      (bucket-IsValid.in_range, tt)

find_bucket-rank_example :
    find_bucket full 300 ≡ (if ltb 300 257 then ok (rank 300 full.buckets) else raise id_too_large)
find_bucket-rank_example = find_bucket-rank full 300 257 full-IsValid.chain

-- A replacement cache of two places, both taken.
abbrev cache : NodeCache
cache = record {
  size = 2;
  cache = (17, node_at 17) ∷ (130, node_at 130) ∷ [];
  cache_order = 17 ∷ 130 ∷ [];
}

cache-Holds : Holds cache (node_at 17 ∷ node_at 130 ∷ [])
cache-Holds = record { cache = refl; order = refl; distinct = ground arith; bounded = omega arith }

insert_node-Holds_example :
    (c' : NodeCache) × (NodeCache.insert_node cache (node_at 200) ≡ ok (c', some 17))
    × Holds c' (node_at 130 ∷ node_at 200 ∷ [])
unfolding enqueue known
insert_node-Holds_example =
    insert_node-Holds cache (node_at 17 ∷ node_at 130 ∷ []) (node_at 200) cache-Holds

add_node-renewed_example :
    add_node bucket (node_at 40)
    ≡ (if accepts bucket (node_at 40) then ok (renewed bucket (node_at 40)) else raise bucket_full)
add_node-renewed_example = add_node-renewed bucket (node_at 40) bucket-IsValid.distinct

split_bucket-halves_example :
    split_bucket full 0 ≡ ok (record full { buckets = low_half bucket ∷ high_half bucket ∷ [] })
split_bucket-halves_example =
    split_bucket-halves full [] bucket [] refl refl (omega arith) bucket-IsValid refl
