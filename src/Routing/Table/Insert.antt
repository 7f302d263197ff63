-- ===== src/Routing/Table/Insert.antt =====
-- flud/FludkRouting.py: `insertNode` on a valid table, splits included.
use flud.Prelude.{
  ℕ, suc, ◌+◌, ◌≤◌, ◌≡◌, ◌≢◌, refl, ap, sym, true, false, none, some, List, [], ◌∷◌, ◌++◌, arith,
  ok, ◌∙◌, subst, length, ◌⊎◌, All, All-append, All-append_left, All-append_right, set, All-map,
}
use flud.Routing.Node.{Node}
use flud.Routing.NodeLists.{Distinct}
use flud.Routing.NodeCache
use flud.Routing.NodeCache.{NodeCache}
use flud.Routing.NodeCache.Fifo.{Holds}
use flud.Routing.Bucket.{Bucket, update_node}
use flud.Routing.Bucket
use flud.Routing.Bucket.Valid.{InRange, accepts, renewed, add_node-renewed, renewed-IsValid}
use flud.Routing.Table.{Table, insert_loop, after_update}
use flud.Routing.Table.Search.{Chain, Chain-append, Focus, find_bucket-Focus}
use flud.Routing.Table.Split.{set-append}
use flud.Routing.Table.Contents.{
  stored, stored_replace, stored_found, lookup_id-renewed_self, lookup_id-renewed_ne,
}

-- A valid bucket of the table's depth.
pub record Sound (k : ℕ) (b : Bucket) : Type 0 where
  pub valid : Bucket.Valid.IsValid b
  pub depth : b.k ≡ k

-- The buckets cover the ids below `stop` one after another, each is valid and of the table's depth,
-- the replacement cache is in order, and a bucket has room for three nodes at least.
pub record IsValid (stop : ℕ) (t : Table) : Type 0 where
  pub chain : Chain 0 t.buckets stop
  pub sound : All (Sound t.k) t.buckets
  pub cached : List Node
  pub cache : Holds t.replacement_cache cached
  pub deep : 3 ≤ t.k

-- What one insertion of `n` may do to a table: the other ids keep what is stored under them, and
-- `n` is stored under its own, or refused by the full bucket of its range.
pub record After (stop : ℕ) (t : Table) (n : Node) (t' : Table) : Type 0 where
  pub valid : IsValid stop t'
  pub same_k : t'.k ≡ t.k
  pub same_node : t'.node ≡ t.node
  pub others : (j : ℕ) → n.id ≢ j → stored t'.buckets j ≡ stored t.buckets j
  pub own :
      (stored t'.buckets n.id ≡ some n)
      ⊎ ((stored t'.buckets n.id ≡ stored t.buckets n.id)
          × ((f : Focus n.id 0 t'.buckets stop) × (accepts f.bucket n ≡ false)))

-- Three distinct ids need a range of three.
pub wide : (b : Bucket) → Bucket.Valid.IsValid b → 3 ≤ length b.contents → b.begin + 2 ≤ b.end
wide b v h = go b.contents v.distinct v.in_range h
  where
    go : (ns : List Node) → Distinct ns → All (InRange b) ns → 3 ≤ length ns → b.begin + 2 ≤ b.end
    go [] d r h = absurd (omega arith)
    go (x ∷ []) d r h = absurd (omega arith)
    go (x ∷ y ∷ []) d r h = absurd (omega arith)
    go (x ∷ y ∷ z ∷ ns) d r h = ground arith

module _ (stop : ℕ) (t : Table) (v : IsValid stop t) (i : ℕ) (f : Focus i 0 t.buckets stop) where
  whole-Sound : All (Sound t.k) (f.pre ++ f.bucket ∷ f.post)
  whole-Sound = subst (All (Sound t.k)) f.whole v.sound

  pub bucket-Sound : Sound t.k f.bucket
  bucket-Sound = (All-append_right _ f.pre (f.bucket ∷ f.post) whole-Sound).0

  pub pre_valid : All Bucket.Valid.IsValid f.pre
  pre_valid =
      All-map (Sound t.k) _ f.pre (λ b s. s.valid)
        (All-append_left _ f.pre (f.bucket ∷ f.post) whole-Sound)

  pub post_valid : All Bucket.Valid.IsValid f.post
  post_valid =
      All-map (Sound t.k) _ f.post (λ b s. s.valid)
        (All-append_right _ f.pre (f.bucket ∷ f.post) whole-Sound).1

  -- Sound buckets in place of the found one leave the table valid.
  pub replaced :
      (bs : List Bucket) (c : NodeCache) (ns : List Node)
      → Holds c ns
      → All (Sound t.k) bs
      → Chain f.bucket.begin bs (suc f.bucket.end)
      → IsValid stop (record t { buckets = f.pre ++ (bs ++ f.post); replacement_cache = c })
  replaced bs c ns held s h = record {
    chain =
        Chain-append 0 f.bucket.begin f.pre (bs ++ f.post) stop f.below
          (Chain-append f.bucket.begin (suc f.bucket.end) bs f.post stop h f.above);
    sound =
        All-append _ f.pre (bs ++ f.post) (All-append_left _ f.pre (f.bucket ∷ f.post) whole-Sound)
          (All-append _ bs f.post s (All-append_right _ f.pre (f.bucket ∷ f.post) whole-Sound).1);
    cached = ns;
    cache = held;
    deep = v.deep;
  }

-- The found bucket with the node at its tail.
module _ (stop : ℕ) (t : Table) (n : Node) (v : IsValid stop t)
    (f : Focus n.id 0 t.buckets stop) where
  unfoldable pub placed : NodeCache → Table
  placed c = record t { buckets = f.pre ++ (renewed f.bucket n ∷ f.post); replacement_cache = c }

  pub placed_eq :
      (fuel : ℕ) (c : NodeCache)
      → accepts f.bucket n ≡ true
      → NodeCache.remove_node t.replacement_cache n ≡ ok c
      → insert_loop (suc fuel) t n ≡ ok (placed c, none)
  unfolding insert_loop update_node placed
  placed_eq fuel c a removed =
      let (found, got) = find_bucket-Focus t n.id stop v.chain f in
      rw
        (
          found,
          got,
          add_node-renewed f.bucket n (bucket-Sound stop t v n.id f).valid.distinct,
          a,
          after_update,
          removed,
        )
        (ap (λ bs. ok (record t { buckets = bs; replacement_cache = c }, none))
          (ap (λ bs. set bs (length f.pre) (renewed f.bucket n)) f.whole
            ∙ set-append f.pre f.bucket (renewed f.bucket n) f.post))

  pub placed-stored_ne :
      (c : NodeCache) (j : ℕ) → n.id ≢ j → stored (placed c).buckets j ≡ stored t.buckets j
  unfolding placed
  placed-stored_ne c j h = rw f.whole (
      sym (
        stored_replace f.pre f.bucket (renewed f.bucket n) f.post j
          (sym (lookup_id-renewed_ne f.bucket n j h))))

  pub placed_valid :
      (c : NodeCache) (ns : List Node)
      → Holds c ns
      → accepts f.bucket n ≡ true
      → IsValid stop (placed c)
  unfolding placed
  placed_valid c ns held a =
      let s = bucket-Sound stop t v n.id f in
      replaced stop t v n.id f (renewed f.bucket n ∷ []) c ns held
        (
          record {
            valid = renewed-IsValid f.bucket n s.valid (f.at_least, f.at_most) a;
            depth = s.depth;
          },
          tt,
        )
        (refl, omega arith, refl)

  pub placed-stored_self :
      (c : NodeCache) (ns : List Node)
      → Holds c ns
      → accepts f.bucket n ≡ true
      → stored (placed c).buckets n.id ≡ some n
  unfolding placed
  placed-stored_self c ns held a =
      stored_found f.pre (renewed f.bucket n) f.post stop n.id f.below f.above f.at_least f.at_most
        (pre_valid stop t v n.id f) (post_valid stop t v n.id f)
      ∙ lookup_id-renewed_self f.bucket n (bucket-Sound stop t v n.id f).valid.distinct
