-- ===== src/Routing/Table/Removal.antt =====
-- flud/FludkRouting.py: `removeNode` and `replaceNode` on a valid table.
use flud.Routing.Table.Operations.{focus_of, stored-focus}
use flud.Prelude.{
  ℕ, ◌≤◌, ◌<◌, ◌≡◌, ◌≢◌, refl, ap, sym, true, none, some, List, [], ◌∷◌, ◌++◌, arith, ok, ◌∙◌, elem,
  length, inl, inr, ◌⊎◌, Bool-cases, set,
}
use flud.Routing.Node.{Node, node_eq, same_node_iff}
use flud.Routing.NodeLists.{
  lookup_id, drop_id, Distinct, length-drop_id-le, lookup_id-drop_id_ne, lookup_id-Fresh,
  Distinct-drop_id, Fresh-drop_id, All-drop_id, known-Fresh, length-drop_id,
}
use flud.Routing.NodeCache.Fifo.{remove_node-Holds}
use flud.Routing.Bucket.{Bucket, del_node}
use flud.Routing.Bucket.Valid.{del_node_lem, accepts, elem-known}
use flud.Routing.Table.{Table, insert_node, remove_node, replace_node, idspace}
use flud.Routing.Table.Search.{Focus, find_bucket-Focus, make_focus}
use flud.Routing.Table.Split.{set-append}
use flud.Routing.Table.Contents.{stored, stored_replace, stored_found}
use flud.Routing.Table.Insert.{
  IsValid, bucket-Sound, pre_valid, post_valid, replaced, placed_valid, placed, placed_eq,
  placed-stored_self, placed-stored_ne,
}

lookup-elem : (i : ℕ) (n : Node) (ns : List Node) → lookup_id i ns ≡ some n → elem n ns ≡ true
unfolding lookup_id elem
lookup-elem i n [] h = cc
lookup-elem i n (m ∷ ns) h = ground (arith, same_node_iff m n, lookup-elem i n ns)

elem-lookup :
    (n : Node) (ns : List Node) → Distinct ns → elem n ns ≡ true → lookup_id n.id ns ≡ some n
unfolding lookup_id elem
elem-lookup n [] d h = cc
elem-lookup n (m ∷ ns) d h =
    ground
      (arith, same_node_iff m n, elem-lookup n ns d.1, elem-known n ns, known-Fresh m.id ns d.0)

-- The effect of `removeNode`: exactly the node that is stored can be removed.
pub record Removed (stop : ℕ) (t : Table) (n : Node) (t' : Table) : Type 0 where
  pub valid : IsValid stop t'
  pub same_k : t'.k ≡ t.k
  pub same_node : t'.node ≡ t.node
  pub others : (j : ℕ) → n.id ≢ j → stored t'.buckets j ≡ stored t.buckets j
  pub own :
      ((stored t.buckets n.id ≡ some n) × (stored t'.buckets n.id ≡ none))
      ⊎ ((stored t.buckets n.id ≢ some n) × (t' ≡ t))

module _ (stop : ℕ) (t : Table) (n : Node) (v : IsValid stop t)
    (f : Focus n.id 0 t.buckets stop) where
  remove_node_eq :
      remove_node t n ≡ ok (record t { buckets = f.pre ++ (del_node f.bucket n ∷ f.post) })
  unfolding remove_node
  remove_node_eq =
      let (found, got) = find_bucket-Focus t n.id stop v.chain f in
      rw (found, got)
        (ap (λ bs. ok (record t { buckets = bs }))
          (ap (λ bs. set bs (length f.pre) (del_node f.bucket n)) f.whole
            ∙ set-append f.pre f.bucket (del_node f.bucket n) f.post))

  -- The bucket without the node.
  less : Bucket
  less = record (f.bucket) { contents = drop_id n.id f.bucket.contents }

  removed_valid : IsValid stop (record t { buckets = f.pre ++ (less ∷ f.post) })
  unfolding less
  removed_valid =
      let s = bucket-Sound stop t v n.id f in
      replaced stop t v n.id f (less ∷ []) t.replacement_cache v.cached v.cache
        (
          record {
            valid = record {
              fits = omega (arith, length-drop_id-le n.id f.bucket.contents, s.valid.fits);
              distinct = Distinct-drop_id n.id f.bucket.contents s.valid.distinct;
              in_range = All-drop_id _ n.id f.bucket.contents s.valid.in_range;
            };
            depth = s.depth;
          },
          tt,
        )
        (refl, omega (arith, f.at_least, f.at_most), refl)

  removed_others : (j : ℕ) → n.id ≢ j → stored (f.pre ++ (less ∷ f.post)) j ≡ stored t.buckets j
  unfolding less
  removed_others j ne = rw f.whole (
      stored_replace f.pre less f.bucket f.post j
        (lookup_id-drop_id_ne n.id j f.bucket.contents ne))

  removed_own : stored (f.pre ++ (less ∷ f.post)) n.id ≡ none
  unfolding less
  removed_own =
      stored_found f.pre less f.post stop n.id f.below f.above f.at_least f.at_most
        (pre_valid stop t v n.id f) (post_valid stop t v n.id f)
      ∙ lookup_id-Fresh n.id _
          (Fresh-drop_id n.id f.bucket.contents (bucket-Sound stop t v n.id f).valid.distinct)

-- `removeNode` on a valid table, for an id below `stop`: it never raises. The table stays valid,
-- and keeps its depth, its local node and what is stored under every other id. If exactly the
-- node was stored then nothing is stored under its id; if not, the table does not change.
pub remove_node-Removed :
    (stop : ℕ) (t : Table) (n : Node) (v : IsValid stop t)
    → n.id < stop
    → (t' : Table) × (remove_node t n ≡ ok t') × Removed stop t n t'
remove_node-Removed stop t n v h =
    let f = focus_of stop t n.id v h in
    let d = (bucket-Sound stop t v n.id f).valid.distinct in
    elim (Bool-cases (elem n f.bucket.contents)) [
      | inl there ↦ (
        record t { buckets = f.pre ++ (less stop t n v f ∷ f.post) },
        remove_node_eq stop t n v f ∙ (unfold less in rw (del_node_lem f.bucket n d, there)),
        record {
          valid = removed_valid stop t n v f;
          same_k = refl;
          same_node = refl;
          others = removed_others stop t n v f;
          own = inl (
            stored-focus stop t n.id v f ∙ elem-lookup n f.bucket.contents d there,
            removed_own stop t n v f,
          );
        },
      )
      | inr absent ↦ (
        t,
        remove_node_eq stop t n v f
            ∙ rw (del_node_lem f.bucket n d, absent)
                (ap (λ bs. ok (record t { buckets = bs })) (sym f.whole)),
        record {
          valid = v;
          same_k = refl;
          same_node = refl;
          others = λ j ne. refl;
          own = inr (
            (λ e. cc (
              absent,
              lookup-elem n.id n f.bucket.contents (sym (stored-focus stop t n.id v f) ∙ e),
            )),
            refl,
          );
        },
      )
    ]

-- A bucket that gave up a node has room.
room_after :
    (a b : Node) (x : Bucket)
    → elem a x.contents ≡ true
    → length x.contents ≤ x.k
    → accepts (record x { contents = drop_id a.id x.contents }) b ≡ true
room_after a b x there fits =
    ground (arith, length-drop_id a.id x.contents (elem-known a x.contents there))

-- `replaceNode` on a valid table where the replacee is stored and the replacer's id is in the
-- range of the replacee's bucket, which may be full: it never raises and the table stays valid.
-- The replacer is stored, the replacee is not unless they have one id, and what is stored under
-- every other id stays.
pub replace_node-stored :
    (stop : ℕ) (t : Table) (a b : Node) (v : IsValid stop t) (f : Focus a.id 0 t.buckets stop)
    → stored t.buckets a.id ≡ some a
    → f.bucket.begin ≤ b.id
    → b.id ≤ f.bucket.end
    → (t' : Table) × (replace_node t a b ≡ ok t')
      × IsValid stop t'
      × (stored t'.buckets b.id ≡ some b)
      × (a.id ≢ b.id → stored t'.buckets a.id ≡ none)
      × ((j : ℕ) → a.id ≢ j → b.id ≢ j → stored t'.buckets j ≡ stored t.buckets j)
unfolding replace_node insert_node less make_focus
replace_node-stored stop t a b v f held low high =
    let d = (bucket-Sound stop t v a.id f).valid.distinct in
    let there = lookup-elem a.id a f.bucket.contents (sym (stored-focus stop t a.id v f) ∙ held) in
    let x = less stop t a v f in
    let t1 : Table = record t { buckets = f.pre ++ (x ∷ f.post) } in
    let v1 = removed_valid stop t a v f in
    let gone : remove_node t a ≡ ok t1 =
      remove_node_eq stop t a v f ∙ (unfold less in rw (del_node_lem f.bucket a d, there)) in
    let g : Focus b.id 0 t1.buckets stop =
      make_focus b.id _ f.pre x f.post stop refl f.below f.above low high in
    let (c, removed, cached) = remove_node-Holds t1.replacement_cache v1.cached b v1.cache in
    let acc : accepts g.bucket b ≡ true =
      room_after a b f.bucket there (bucket-Sound stop t v a.id f).valid.fits in
    (
      placed stop t1 b v1 g c,
      rw (gone, placed_eq stop t1 b v1 g idspace c acc removed),
      placed_valid stop t1 b v1 g c _ cached acc,
      placed-stored_self stop t1 b v1 g c _ cached acc,
      λ ne. placed-stored_ne stop t1 b v1 g c a.id (λ e. ne (sym e)) ∙ removed_own stop t a v f,
      λ j ne ne'. placed-stored_ne stop t1 b v1 g c j ne' ∙ removed_others stop t a v f j ne,
    )
