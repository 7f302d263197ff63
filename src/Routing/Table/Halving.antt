-- ===== src/Routing/Table/Halving.antt =====
-- flud/FludkRouting.py: the recursion of `insertNode` through `_splitBucket` ends.
use flud.Prelude.{
  ℕ, zero, suc, ◌+◌, ◌-◌, ◌*◌, ◌^◌, ◌≤◌, ◌≡◌, refl, sym, true, false, Option, none, some, List, [],
  ◌∷◌, ◌++◌, arith, ok, raise, ltb, ◌∙◌, length, inl, inr, ◌⊎◌, Bool-cases, nth, bucket_full,
  append_assoc,
}
use native.Mathlib.Nat.{pow-suc}
use flud.Routing.Node.{Node}
use flud.Routing.NodeCache.Fifo.{remove_node-Holds}
use flud.Routing.Bucket.{Bucket, update_node}
use flud.Routing.Bucket.Valid.{accepts, add_node-renewed}
use flud.Routing.Table.{Table, insert_loop, after_update, local_inside, split_bucket}
use flud.Routing.Table.Search.{Focus, make_focus, find_bucket-Focus, Chain-append}
use flud.Routing.Table.Split.{
  low_half, high_half, split_bucket-halves, low_half-IsValid, high_half-IsValid,
}
use flud.Routing.Table.Contents.{stored, stored_halves}
use flud.Routing.Table.Insert.{
  IsValid, After, wide, bucket-Sound, replaced, placed, placed_eq, placed_valid, placed-stored_ne,
  placed-stored_self,
}

-- What the caller is told: nothing, or the oldest node of the full bucket of an unchanged table.
abbrev pub Answer : Table → Bucket → Table → Option Node → Type 0
Answer t b t' r = (r ≡ none) ⊎ ((t' ≡ t) × ((o : Node) × (r ≡ some o) × (nth b.contents 0 ≡ ok o)))

abbrev pub Inserts : ℕ → ℕ → Table → Node → Bucket → Type 0
Inserts fuel stop t n b =
    (t' : Table) × (r : Option Node) × (insert_loop fuel t n ≡ ok (t', r))
    × After stop t n t'
    × Answer t b t' r

module _ (fuel stop : ℕ) (t : Table) (n : Node) (v : IsValid stop t)
    (f : Focus n.id 0 t.buckets stop) where
  -- The found bucket accepts the node.
  pub accepted : accepts f.bucket n ≡ true → Inserts (suc fuel) stop t n f.bucket
  accepted a =
      let (c, removed, held) = remove_node-Holds t.replacement_cache v.cached n v.cache in
      (
        placed stop t n v f c,
        none,
        placed_eq stop t n v f fuel c a removed,
        record {
          valid = placed_valid stop t n v f c _ held a;
          same_k = unfold placed in refl;
          same_node = unfold placed in refl;
          others = placed-stored_ne stop t n v f c;
          own = inl (placed-stored_self stop t n v f c _ held a);
        },
        inl refl,
      )

  full : accepts f.bucket n ≡ false → 3 ≤ length f.bucket.contents
  full a = ground (arith, (bucket-Sound stop t v n.id f).depth, v.deep)

  wide_full : accepts f.bucket n ≡ false → f.bucket.begin + 2 ≤ f.bucket.end
  wide_full a = wide f.bucket (bucket-Sound stop t v n.id f).valid (full a)

  oldest : (ns : List Node) → 3 ≤ length ns → (o : Node) × (nth ns 0 ≡ ok o)
  unfolding nth
  oldest [] h = absurd (omega arith)
  oldest (o ∷ ns) h = (o, refl)

  -- The code up to the test of the local node.
  refuses :
      accepts f.bucket n ≡ false
      → insert_loop (suc fuel) t n
        ≡ after_update (insert_loop fuel) t n (length f.pre) f.bucket (raise bucket_full)
  unfolding insert_loop update_node
  refuses a =
      let (found, got) = find_bucket-Focus t n.id stop v.chain f in
      rw (found, got, add_node-renewed f.bucket n (bucket-Sound stop t v n.id f).valid.distinct, a)

  -- A full bucket without the local node refuses the node.
  refused :
      accepts f.bucket n ≡ false
      → local_inside t f.bucket ≡ ok false
      → Inserts (suc fuel) stop t n f.bucket
  unfolding after_update
  refused a out =
      let (o, first) = oldest f.bucket.contents (full a) in
      (
        t,
        some o,
        refuses a ∙ rw (out, first),
        record {
          valid = v;
          same_k = refl;
          same_node = refl;
          others = λ j h. refl;
          own = inr (refl, (f, a));
        },
        inr (refl, (o, refl, first)),
      )

  -- The table after the split of the found bucket.
  halved : Table
  halved = record t { buckets = f.pre ++ low_half f.bucket ∷ high_half f.bucket ∷ f.post }

  halved_eq : f.bucket.begin ≤ f.bucket.end → split_bucket t (length f.pre) ≡ ok halved
  unfolding halved
  halved_eq w =
      let s = bucket-Sound stop t v n.id f in
      split_bucket-halves t f.pre f.bucket f.post f.whole f.below w s.valid s.depth

  halved_valid : f.bucket.begin + 2 ≤ f.bucket.end → IsValid stop halved
  unfolding halved
  halved_valid w =
      let s = bucket-Sound stop t v n.id f in
      let b = f.bucket in
      replaced stop t v n.id f (low_half b ∷ high_half b ∷ []) t.replacement_cache v.cached v.cache
        (
          record { valid = low_half-IsValid b s.valid; depth = unfold low_half in s.depth },
          (record { valid = high_half-IsValid b s.valid; depth = unfold high_half in s.depth }, tt),
        )
        (unfold low_half high_half in omega arith)

  halved_stored : (j : ℕ) → stored halved.buckets j ≡ stored t.buckets j
  unfolding halved
  halved_stored j = rw f.whole (stored_halves f.pre f.bucket f.post j)

  -- The half of the bucket whose range holds the id.
  half_focus :
      f.bucket.begin + 2 ≤ f.bucket.end
      → (g : Focus n.id 0 halved.buckets stop) × (2 * (g.bucket.end - g.bucket.begin)
          ≤ f.bucket.end - f.bucket.begin + 1)
  unfolding halved low_half high_half make_focus
  half_focus w =
      let low = low_half f.bucket in
      let high = high_half f.bucket in
      elim (Bool-cases (ltb low.end n.id)) [
        | inl upper ↦ (
          make_focus n.id _ (f.pre ++ (low ∷ [])) high f.post stop
              (sym (append_assoc f.pre (low ∷ []) (high ∷ f.post)))
              (Chain-append 0 f.bucket.begin f.pre (low ∷ []) _ f.below
                (refl, omega arith, omega arith))
              f.above (ground arith) f.at_most,
          omega arith,
        )
        | inr lower ↦ (
          make_focus n.id _ f.pre low (high ∷ f.post) stop refl f.below
              (omega arith, omega arith, f.above) f.at_least (ground arith),
          omega arith,
        )
      ]

  -- What an insertion into the halved table did, seen from the table.
  After-halved : (t' : Table) → After stop halved n t' → After stop t n t'
  unfolding halved
  After-halved t' a = record {
    valid = a.valid;
    same_k = a.same_k;
    same_node = a.same_node;
    others = λ j h. a.others j h ∙ halved_stored j;
    own = elim a.own [ inl new ↦ inl new | inr (old, why) ↦ inr (old ∙ halved_stored n.id, why) ];
  }

  -- A full bucket with the local node is split, and the node is inserted into the result.
  split_case :
      accepts f.bucket n ≡ false
      → local_inside t f.bucket ≡ ok true
      → ((b : Bucket) × Inserts fuel stop halved n b)
      → Inserts (suc fuel) stop t n f.bucket
  unfolding after_update
  split_case a inside (b, (t', r, e, after, answer)) = (
    t',
    none,
    refuses a ∙ rw (inside, halved_eq (omega (arith, f.at_least, f.at_most)), e),
    After-halved t' after,
    inl refl,
  )

local_inside-cases :
    (t : Table) (b : Bucket) (me : Node)
    → t.node ≡ some me
    → (local_inside t b ≡ ok true) ⊎ (local_inside t b ≡ ok false)
unfolding local_inside
local_inside-cases t b me h = ground arith

-- With the bucket's range within a power of two, the recursion ends within the exponent's rounds.
pub insert_loop-Inserts :
    (fuel stop : ℕ) (t : Table) (n me : Node) (v : IsValid stop t)
    → t.node ≡ some me
    → (f : Focus n.id 0 t.buckets stop) → f.bucket.end - f.bucket.begin ≤ 2 ^ fuel
    → Inserts (suc fuel) stop t n f.bucket
insert_loop-Inserts zero stop t n me v h f w = elim (Bool-cases (accepts f.bucket n)) [
  | inl fits ↦ accepted zero stop t n v f fits
  | inr over ↦ absurd (omega (arith, full zero stop t n v f over, wide_full zero stop t n v f over))
]
insert_loop-Inserts (suc m) stop t n me v h f w = elim (Bool-cases (accepts f.bucket n)) [
  | inl fits ↦ accepted (suc m) stop t n v f fits
  | inr over ↦ elim (local_inside-cases t f.bucket me h) [
    | inr out ↦ refused (suc m) stop t n v f over out
    | inl inside ↦
        let room = wide_full (suc m) stop t n v f over in
        let (g, small) = half_focus (suc m) stop t n v f room in
        split_case (suc m) stop t n v f over inside (
          g.bucket,
          insert_loop-Inserts m stop (halved (suc m) stop t n v f) n me
              (halved_valid (suc m) stop t n v f room) (unfold halved in h) g
              (omega (arith, pow-suc 2 m, small)),
        )
  ]
]
