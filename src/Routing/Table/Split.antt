-- ===== src/Routing/Table/Split.antt =====
-- flud/FludkRouting.py: `_splitBucket` on a valid bucket.
use flud.Prelude.{
  ℕ, suc, ◌+◌, ◌-◌, ◌/◌, ◌≤◌, ◌<◌, ◌≡◌, refl, ap, sym, true, false, List, [], ◌∷◌, ◌++◌, arith, ok,
  ltb, if◌then◌else◌, append_assoc, append-nil, length, length-append, inl, inr, Bool-cases, All,
  set, insert_at-append, nth-append, elem, subst, ◌∙◌, All-map,
}
use flud.Routing.Node.{Node, same_node_iff, node_eq}
use flud.Routing.NodeLists.{Fresh, Distinct, drop_id, drop_id-Fresh}
use flud.Routing.Bucket.{Bucket, new_bucket, add_node, del_node}
use flud.Routing.Bucket.Valid.{IsValid, InRange, add_node-renewed, del_node_lem}
use flud.Routing.Table.{Table, index_covering, move_nodes, split_bucket}
use flud.Routing.Table.Search.{Chain, Chain-le}

-- The nodes with ids up to `e`, and those past it.
unfoldable pub up_to : ℕ → List Node → List Node
up_to e [] = []
up_to e (n ∷ ns) = if ltb e n.id then up_to e ns else n ∷ up_to e ns

unfoldable pub past : ℕ → List Node → List Node
past e [] = []
past e (n ∷ ns) = if ltb e n.id then n ∷ past e ns else past e ns

pub All-up_to {κ} : (P : Node → Type κ) (e : ℕ) (ns : List Node) → All P ns → All P (up_to e ns)
unfolding up_to
All-up_to P e [] h = tt
All-up_to P e (n ∷ ns) h =
    elim (ltb e n.id) as (λ b. All P (if b then up_to e ns else n ∷ up_to e ns)) [
      | true ↦ All-up_to P e ns h.1
      | false ↦ (h.0, All-up_to P e ns h.1)
    ]

pub All-past {κ} : (P : Node → Type κ) (e : ℕ) (ns : List Node) → All P ns → All P (past e ns)
unfolding past
All-past P e [] h = tt
All-past P e (n ∷ ns) h =
    elim (ltb e n.id) as (λ b. All P (if b then n ∷ past e ns else past e ns)) [
      | true ↦ (h.0, All-past P e ns h.1)
      | false ↦ All-past P e ns h.1
    ]

Distinct-up_to : (e : ℕ) (ns : List Node) → Distinct ns → Distinct (up_to e ns)
unfolding up_to
Distinct-up_to e [] h = tt
Distinct-up_to e (n ∷ ns) h =
    elim (ltb e n.id) as (λ b. Distinct (if b then up_to e ns else n ∷ up_to e ns)) [
      | true ↦ Distinct-up_to e ns h.1
      | false ↦ (All-up_to _ e ns h.0, Distinct-up_to e ns h.1)
    ]

Distinct-past : (e : ℕ) (ns : List Node) → Distinct ns → Distinct (past e ns)
unfolding past
Distinct-past e [] h = tt
Distinct-past e (n ∷ ns) h =
    elim (ltb e n.id) as (λ b. Distinct (if b then n ∷ past e ns else past e ns)) [
      | true ↦ (All-past _ e ns h.0, Distinct-past e ns h.1)
      | false ↦ Distinct-past e ns h.1
    ]

pub length-up_to-past :
    (e : ℕ) (ns : List Node) → length (up_to e ns) + length (past e ns) ≡ length ns
unfolding up_to past
length-up_to-past e [] = omega arith
length-up_to-past e (n ∷ ns) = ground (arith, length-up_to-past e ns)

up_to-bound : (e : ℕ) (ns : List Node) → All (λ n. n.id ≤ e) (up_to e ns)
unfolding up_to
up_to-bound e [] = tt
up_to-bound e (n ∷ ns) = elim (Bool-cases (ltb e n.id)) [
  | inl more ↦ rw more (up_to-bound e ns)
  | inr less ↦ rw less (ground arith, up_to-bound e ns)
]

past-bound : (e : ℕ) (ns : List Node) → All (λ n. e < n.id) (past e ns)
unfolding past
past-bound e [] = tt
past-bound e (n ∷ ns) = elim (Bool-cases (ltb e n.id)) [
  | inl more ↦ rw more (ground arith, past-bound e ns)
  | inr less ↦ rw less (past-bound e ns)
]

All-both {κ} :
    (P Q : Node → Type κ) (ns : List Node) → All P ns → All Q ns → All (λ n. P n × Q n) ns
All-both P Q [] h g = tt
All-both P Q (n ∷ ns) h g = ((h.0, g.0), All-both P Q ns h.1 g.1)

-- A node in the middle of a list of distinct nodes.
middle-Fresh : (n : Node) (xs ys : List Node) → Distinct (xs ++ n ∷ ys) → Fresh n.id xs
middle-Fresh n [] ys d = tt
middle-Fresh n (x ∷ xs) ys d = (λ e. (mid_of xs d.0) (sym e), middle-Fresh n xs ys d.1)
  where
    mid_of : {i : ℕ} (zs : List Node) → Fresh i (zs ++ n ∷ ys) → n.id ≡ i → ⊥
    mid_of [] f = f.0
    mid_of (z ∷ zs) f = mid_of zs f.1

middle_out : (n : Node) (xs ys : List Node) → Distinct (xs ++ n ∷ ys) → Distinct (xs ++ ys)
middle_out n [] ys d = d.1
middle_out n (x ∷ xs) ys d = (out x.id xs d.0, middle_out n xs ys d.1)
  where
    out : (i : ℕ) (zs : List Node) → Fresh i (zs ++ n ∷ ys) → Fresh i (zs ++ ys)
    out i [] f = f.1
    out i (z ∷ zs) f = (f.0, out i zs f.1)

middle_drop :
    (n : Node) (xs ys : List Node) → Fresh n.id xs → drop_id n.id (xs ++ n ∷ ys) ≡ xs ++ ys
unfolding drop_id
middle_drop n [] ys f = ground arith
middle_drop n (x ∷ xs) ys f = ground (arith, middle_drop n xs ys f.1)

middle_elem : (n : Node) (xs ys : List Node) → elem n (xs ++ n ∷ ys) ≡ true
unfolding elem
middle_elem n [] ys = ground (arith, same_node_iff n n)
middle_elem n (x ∷ xs) ys = ground (arith, middle_elem n xs ys)

Fresh-not-elem : (n : Node) (xs : List Node) → Fresh n.id xs → elem n xs ≡ false
unfolding elem
Fresh-not-elem n [] f = refl
Fresh-not-elem n (x ∷ xs) f = ground (arith, same_node_iff x n, Fresh-not-elem n xs f.1)

Distinct-left : (xs ys : List Node) → Distinct (xs ++ ys) → Distinct xs
Distinct-left [] ys d = tt
Distinct-left (x ∷ xs) ys d = (left x.id xs d.0, Distinct-left xs ys d.1)
  where
    left : (i : ℕ) (zs : List Node) → Fresh i (zs ++ ys) → Fresh i zs
    left i [] f = tt
    left i (z ∷ zs) f = (f.0, left i zs f.1)

add-Fresh :
    (n : Node) (nb : Bucket)
    → Distinct nb.contents
    → Fresh n.id nb.contents
    → length nb.contents < nb.k
    → add_node nb n ≡ ok (record nb { contents = nb.contents ++ (n ∷ []) })
add-Fresh n nb d f room = ground (
  arith,
  add_node-renewed nb n d,
  drop_id-Fresh n.id nb.contents f,
  Fresh-not-elem n nb.contents f,
)

Distinct-regroup :
    (xs : List Node) (n : Node) (ys : List Node)
    → Distinct (xs ++ n ∷ ys)
    → Distinct ((xs ++ (n ∷ [])) ++ ys)
Distinct-regroup xs n ys d = subst Distinct (sym (append_assoc xs (n ∷ []) ys)) d

-- One round of the loop for a node that moves: it leaves the old bucket and ends the new one.
move_one :
    (n : Node) (kept ns moved : List Node) (b nb : Bucket)
    → Distinct (kept ++ n ∷ ns)
    → Distinct (moved ++ n ∷ ns)
    → length moved < nb.k
    → (del_node (record b { contents = kept ++ n ∷ ns }) n ≡ record b { contents = kept ++ ns })
      × (add_node (record nb { contents = moved }) n
          ≡ ok (record nb { contents = moved ++ (n ∷ []) }))
move_one n kept ns moved b nb d g room = (
  rw (del_node_lem (record b { contents = kept ++ n ∷ ns }) n d, middle_elem n kept ns)
      (ap (λ c. record b { contents = c }) (middle_drop n kept ns (middle-Fresh n kept ns d))),
  add-Fresh n (record nb { contents = moved }) (Distinct-left moved (n ∷ ns) g)
      (middle-Fresh n moved ns g) room,
)

move_nodes_lem :
    (ns kept moved : List Node) (b nb : Bucket)
    → Distinct (kept ++ ns)
    → Distinct (moved ++ ns)
    → length moved + length ns ≤ nb.k
    → move_nodes ns (record b { contents = kept ++ ns }) (record nb { contents = moved })
      ≡ ok (
        record b { contents = kept ++ up_to b.end ns },
        record nb { contents = moved ++ past b.end ns },
      )
unfolding move_nodes up_to past
move_nodes_lem [] kept moved b nb d g room = ground (arith, append-nil kept, append-nil moved)
move_nodes_lem (n ∷ ns) kept moved b nb d g room = elim (Bool-cases (ltb b.end n.id)) [
  | inl go ↦
      let (deleted, added) = move_one n kept ns moved b nb d g (omega arith) in
      rw (go, deleted, added)
        (move_nodes_lem ns kept (moved ++ (n ∷ [])) b nb (middle_out n kept ns d)
            (Distinct-regroup moved n ns g) (omega (arith, length-append moved (n ∷ [])))
          ∙ ap
              (λ m. ok (record b { contents = kept ++ up_to b.end ns }, record nb { contents = m }))
              (append_assoc moved (n ∷ []) (past b.end ns)))
  | inr stay ↦ rw stay (
      ap (λ c. move_nodes ns (record b { contents = c }) (record nb { contents = moved }))
        (sym (append_assoc kept (n ∷ []) ns))
      ∙ move_nodes_lem ns (kept ++ (n ∷ [])) moved b nb (Distinct-regroup kept n ns d)
          (middle_out n moved ns g) (omega arith)
      ∙ ap (λ c. ok (record b { contents = c }, record nb { contents = moved ++ past b.end ns }))
          (append_assoc kept (n ∷ []) (up_to b.end ns)))
]

-- The two halves of a bucket.
abbrev pub half_width : Bucket → ℕ
half_width b = (b.end - b.begin) / 2

unfoldable pub low_half : Bucket → Bucket
low_half b =
    let end = b.end - half_width b in record b { end = end; contents = up_to end b.contents }

unfoldable pub high_half : Bucket → Bucket
high_half b =
    let end = b.end - half_width b in record b { begin = end + 1; contents = past end b.contents }

index_covering-append :
    (lo : ℕ) (pre : List Bucket) (b : Bucket) (post : List Bucket)
    → Chain lo pre b.begin
    → b.begin ≤ b.end
    → index_covering b.begin (pre ++ b ∷ post) ≡ ok (length pre)
unfolding index_covering
index_covering-append lo [] b post h w = ground arith
index_covering-append lo (p ∷ pre) b post h w = ground (
  arith,
  index_covering-append (suc p.end) pre b post h.2 w,
  Chain-le (suc p.end) pre b.begin h.2,
)

pub set-append :
    (pre : List Bucket) (b c : Bucket) (post : List Bucket)
    → set (pre ++ b ∷ post) (length pre) c ≡ pre ++ c ∷ post
set-append [] b c post = refl
set-append (p ∷ pre) b c post = ap (◌∷◌ p) (set-append pre b c post)

-- `_splitBucket` of a valid bucket of the table's depth, where the buckets before it cover the
-- ids up to its begin one after another: it does not raise, and puts the lower half and then the
-- upper half of the bucket, each with the nodes of its range in their order, where the bucket
-- stood.
pub split_bucket-halves :
    (t : Table) (pre : List Bucket) (b : Bucket) (post : List Bucket)
    → t.buckets ≡ pre ++ b ∷ post
    → Chain 0 pre b.begin
    → b.begin ≤ b.end
    → IsValid b
    → b.k ≡ t.k
    → split_bucket t (length pre)
      ≡ ok (record t { buckets = pre ++ low_half b ∷ high_half b ∷ post })
unfolding split_bucket low_half high_half
split_bucket-halves t pre b post e c w v ek =
    let end = b.end - half_width b in
    rw (e, nth-append, index_covering-append 0 pre b post c w)
      (rw
        (move_nodes_lem b.contents [] [] (record b { end = end }) (new_bucket (end + 1) b.end t.k)
          v.distinct v.distinct (omega (arith, v.fits, ek)))
        (rw (set-append, insert_at-append) (rw ek)))

-- The halves are valid, and cover the bucket's range.
pub low_half-IsValid : (b : Bucket) → IsValid b → IsValid (low_half b)
unfolding low_half
low_half-IsValid b v =
    let end = b.end - half_width b in
    record {
      fits = omega (arith, length-up_to-past end b.contents, v.fits);
      distinct = Distinct-up_to end b.contents v.distinct;
      in_range =
          All-map _ _ _ (λ n h. (h.0.0, h.1))
            (All-both (InRange b) _ _ (All-up_to _ end b.contents v.in_range)
              (up_to-bound end b.contents));
    }

pub high_half-IsValid : (b : Bucket) → IsValid b → IsValid (high_half b)
unfolding high_half
high_half-IsValid b v =
    let end = b.end - half_width b in
    record {
      fits = omega (arith, length-up_to-past end b.contents, v.fits);
      distinct = Distinct-past end b.contents v.distinct;
      in_range =
          All-map _ _ _ (λ n h. (omega arith, h.0.1))
            (All-both (InRange b) _ _ (All-past _ end b.contents v.in_range)
              (past-bound end b.contents));
    }
