-- ===== src/Routing/Table/Contents.antt =====
-- flud/FludkRouting.py: what a routing table stores, as a map from ids to nodes.
use flud.Prelude.{
  ℕ, suc, ◌-◌, ◌≤◌, ◌<◌, ◌≡◌, ◌≢◌, refl, ap, sym, Option, none, some, List, [], ◌∷◌, ◌++◌, arith,
  ltb, if◌then◌else◌, append_assoc, ◌∙◌, inl, inr, ◌⊎◌, All,
}
use flud.Routing.Node.{Node}
use flud.Routing.NodeLists.{
  Fresh, Distinct, drop_id, lookup_id, Fresh-drop_id, lookup_id-snoc_self, lookup_id-snoc_ne,
  lookup_id-drop_id_ne, lookup_id-Fresh,
}
use flud.Routing.Bucket.{Bucket}
use flud.Routing.Bucket.Valid.{IsValid, InRange, renewed}
use flud.Routing.Table.{all_contents}
use flud.Routing.Table.Search.{Chain, Chain-le}
use flud.Routing.Table.Split.{up_to, past, low_half, high_half, half_width}

abbrev pub or_else {ℓ} : {A : Type ℓ} → Option A → Option A → Option A
or_else none y = y
or_else (some x) y = some x

-- The node that the buckets hold under an id.
unfoldable pub stored : List Bucket → ℕ → Option Node
stored bs j = lookup_id j (all_contents bs)

lookup_id-append :
    (j : ℕ) (xs ys : List Node) → lookup_id j (xs ++ ys) ≡ or_else (lookup_id j xs) (lookup_id j ys)
unfolding lookup_id
lookup_id-append j [] ys = refl
lookup_id-append j (x ∷ xs) ys = ground (arith, lookup_id-append j xs ys)

all_contents-append :
    (xs ys : List Bucket) → all_contents (xs ++ ys) ≡ all_contents xs ++ all_contents ys
unfolding all_contents
all_contents-append [] ys = refl
all_contents-append (x ∷ xs) ys =
    ap (λ c. x.contents ++ c) (all_contents-append xs ys)
    ∙ sym (append_assoc x.contents (all_contents xs) (all_contents ys))

-- A table is the union of the maps of its buckets.
pub stored-append :
    (xs ys : List Bucket) (j : ℕ) → stored (xs ++ ys) j ≡ or_else (stored xs j) (stored ys j)
unfolding stored
stored-append xs ys j =
    rw all_contents-append (lookup_id-append j (all_contents xs) (all_contents ys))

pub stored-cons :
    (b : Bucket) (bs : List Bucket) (j : ℕ)
    → stored (b ∷ bs) j ≡ or_else (lookup_id j b.contents) (stored bs j)
unfolding stored all_contents
stored-cons b bs j = lookup_id-append j b.contents (all_contents bs)

-- Buckets in place of one another store the same if they agree under the id.
pub stored_replace :
    (pre : List Bucket) (b c : Bucket) (post : List Bucket) (j : ℕ)
    → lookup_id j b.contents ≡ lookup_id j c.contents
    → stored (pre ++ b ∷ post) j ≡ stored (pre ++ c ∷ post) j
stored_replace pre b c post j h = rw (
  stored-append pre (b ∷ post) j,
  stored-append pre (c ∷ post) j,
  stored-cons b post j,
  stored-cons c post j,
  h,
)

lookup_id-up_to :
    (e j : ℕ) (ns : List Node)
    → lookup_id j (up_to e ns) ≡ (if ltb e j then none else lookup_id j ns)
unfolding lookup_id up_to
lookup_id-up_to e j [] = ground arith
lookup_id-up_to e j (n ∷ ns) = ground (arith, lookup_id-up_to e j ns)

lookup_id-past :
    (e j : ℕ) (ns : List Node)
    → lookup_id j (past e ns) ≡ (if ltb e j then lookup_id j ns else none)
unfolding lookup_id past
lookup_id-past e j [] = ground arith
lookup_id-past e j (n ∷ ns) = ground (arith, lookup_id-past e j ns)

-- A split moves nodes and loses none.
pub stored_halves :
    (pre : List Bucket) (b : Bucket) (post : List Bucket) (j : ℕ)
    → stored (pre ++ low_half b ∷ high_half b ∷ post) j ≡ stored (pre ++ b ∷ post) j
unfolding low_half high_half
stored_halves pre b post j = ground (
  arith,
  stored-append pre (low_half b ∷ high_half b ∷ post) j,
  stored-append pre (b ∷ post) j,
  stored-cons b post j,
  stored-cons (low_half b) (high_half b ∷ post) j,
  stored-cons (high_half b) post j,
  lookup_id-up_to (b.end - half_width b) j b.contents,
  lookup_id-past (b.end - half_width b) j b.contents,
)

Fresh-in :
    (j : ℕ) (b : Bucket) (ns : List Node)
    → (b.end < j) ⊎ (j < b.begin)
    → All (InRange b) ns
    → Fresh j ns
Fresh-in j b [] o h = tt
Fresh-in j b (n ∷ ns) o h = (ground arith, Fresh-in j b ns o h.1)

-- Buckets on one side of an id hold no node with it.
pub stored_below :
    (lo : ℕ) (bs : List Bucket) (stop j : ℕ)
    → Chain lo bs stop
    → All IsValid bs
    → stop ≤ j
    → stored bs j ≡ none
stored_below lo [] stop j c v h = unfold stored all_contents lookup_id in refl
stored_below lo (b ∷ bs) stop j c v h =
    rw (stored-cons b bs j, stored_below (suc b.end) bs stop j c.2 v.1 h)
      (rw (
        lookup_id-Fresh j b.contents (
          Fresh-in j b b.contents (inl (omega (arith, Chain-le (suc b.end) bs stop c.2)))
            v.0.in_range)))

pub stored_above :
    (lo : ℕ) (bs : List Bucket) (stop j : ℕ)
    → Chain lo bs stop
    → All IsValid bs
    → j < lo
    → stored bs j ≡ none
stored_above lo [] stop j c v h = unfold stored all_contents lookup_id in refl
stored_above lo (b ∷ bs) stop j c v h =
    rw (stored-cons b bs j, stored_above (suc b.end) bs stop j c.2 v.1 (omega arith))
      (rw (lookup_id-Fresh j b.contents (Fresh-in j b b.contents (inr (omega arith)) v.0.in_range)))

-- What is stored under an id is what the bucket of its range holds.
pub stored_found :
    (pre : List Bucket) (b : Bucket) (post : List Bucket) (stop j : ℕ)
    → Chain 0 pre b.begin
    → Chain (suc b.end) post stop
    → b.begin ≤ j
    → j ≤ b.end
    → All IsValid pre
    → All IsValid post
    → stored (pre ++ b ∷ post) j ≡ lookup_id j b.contents
stored_found pre b post stop j below above least most vpre vpost = ground (
  arith,
  stored-append pre (b ∷ post) j,
  stored-cons b post j,
  stored_below 0 pre b.begin j below vpre least,
  stored_above (suc b.end) post stop j above vpost (omega arith),
)

pub lookup_id-renewed_self :
    (b : Bucket) (n : Node) → Distinct b.contents → lookup_id n.id (renewed b n).contents ≡ some n
lookup_id-renewed_self b n d =
    lookup_id-snoc_self n (drop_id n.id b.contents) (Fresh-drop_id n.id b.contents d)

pub lookup_id-renewed_ne :
    (b : Bucket) (n : Node) (j : ℕ)
    → n.id ≢ j
    → lookup_id j (renewed b n).contents ≡ lookup_id j b.contents
lookup_id-renewed_ne b n j h =
    lookup_id-snoc_ne j n (drop_id n.id b.contents) h ∙ lookup_id-drop_id_ne n.id j b.contents h
