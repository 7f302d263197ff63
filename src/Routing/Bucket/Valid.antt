-- ===== src/Routing/Bucket/Valid.antt =====
-- flud/FludkRouting.py: what the methods of `kBucket` do to a bucket whose ids are distinct, lie in
-- its range, and are at most `k`.
use flud.Prelude.{
  ◌==◌, ℕ, suc, ◌≤◌, ◌≡◌, refl, ap, sym, Bool, true, false, ◌||◌, List, [], ◌∷◌, ◌++◌, arith, ok,
  raise, bucket_full, value_error, elem, erase, index, pop_at, nat_eq, ltb, if◌then◌else◌, length,
  length-append, inl, inr, Bool-cases, ltb→lt, All, All-append,
}
use flud.Routing.Node.{Node, ids, node_eq, same_node_iff}
use flud.Routing.NodeLists.{
  Distinct, known, drop_id, lookup_id, Fresh-known, Distinct-snoc, Distinct-drop_id, Fresh-drop_id,
  length-drop_id-le, drop_id-Fresh, length-drop_id, All-drop_id, known-Fresh,
}
use flud.Routing.Bucket.{Bucket, drop_old_contact, add_node, del_node, find_in, find_node}

abbrev pub InRange : Bucket → Node → Type 0
InRange b n = (b.begin ≤ n.id) × (n.id ≤ b.end)

pub record IsValid (b : Bucket) : Type 0 where
  pub fits : length b.contents ≤ b.k
  pub distinct : Distinct b.contents
  pub in_range : All (InRange b) b.contents

pub elem-known : (n : Node) (ns : List Node) → elem n ns ≡ true → known n.id ns ≡ true
unfolding elem known
elem-known n [] h = ground arith
elem-known n (m ∷ ns) h = ground (arith, same_node_iff m n, elem-known n ns)

-- Under distinct ids, the node that is removed is the one with its id.
erase-drop_id :
    (n : Node) (ns : List Node) → Distinct ns → elem n ns ≡ true → erase n ns ≡ ok (drop_id n.id ns)
unfolding elem erase drop_id
erase-drop_id n [] d h = ground arith
erase-drop_id n (m ∷ ns) d h =
    ground
      (arith, same_node_iff m n, elem-known n ns, known-Fresh m.id ns d.0, erase-drop_id n ns d.1)

elem-ids : (i : ℕ) (ns : List Node) → elem i (ids ns) ≡ known i ns
unfolding elem known
elem-ids i [] = refl
elem-ids i (n ∷ ns) = rw (elem-ids i ns)

pop-index :
    (i : ℕ) (ns : List Node)
    → known i ns ≡ true
    → (j : ℕ) × (index i (ids ns) ≡ ok j) × (pop_at ns j ≡ ok (drop_id i ns))
unfolding index pop_at drop_id known
pop-index i [] h = absurd (ground arith)
pop-index i (n ∷ ns) h = elim (Bool-cases (n.id == i)) [
  | inl here ↦ (0, rw here, rw here)
  | inr later ↦
      let (j, found, popped) = pop-index i ns (ground arith) in
      (suc j, rw (later, found), rw (later, popped))
]

-- On distinct ids the bucket drops the node's old contact, wherever it stood.
drop_old_contact-drop_id :
    (n : Node) (ns : List Node) → drop_old_contact n ns ≡ ok (drop_id n.id ns)
unfolding drop_old_contact
drop_old_contact-drop_id n ns = elim (Bool-cases (known n.id ns)) [
  | inl old ↦
      let (j, found, popped) = pop-index n.id ns old in rw (elem-ids n.id ns, old, found) popped
  | inr new ↦
      rw (elem-ids n.id ns, new) (ap ok (sym (drop_id-Fresh n.id ns (Fresh-known n.id ns new))))
]

find_in-lookup_id : (i : ℕ) (ns : List Node) → find_in i ns ≡ lookup_id i ns
unfolding find_in lookup_id
find_in-lookup_id i [] = refl
find_in-lookup_id i (n ∷ ns) = rw (find_in-lookup_id i ns)

-- Where `addNode` accepts the node: one that is there already, or any while there is room.
abbrev pub accepts : Bucket → Node → Bool
accepts b n = elem n b.contents || ltb (length b.contents) b.k

-- The bucket with the node at the tail, and no other contact of its id.
abbrev pub renewed : Bucket → Node → Bucket
renewed b n = record b { contents = drop_id n.id b.contents ++ (n ∷ []) }

-- `addNode`, on every branch, for a bucket with distinct ids: an accepted node ends at the tail
-- and its old contact is gone; any other raises.
pub add_node-renewed :
    (b : Bucket) (n : Node)
    → Distinct b.contents
    → add_node b n ≡ (if accepts b n then ok (renewed b n) else raise bucket_full)
unfolding add_node
add_node-renewed b n d = elim (Bool-cases (elem n b.contents)) [
  | inl old ↦ rw (old, erase-drop_id n b.contents d old)
  | inr new ↦ rw (new, drop_old_contact-drop_id n b.contents) (ground arith)
]

fits-renewed :
    (b : Bucket) (n : Node) → IsValid b → accepts b n ≡ true → length (renewed b n).contents ≤ b.k
fits-renewed b n v h = elim (Bool-cases (elem n b.contents)) [
  | inl old ↦ omega (
    arith,
    length-append (drop_id n.id b.contents) (n ∷ []),
    length-drop_id n.id b.contents (elem-known n b.contents old),
    v.fits,
  )
  | inr new ↦ omega (
    arith,
    length-append (drop_id n.id b.contents) (n ∷ []),
    length-drop_id-le n.id b.contents,
    ltb→lt (length b.contents) b.k (ground arith),
  )
]

-- An accepted node of the bucket's range leaves the bucket valid.
pub renewed-IsValid :
    (b : Bucket) (n : Node) → IsValid b → InRange b n → accepts b n ≡ true → IsValid (renewed b n)
renewed-IsValid b n v r h = record {
  fits = fits-renewed b n v h;
  distinct =
      Distinct-snoc n _ (Fresh-drop_id n.id b.contents v.distinct)
        (Distinct-drop_id n.id b.contents v.distinct);
  in_range = All-append _ _ (n ∷ []) (All-drop_id _ n.id b.contents v.in_range) (r, tt);
}

erase_missing : (n : Node) (ns : List Node) → elem n ns ≡ false → erase n ns ≡ raise value_error
unfolding elem erase
erase_missing n [] h = refl
erase_missing n (m ∷ ns) h = ground (arith, erase_missing n ns)

-- `delNode`, for a bucket with distinct ids: it removes the node if the bucket has exactly it,
-- and else changes nothing.
pub del_node_lem :
    (b : Bucket) (n : Node)
    → Distinct b.contents
    → del_node b n
      ≡ (if elem n b.contents then record b { contents = drop_id n.id b.contents } else b)
unfolding del_node
del_node_lem b n d = elim (Bool-cases (elem n b.contents)) [
  | inl old ↦ rw (old, erase-drop_id n b.contents d old, del_node)
  | inr new ↦ rw (new, erase_missing n b.contents new, del_node)
]

-- `findNode` finds the node with the id.
pub find_node-lookup_id : (b : Bucket) (i : ℕ) → find_node b i ≡ lookup_id i b.contents
unfolding find_node
find_node-lookup_id b i = find_in-lookup_id i b.contents
