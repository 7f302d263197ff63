-- ===== src/Routing/NodeCache/Fifo.antt =====
-- flud/FludkRouting.py: `NodeCache` against a bounded queue of nodes with distinct ids.
use flud.Prelude.{
  ℕ, suc, ◌≤◌, ◌≡◌, refl, ap, true, false, Option, none, some, List, [], ◌∷◌, ◌++◌, arith, ok, has,
  get, put, remove, erase, nth, pop_at, nat_eq, ltb, if◌then◌else◌, length, Dict, Bool-cases, inl,
  inr, length-append, ltb→lt,
}
use flud.Routing.Node.{Node, ids}
use flud.Routing.NodeLists.{
  Distinct, known, drop_id, lookup_id, Distinct-snoc, Distinct-drop_id, Fresh-known,
  length-drop_id-le, drop_id-Fresh,
}
use flud.Routing.NodeCache.{
  NodeCache, insert_node, get_node, quiet_erase, remove_node, new_cache, dict_pop, evict,
}

abbrev pub by_id : List Node → Dict ℕ Node
by_id [] = []
by_id (n ∷ ns) = (n.id, n) ∷ by_id ns

-- The cache holds the nodes `ns`, oldest first.
pub record Holds (c : NodeCache) (ns : List Node) : Type 0 where
  pub cache : c.cache ≡ by_id ns
  pub order : c.cache_order ≡ ids ns
  pub distinct : Distinct ns
  pub bounded : length ns ≤ c.size

abbrev pub rest_of : List Node → List Node
rest_of [] = []
rest_of (n ∷ ns) = ns

abbrev pub first_id : List Node → Option ℕ
first_id [] = none
first_id (n ∷ ns) = some n.id

-- What a bounded queue does with a node: the new queue, and the id that was pushed out.
unfoldable pub enqueue : ℕ → List Node → Node → List Node × Option ℕ
enqueue size ns n =
    if known n.id ns
    then (ns, none)
    else (if ltb (length ns) size
        then (ns ++ (n ∷ []), none)
        else (rest_of (ns ++ (n ∷ [])), first_id (ns ++ (n ∷ []))))

has-by_id : (i : ℕ) (ns : List Node) → has i (by_id ns) ≡ known i ns
unfolding has known
has-by_id i [] = refl
has-by_id i (n ∷ ns) = rw (has-by_id i ns)

get-by_id : (i : ℕ) (ns : List Node) → get i (by_id ns) ≡ lookup_id i ns
unfolding get lookup_id
get-by_id i [] = refl
get-by_id i (n ∷ ns) = rw (get-by_id i ns)

put-by_id :
    (n : Node) (ns : List Node)
    → known n.id ns ≡ false
    → put n.id n (by_id ns) ≡ by_id (ns ++ (n ∷ []))
unfolding put known
put-by_id n [] h = refl
put-by_id n (m ∷ ns) h = ground (arith, put-by_id n ns)

remove-by_id : (i : ℕ) (ns : List Node) → remove i (by_id ns) ≡ by_id (drop_id i ns)
unfolding remove drop_id
remove-by_id i [] = refl
remove-by_id i (n ∷ ns) = ground (arith, remove-by_id i ns)

erase-ids :
    (i : ℕ) (ns : List Node) → known i ns ≡ true → erase i (ids ns) ≡ ok (ids (drop_id i ns))
unfolding erase drop_id known
erase-ids i [] h = ground arith
erase-ids i (n ∷ ns) h = ground (arith, erase-ids i ns)

ids-snoc : (n : Node) (ns : List Node) → ids ns ++ (n.id ∷ []) ≡ ids (ns ++ (n ∷ []))
ids-snoc n [] = refl
ids-snoc n (m ∷ ns) = ap (◌∷◌ m.id) (ids-snoc n ns)

length-ids : (ns : List Node) → length (ids ns) ≡ length ns
length-ids [] = refl
length-ids (n ∷ ns) = ap suc (length-ids ns)

-- The eviction of the oldest node of a queue that is not empty.
evict-Holds :
    (c : NodeCache) (n : Node) (ns : List Node)
    → c.cache ≡ by_id (n ∷ ns)
    → c.cache_order ≡ ids (n ∷ ns)
    → evict c ≡ ok (record c { cache = by_id ns; cache_order = ids ns }, some n.id)
unfolding evict nth pop_at dict_pop has remove
evict-Holds c n ns hc ho = rw (ho, hc) (ground arith)

pub new_cache-Holds : (size : ℕ) → Holds (new_cache size) []
unfolding new_cache
new_cache-Holds size = record { cache = refl; order = refl; distinct = tt; bounded = omega arith }

-- The eviction brings a queue that is one too long back to its size.
evict_full :
    (c : NodeCache) (l : List Node)
    → c.cache ≡ by_id l
    → c.cache_order ≡ ids l
    → Distinct l
    → length l ≡ suc c.size
    → (c' : NodeCache) × (evict c ≡ ok (c', first_id l)) × Holds c' (rest_of l)
evict_full c [] hc ho d e = absurd (omega arith)
evict_full c (m ∷ ms) hc ho d e = (
  record c { cache = by_id ms; cache_order = ids ms },
  evict-Holds c m ms hc ho,
  record { cache = refl; order = refl; distinct = d.1; bounded = omega arith },
)

-- The cache with a new node at its end.
pushed : NodeCache → Node → NodeCache
pushed c n = record c { cache = put n.id n c.cache; cache_order = c.cache_order ++ (n.id ∷ []) }

module _ (c : NodeCache) (ns : List Node) (n : Node) (h : Holds c ns) where
  has-Holds : has n.id c.cache ≡ known n.id ns
  has-Holds = rw h.cache (has-by_id n.id ns)

  pushed_order : (pushed c n).cache_order ≡ ids (ns ++ (n ∷ []))
  unfolding pushed
  pushed_order = rw h.order (ids-snoc n ns)

  pushed_cache : known n.id ns ≡ false → (pushed c n).cache ≡ by_id (ns ++ (n ∷ []))
  unfolding pushed
  pushed_cache new = rw h.cache (put-by_id n ns new)

  length-pushed : length (pushed c n).cache_order ≡ suc (length ns)
  unfolding pushed
  length-pushed = rw h.order (omega (arith, length-append (ids ns) (n.id ∷ []), length-ids ns))

  pushed-Distinct : known n.id ns ≡ false → Distinct (ns ++ (n ∷ []))
  pushed-Distinct new = Distinct-snoc n ns (Fresh-known n.id ns new) h.distinct

-- `NodeCache.insertNode` on a cache that holds the nodes `ns`, oldest first: it does not raise.
-- The cache then holds what the bounded queue holds after the node, and the result is the id that
-- the queue pushed out, if it did.
pub insert_node-Holds :
    (c : NodeCache) (ns : List Node) (n : Node)
    → Holds c ns
    → (c' : NodeCache) × (insert_node c n ≡ ok (c', (enqueue c.size ns n).1))
      × Holds c' (enqueue c.size ns n).0
unfolding insert_node enqueue pushed
insert_node-Holds c ns n h = elim (Bool-cases (known n.id ns)) [
  | inl old ↦ rw old (c, rw (has-Holds c ns n h, old), h)
  | inr new ↦ elim (Bool-cases (ltb (length ns) c.size)) [
    | inl room ↦
        rw (new, room)
          (
            pushed c n,
            ground (arith, has-Holds c ns n h, length-pushed c ns n h),
            record {
              cache = pushed_cache c ns n h new;
              order = pushed_order c ns n h;
              distinct = pushed-Distinct c ns n h new;
              bounded = omega (arith, length-append ns (n ∷ []), ltb→lt _ _ room);
            },
          )
    | inr full ↦
        let (c', e, held) =
          evict_full (pushed c n) (ns ++ (n ∷ [])) (pushed_cache c ns n h new)
            (pushed_order c ns n h) (pushed-Distinct c ns n h new)
            (ground (arith, length-append ns (n ∷ []), h.bounded)) in
        rw (new, full) (c', ground (arith, has-Holds c ns n h, length-pushed c ns n h, e), held)
  ]
]

-- `NodeCache.removeNode` on a cache that holds the nodes `ns`: it does not raise, and the cache
-- then holds `ns` without the node with the id.
pub remove_node-Holds :
    (c : NodeCache) (ns : List Node) (n : Node)
    → Holds c ns
    → (c' : NodeCache) × (remove_node c n ≡ ok c') × Holds c' (drop_id n.id ns)
unfolding remove_node dict_pop quiet_erase
remove_node-Holds c ns n h = elim (Bool-cases (known n.id ns)) [
  | inl old ↦ (
    record c { cache = by_id (drop_id n.id ns); cache_order = ids (drop_id n.id ns) },
    ground (
      arith,
      has-Holds c ns n h,
      h.cache,
      h.order,
      ap (remove n.id) h.cache,
      ap (erase n.id) h.order,
      erase-ids n.id ns old,
      remove-by_id n.id ns,
    ),
    record {
      cache = refl;
      order = refl;
      distinct = Distinct-drop_id n.id ns h.distinct;
      bounded = omega (arith, length-drop_id-le n.id ns, h.bounded);
    },
  )
  | inr new ↦
      (c, rw (has-Holds c ns n h, new), rw (drop_id-Fresh n.id ns (Fresh-known n.id ns new)) h)
]

-- `getNode` finds the node of the queue with the id.
pub get_node-Holds :
    (c : NodeCache) (ns : List Node) (i : ℕ) → Holds c ns → get_node c i ≡ lookup_id i ns
unfolding get_node
get_node-Holds c ns i h = rw (h.cache) (get-by_id i ns)
