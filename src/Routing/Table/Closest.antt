-- ===== src/Routing/Table/Closest.antt =====
-- flud/FludkRouting.py: `findNode`, the nodes that a query is answered with.
use flud.Prelude.{
  ◌&&◌, ◌||◌, ℕ, zero, suc, ◌+◌, ◌-◌, ◌≤◌, ◌<◌, ◌≡◌, refl, ap, sym, true, false, Option, none, some,
  List, [], ◌∷◌, ◌++◌, arith, ok, ltb, ◌∙◌, take, min, get_elem?, length, length-append, inl, inr,
  Bool-cases, All, All-append, append_assoc, subst, All-append_left, All-append_right, length-take,
}
use flud.Prelude.Sorting.{
  Sorted, sort_by, Sorted-take, Sorted-sort_by, All-take, All-sort_by, length-sort_by,
}
use flud.Routing.Node.{Node}
use flud.Routing.Bucket.{Bucket}
use flud.Routing.Table.{
  Table, index_overlapping, next_bucket, prev_bucket, contents_of, present, gather, gather_from,
  distance, find_closest,
}
use flud.Routing.Table.Search.{Chain, Chain-le, Focus, find_bucket-Focus, Chain-split, focus}

-- The place of a bucket among disjoint buckets is found by its range.
index_overlapping-append :
    (lo : ℕ) (pre : List Bucket) (b : Bucket) (post : List Bucket)
    → Chain lo pre b.begin
    → b.begin ≤ b.end
    → index_overlapping b (pre ++ b ∷ post) ≡ ok (length pre)
unfolding index_overlapping
index_overlapping-append lo [] b post h w = ground arith
index_overlapping-append lo (p ∷ pre) b post h w = ground (
  arith,
  index_overlapping-append (suc p.end) pre b post h.2 w,
  Chain-le (suc p.end) pre b.begin h.2,
)

abbrev first : List Bucket → Option Bucket
first [] = none
first (b ∷ bs) = some b

-- The last bucket of the front part, which is given nearest first.
abbrev back : List Bucket → List Bucket → List Bucket
back [] bs = bs
back (b ∷ near) bs = back near (b ∷ bs)

back-append : (near bs : List Bucket) → back near bs ≡ back near [] ++ bs
back-append [] bs = refl
back-append (b ∷ near) bs =
    back-append near (b ∷ bs)
    ∙ sym (ap (λ l. l ++ bs) (back-append near (b ∷ [])) ∙ append_assoc (back near []) (b ∷ []) bs)

length-back : (near : List Bucket) → length (back near []) ≡ length near
length-back [] = refl
length-back (b ∷ near) = omega (
  arith,
  ap length (back-append near (b ∷ [])),
  length-append (back near []) (b ∷ []),
  length-back near,
)

get_elem?-after :
    (pre : List Bucket) (b : Bucket) (post : List Bucket)
    → get_elem? (pre ++ b ∷ post) (length pre + 1) ≡ first post
get_elem?-after [] b [] = refl
get_elem?-after [] b (c ∷ post) = refl
get_elem?-after (p ∷ pre) b post =
    let e : suc (length pre) + 1 ≡ suc (length pre + 1) = omega arith in
    rw e (get_elem?-after pre b post)

get_elem?-middle :
    (pre : List Bucket) (b : Bucket) (post : List Bucket)
    → get_elem? (pre ++ b ∷ post) (length pre) ≡ some b
get_elem?-middle [] b post = refl
get_elem?-middle (p ∷ pre) b post = get_elem?-middle pre b post

module _ (stop : ℕ) (t : Table) (c : Chain 0 t.buckets stop) where
  index_of_middle :
      (pre : List Bucket) (b : Bucket) (post : List Bucket)
      → t.buckets ≡ pre ++ b ∷ post
      → index_overlapping b t.buckets ≡ ok (length pre)
  index_of_middle pre b post e =
      let (mid, h, g) = Chain-split 0 pre (b ∷ post) stop (subst (λ bs. Chain 0 bs stop) e c) in
      rw e (index_overlapping-append 0 pre b post (rw g.0 h) g.1)

  -- One step to the right, from a bucket to the one behind it.
  next_bucket-first :
      (pre : List Bucket) (b : Bucket) (post : List Bucket)
      → t.buckets ≡ pre ++ b ∷ post
      → next_bucket t (some b) ≡ ok (first post)
  unfolding next_bucket
  next_bucket-first pre b post e =
      rw (index_of_middle pre b post e) (rw e (ap ok (get_elem?-after pre b post)))

  -- One step to the left, from a bucket to the one before it.
  prev_bucket-first :
      (b : Bucket) (near rest : List Bucket)
      → t.buckets ≡ back near (b ∷ rest)
      → prev_bucket t (some b) ≡ ok (first near)
  unfolding prev_bucket
  prev_bucket-first b [] rest e = rw (index_of_middle [] b rest e)
  prev_bucket-first b (q ∷ near) rest e =
      let front = back near [] in
      let whole : t.buckets ≡ front ++ q ∷ b ∷ rest = e ∙ back-append near (q ∷ b ∷ rest) in
      let place : length (front ++ (q ∷ [])) ≡ suc (length front) =
        omega (arith, length-append front (q ∷ [])) in
      let found : get_elem? t.buckets (length front) ≡ some q =
        rw whole (get_elem?-middle front q (b ∷ rest)) in
      let here =
        index_of_middle (front ++ (q ∷ [])) b rest
          (whole ∙ sym (append_assoc front (q ∷ []) (b ∷ rest))) in
      let one : length (front ++ (q ∷ [])) - 1 ≡ length front = omega arith in
      ground (arith, here, place, one, found)

abbrev others : List Bucket → List Bucket
others [] = []
others (b ∷ bs) = bs

-- The number of nodes in buckets.
pub total : List Bucket → ℕ
total [] = 0
total (b ∷ bs) = length b.contents + total bs

abbrev pub AllIn {κ} : (Node → Type κ) → List Bucket → Type κ
AllIn P bs = All (λ b. All P b.contents) bs

total-first : (bs : List Bucket) → length (contents_of (first bs)) + total (others bs) ≡ total bs
unfolding total
total-first [] = omega arith
total-first (b ∷ bs) = refl

total_absent : (bs : List Bucket) → present (first bs) ≡ false → total bs ≡ 0
unfolding total
total_absent [] h = refl
total_absent (b ∷ bs) h = cc

shrinks :
    (post near : List Bucket) (f : ℕ)
    → (present (first post) || present (first near)) ≡ true
    → length post < suc f
    → length near < suc f
    → (length (others post) < f) × (length (others near) < f)
shrinks [] [] f h l l' = cc
shrinks [] (q ∷ near) f h l l' = omega arith
shrinks (b ∷ post) [] f h l l' = omega arith
shrinks (b ∷ post) (q ∷ near) f h l l' = omega arith

AllIn-first {κ} :
    (P : Node → Type κ) (bs : List Bucket)
    → AllIn P bs
    → All P (contents_of (first bs)) × AllIn P (others bs)
AllIn-first P [] h = (tt, tt)
AllIn-first P (b ∷ bs) h = (h.0, h.1)

module _ (stop : ℕ) (t : Table) (c : Chain 0 t.buckets stop) where
  next_step :
      (pre post : List Bucket)
      → t.buckets ≡ pre ++ post
      → (next_bucket t (first post) ≡ ok (first (others post)))
        × ((pre' : List Bucket) × (t.buckets ≡ pre' ++ others post))
  next_step pre [] e = (unfold next_bucket in refl, (pre, e))
  next_step pre (b ∷ post) e = (
    next_bucket-first stop t c pre b post e,
    (pre ++ (b ∷ []), e ∙ sym (append_assoc pre (b ∷ []) post)),
  )

  prev_step :
      (near rest : List Bucket)
      → t.buckets ≡ back near rest
      → (prev_bucket t (first near) ≡ ok (first (others near)))
        × ((rest' : List Bucket) × (t.buckets ≡ back (others near) rest'))
  prev_step [] rest e = (unfold prev_bucket in refl, (rest, e))
  prev_step (q ∷ near) rest e = (prev_bucket-first stop t c q near rest e, (q ∷ rest, e))

module _ (stop : ℕ) (t : Table) (c : Chain 0 t.buckets stop) (P : Node → Type 0) where
  -- A gathering from `nodes` with buckets left on either side: it ends, its nodes come from there,
  -- and it is long enough, or holds all that there is.
  abbrev Gathers : ℕ → List Node → List Bucket → List Bucket → Type 0
  Gathers fuel nodes post near =
      (r : List Node) × (gather fuel t nodes (first post) (first near) ≡ ok r)
      × All P r
      × (min t.k (length nodes + total post + total near) ≤ length r)
      × (length r ≤ length nodes + total post + total near)

  gather_lem :
      (fuel : ℕ) (nodes : List Node) (pre post near rest : List Bucket)
      → t.buckets ≡ pre ++ post
      → t.buckets ≡ back near rest
      → All P nodes
      → AllIn P post
      → AllIn P near
      → length post < fuel
      → length near < fuel
      → Gathers fuel nodes post near
  unfolding gather
  gather_lem zero nodes pre post near rest e e' h hp hn l l' = absurd (omega arith)
  gather_lem (suc f) nodes pre post near rest e e' h hp hn l l' =
      elim (Bool-cases (ltb (length nodes) t.k && (present (first post) || present (first near)))) [
        | inl more ↦
            let (next, (pre', split)) = next_step stop t c pre post e in
            let (prev, (rest', split')) = prev_step stop t c near rest e' in
            let (less, less') = shrinks post near f (ground arith) l l' in
            let new = contents_of (first post) ++ contents_of (first near) in
            let (r, done, from, low, high) =
              gather_lem f (nodes ++ new) pre' (others post) (others near) rest' split split'
                (All-append P nodes new h
                  (All-append P _ _ (AllIn-first P post hp).0 (AllIn-first P near hn).0))
                (AllIn-first P post hp).1 (AllIn-first P near hn).1 less less' in
            let size = length-append nodes new in
            let size' = length-append (contents_of (first post)) (contents_of (first near)) in
            (
              r,
              rw (more, next, prev) done,
              from,
              omega (arith, low, size, size', total-first post, total-first near),
              omega (arith, high, size, size', total-first post, total-first near),
            )
        | inr enough ↦
            (nodes, rw enough, h, ground (arith, total_absent post, total_absent near), omega arith)
      ]

-- The table as what stands before a bucket, nearest first, and what stands behind it.
abbrev nearest : List Bucket → List Bucket → List Bucket
nearest [] acc = acc
nearest (p ∷ pre) acc = nearest pre (p ∷ acc)

back-nearest : (pre acc rest : List Bucket) → back (nearest pre acc) rest ≡ back acc (pre ++ rest)
back-nearest [] acc rest = refl
back-nearest (p ∷ pre) acc rest = back-nearest pre (p ∷ acc) rest

length-nearest : (pre acc : List Bucket) → length (nearest pre acc) ≡ length pre + length acc
length-nearest [] acc = omega arith
length-nearest (p ∷ pre) acc = omega (arith, length-nearest pre (p ∷ acc))

total-nearest : (pre acc : List Bucket) → total (nearest pre acc) ≡ total pre + total acc
unfolding total
total-nearest [] acc = omega arith
total-nearest (p ∷ pre) acc = omega (arith, total-nearest pre (p ∷ acc))

AllIn-nearest {κ} :
    (P : Node → Type κ) (pre acc : List Bucket)
    → AllIn P pre
    → AllIn P acc
    → AllIn P (nearest pre acc)
AllIn-nearest P [] acc h g = g
AllIn-nearest P (p ∷ pre) acc h g = AllIn-nearest P pre (p ∷ acc) h.1 (h.0, g)

total-append : (xs ys : List Bucket) → total (xs ++ ys) ≡ total xs + total ys
unfolding total
total-append [] ys = omega arith
total-append (x ∷ xs) ys = omega (arith, total-append xs ys)

-- The nodes that `findNode` sorts: from the buckets, and the bucket's depth of them or all.
pub gather_from_lem :
    (stop : ℕ) (t : Table) (c : Chain 0 t.buckets stop) (P : Node → Type 0) (i : ℕ)
    (f : Focus i 0 t.buckets stop)
    → AllIn P t.buckets
    → (r : List Node) × (gather_from t f.bucket ≡ ok r)
      × All P r
      × (min t.k (total t.buckets) ≤ length r)
      × (length r ≤ total t.buckets)
unfolding gather_from total
gather_from_lem stop t c P i f all =
    let b = f.bucket in
    let whole_all = subst (AllIn P) f.whole all in
    let pres = All-append_left _ f.pre (b ∷ f.post) whole_all in
    let (here, posts) = All-append_right _ f.pre (b ∷ f.post) whole_all in
    let near = nearest f.pre [] in
    let back_eq = f.whole ∙ sym (back-nearest f.pre [] (b ∷ f.post)) in
    let size = ap total f.whole ∙ total-append f.pre (b ∷ f.post) in
    let count = ap length f.whole ∙ length-append f.pre (b ∷ f.post) in
    elim (Bool-cases (ltb (length b.contents) t.k)) [
      | inl few ↦
          let next = next_bucket-first stop t c f.pre b f.post f.whole in
          let prev = prev_bucket-first stop t c b near f.post back_eq in
          let (r, done, from, low, high) =
            gather_lem stop t c P (suc (length t.buckets)) b.contents (f.pre ++ (b ∷ [])) f.post
              near (b ∷ f.post) (f.whole ∙ sym (append_assoc f.pre (b ∷ []) f.post)) back_eq here
              posts (AllIn-nearest P f.pre [] pres tt) (omega (arith, count))
              (omega (arith, count, length-nearest f.pre [])) in
          (
            r,
            rw (few, next, prev) done,
            from,
            omega (arith, low, size, total-nearest f.pre []),
            omega (arith, high, size, total-nearest f.pre []),
          )
      | inr enough ↦ (b.contents, rw enough, here, ground (arith, enough), omega (arith, size))
    ]

-- `findNode`, where the buckets cover the ids below `stop` one after another and the id is below
-- `stop`: it never raises and its loop ends. Its answer is ordered by the XOR distance to the id,
-- has the depth of a bucket as its length, or else the number of nodes in the table, and what
-- holds for all nodes of the buckets holds for those of the answer.
pub find_closest_lem :
    (stop : ℕ) (t : Table) (i : ℕ) (P : Node → Type 0)
    → Chain 0 t.buckets stop
    → i < stop
    → AllIn P t.buckets
    → (r : List Node) × (find_closest t i ≡ ok r)
      × Sorted (distance i) r
      × All P r
      × (length r ≡ min t.k (total t.buckets))
unfolding find_closest
find_closest_lem stop t i P c h all =
    let f = focus i 0 t.buckets stop c (omega arith) h in
    let (found, got) = find_bucket-Focus t i stop c f in
    let (nodes, gathered, from, low, high) = gather_from_lem stop t c P i f all in
    let sorted = sort_by (distance i) nodes in
    (
      take t.k sorted,
      rw (found, got, gathered),
      Sorted-take (distance i) t.k sorted (Sorted-sort_by (distance i) nodes),
      All-take P t.k sorted (All-sort_by (distance i) P nodes from),
      omega (arith, length-take t.k sorted, length-sort_by (distance i) nodes),
    )
