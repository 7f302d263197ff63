-- ===== src/Routing/Table/Search.antt =====
-- flud/FludkRouting.py: `_findBucket` on buckets that cover the id space one after another.
use flud.Prelude.{
  ℕ, zero, suc, ◌+◌, ◌-◌, ◌/◌, ◌≤◌, ◌<◌, ◌≡◌, refl, ap, sym, some, List, [], ◌∷◌, ◌++◌, arith, ok,
  raise, id_too_large, ltb, if◌then◌else◌, length, length-append, inl, inr, Bool-cases, ltb→lt,
  get_elem?, nth, nth-append,
}
use flud.Routing.Bucket.{Bucket, before}
use flud.Routing.Table.{Table, bisect_loop, bisect_left, find_bucket}

-- The buckets cover the ids from `lo` up to, but not including, `stop`, each where the one before
-- it ends.
abbrev pub Chain : ℕ → List Bucket → ℕ → Type 0
Chain lo [] stop = lo ≡ stop
Chain lo (b ∷ bs) stop = (b.begin ≡ lo) × (b.begin ≤ b.end) × Chain (suc b.end) bs stop

pub Chain-le : (lo : ℕ) (bs : List Bucket) (stop : ℕ) → Chain lo bs stop → lo ≤ stop
Chain-le lo [] stop h = omega arith
Chain-le lo (b ∷ bs) stop h = omega (arith, Chain-le (suc b.end) bs stop h.2)

pub Chain-append :
    (lo mid : ℕ) (xs ys : List Bucket) (stop : ℕ)
    → Chain lo xs mid
    → Chain mid ys stop
    → Chain lo (xs ++ ys) stop
Chain-append lo mid [] ys stop h g = rw h g
Chain-append lo mid (x ∷ xs) ys stop h g = (h.0, h.1, Chain-append (suc x.end) mid xs ys stop h.2 g)

pub Chain-split :
    (lo : ℕ) (xs ys : List Bucket) (stop : ℕ)
    → Chain lo (xs ++ ys) stop
    → (mid : ℕ) × Chain lo xs mid × Chain mid ys stop
Chain-split lo [] ys stop h = (lo, refl, h)
Chain-split lo (x ∷ xs) ys stop h =
    let (mid, c, d) = Chain-split (suc x.end) xs ys stop h.2 in (mid, (h.0, h.1, c), d)

-- The number of leading buckets that end before `i`.
pub rank : ℕ → List Bucket → ℕ
rank i [] = 0
rank i (b ∷ bs) = if ltb b.end i then suc (rank i bs) else 0

-- The bucket whose range holds `i`, with the buckets on either side of it.
pub record Focus (i lo : ℕ) (bs : List Bucket) (stop : ℕ) : Type 0 where
  pub pre : List Bucket
  pub bucket : Bucket
  pub post : List Bucket
  pub whole : bs ≡ pre ++ bucket ∷ post
  pub place : length pre ≡ rank i bs
  pub below : Chain lo pre bucket.begin
  pub above : Chain (suc bucket.end) post stop
  pub at_least : bucket.begin ≤ i
  pub at_most : i ≤ bucket.end

pub focus :
    (i lo : ℕ) (bs : List Bucket) (stop : ℕ)
    → Chain lo bs stop
    → lo ≤ i
    → i < stop
    → Focus i lo bs stop
unfolding rank
focus i lo [] stop h l u = absurd (omega arith)
focus i lo (b ∷ bs) stop h l u = elim (Bool-cases (ltb b.end i)) [
  | inl past ↦
      let f = focus i (suc b.end) bs stop h.2 (omega (arith, ltb→lt b.end i past)) u in
      record {
        pre = b ∷ f.pre;
        bucket = f.bucket;
        post = f.post;
        whole = ap (◌∷◌ b) f.whole;
        place = rw past (ap suc f.place);
        below = (h.0, h.1, f.below);
        above = f.above;
        at_least = f.at_least;
        at_most = f.at_most;
      }
  | inr here ↦ record {
    pre = [];
    bucket = b;
    post = bs;
    whole = refl;
    place = rw here;
    below = sym h.0;
    above = h.2;
    at_least = omega arith;
    at_most = ground arith;
  }
]

pub rank-append :
    (i lo : ℕ) (pre : List Bucket) (b : Bucket) (post : List Bucket)
    → Chain lo pre b.begin
    → b.begin ≤ i
    → i ≤ b.end
    → length pre ≡ rank i (pre ++ b ∷ post)
unfolding rank
rank-append i lo [] b post c l u = ground arith
rank-append i lo (p ∷ pre) b post c l u =
    ground
      (arith, rank-append i (suc p.end) pre b post c.2 l u, Chain-le (suc p.end) pre b.begin c.2)

-- A bucket whose range holds the id, in its place.
unfoldable pub make_focus :
    (i : ℕ) (bs pre : List Bucket) (b : Bucket) (post : List Bucket) (stop : ℕ)
    → bs ≡ pre ++ b ∷ post
    → Chain 0 pre b.begin
    → Chain (suc b.end) post stop
    → b.begin ≤ i
    → i ≤ b.end
    → Focus i 0 bs stop
make_focus i bs pre b post stop e c d l u = record {
  pre = pre;
  bucket = b;
  post = post;
  whole = e;
  place = rw e (rank-append i 0 pre b post c l u);
  below = c;
  above = d;
  at_least = l;
  at_most = u;
}

rank-le-length : (i : ℕ) (bs : List Bucket) → rank i bs ≤ length bs
unfolding rank
rank-le-length i [] = omega arith
rank-le-length i (b ∷ bs) = ground (arith, rank-le-length i bs)

rank_past :
    (i lo : ℕ) (bs : List Bucket) (stop : ℕ) → Chain lo bs stop → stop ≤ i → rank i bs ≡ length bs
unfolding rank
rank_past i lo [] stop h g = refl
rank_past i lo (b ∷ bs) stop h g =
    ground (arith, rank_past i (suc b.end) bs stop h.2 g, Chain-le (suc b.end) bs stop h.2)

Chain-end :
    (lo : ℕ) (bs : List Bucket) (stop m : ℕ) (b : Bucket)
    → Chain lo bs stop
    → get_elem? bs m ≡ some b
    → lo ≤ b.end
Chain-end lo [] stop m b h e = absurd (ground arith)
Chain-end lo (c ∷ bs) stop zero b h e = ground arith
Chain-end lo (c ∷ bs) stop (suc m) b h e = omega (arith, Chain-end (suc c.end) bs stop m b h.2 e)

-- In such a list the buckets that end before `i` are exactly those below the rank.
before-rank :
    (i lo : ℕ) (bs : List Bucket) (stop m : ℕ) (b : Bucket)
    → Chain lo bs stop
    → get_elem? bs m ≡ some b
    → before b i ≡ ltb m (rank i bs)
unfolding rank before
before-rank i lo [] stop m b h e = ground arith
before-rank i lo (c ∷ bs) stop zero b h e = ground arith
before-rank i lo (c ∷ bs) stop (suc m) b h e =
    ground
      (arith, before-rank i (suc c.end) bs stop m b h.2 e, Chain-end (suc c.end) bs stop m b h.2 e)

get_elem?_below :
    (bs : List Bucket) (m : ℕ) → m < length bs → (b : Bucket) × (get_elem? bs m ≡ some b)
get_elem?_below [] m h = absurd (omega arith)
get_elem?_below (b ∷ bs) zero h = (b, refl)
get_elem?_below (b ∷ bs) (suc m) h = get_elem?_below bs m (omega arith)

-- The binary search ends at the rank, within as many rounds as there are buckets.
bisect_loop-rank :
    (f : ℕ) (bs : List Bucket) (i lo hi start stop : ℕ)
    → Chain start bs stop
    → hi ≤ length bs
    → lo ≤ rank i bs
    → rank i bs ≤ hi
    → hi - lo ≤ f
    → bisect_loop f bs i lo hi ≡ rank i bs
unfolding bisect_loop
bisect_loop-rank zero bs i lo hi start stop c b l u m = omega arith
bisect_loop-rank (suc f) bs i lo hi start stop c b l u m = elim (Bool-cases (ltb lo hi)) [
  | inl more ↦
      let mid = (lo + hi) / 2 in
      let (x, found) = get_elem?_below bs mid (omega (arith, ltb→lt lo hi more)) in
      rw (more, found)
        (ground (
          arith,
          more,
          before-rank i start bs stop mid x c found,
          bisect_loop-rank f bs i (mid + 1) hi start stop c b,
          bisect_loop-rank f bs i lo mid start stop c,
        ))
  | inr done ↦ rw done (ground arith)
]

-- The binary search finds the first bucket that does not end before the id.
pub bisect_left-rank :
    (bs : List Bucket) (i stop : ℕ) → Chain 0 bs stop → bisect_left bs i ≡ rank i bs
unfolding bisect_left
bisect_left-rank bs i stop c =
    bisect_loop-rank (length bs) bs i 0 (length bs) 0 stop c (omega arith) (omega arith)
      (rank-le-length i bs) (omega arith)

pub find_bucket_past :
    (t : Table) (i stop : ℕ)
    → Chain 0 t.buckets stop
    → stop ≤ i
    → find_bucket t i ≡ raise id_too_large
unfolding find_bucket
find_bucket_past t i stop c h =
    rw (bisect_left-rank t.buckets i stop c, rank_past i 0 t.buckets stop c h) (ground arith)

pub find_bucket-Focus :
    (t : Table) (i stop : ℕ)
    → Chain 0 t.buckets stop
    → (f : Focus i 0 t.buckets stop)
    → (find_bucket t i ≡ ok (length f.pre)) × (nth t.buckets (length f.pre) ≡ ok f.bucket)
unfolding find_bucket
find_bucket-Focus t i stop c f = (
  rw (bisect_left-rank t.buckets i stop c)
      (ground (arith, f.place, ap length f.whole, length-append f.pre (f.bucket ∷ f.post))),
  rw f.whole (nth-append f.pre f.bucket f.post),
)

-- `_findBucket`, where the buckets cover the ids below `stop` one after another: for an id below
-- `stop` it gives the place of the first bucket that does not end before the id, and it raises
-- for every other id.
pub find_bucket-rank :
    (t : Table) (i stop : ℕ)
    → Chain 0 t.buckets stop
    → find_bucket t i ≡ (if ltb i stop then ok (rank i t.buckets) else raise id_too_large)
find_bucket-rank t i stop c = elim (Bool-cases (ltb i stop)) [
  | inl inside ↦
      let f = focus i 0 t.buckets stop c (omega arith) (ltb→lt i stop inside) in
      rw (inside, (find_bucket-Focus t i stop c f).0, f.place)
  | inr past ↦ rw (past, find_bucket_past t i stop c (ground (arith, past)))
]
