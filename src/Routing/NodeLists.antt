-- ===== src/Routing/NodeLists.antt =====
-- flud/FludkRouting.py: lists of nodes told apart by their ids, as the buckets and the replacement
-- cache keep them.
use flud.Prelude.{
  ℕ, ◌+◌, ◌≤◌, ◌≡◌, refl, sym, ◌≢◌, ◌⊎◌, inl, inr, Bool, true, false, ◌||◌, Option, none, some,
  List, [], ◌∷◌, ◌++◌, arith, ◌==◌, if◌then◌else◌, length, All, All-append,
}
use flud.Routing.Node.{Node}

-- No node of the list has the id.
abbrev pub Fresh : ℕ → List Node → Type 0
Fresh i = All (λ n. n.id ≢ i)

abbrev pub Distinct : List Node → Type 0
Distinct [] = Unit
Distinct (n ∷ ns) = Fresh n.id ns × Distinct ns

-- Some node of the list has the id.
unfoldable pub known : ℕ → List Node → Bool
known i [] = false
known i (n ∷ ns) = (n.id == i) || known i ns

-- The first node with the id.
unfoldable pub lookup_id : ℕ → List Node → Option Node
lookup_id i [] = none
lookup_id i (n ∷ ns) = if n.id == i then some n else lookup_id i ns

-- The list without the first node with the id.
unfoldable pub drop_id : ℕ → List Node → List Node
drop_id i [] = []
drop_id i (n ∷ ns) = if n.id == i then ns else n ∷ drop_id i ns

pub Fresh-known : (i : ℕ) (ns : List Node) → known i ns ≡ false → Fresh i ns
unfolding known
Fresh-known i [] h = tt
Fresh-known i (n ∷ ns) h = (ground arith, Fresh-known i ns (ground arith))

pub known-Fresh : (i : ℕ) (ns : List Node) → Fresh i ns → known i ns ≡ false
unfolding known
known-Fresh i [] h = refl
known-Fresh i (n ∷ ns) h = ground (arith, known-Fresh i ns h.1)

pub drop_id-Fresh : (i : ℕ) (ns : List Node) → Fresh i ns → drop_id i ns ≡ ns
unfolding drop_id
drop_id-Fresh i [] h = refl
drop_id-Fresh i (n ∷ ns) h = ground (arith, drop_id-Fresh i ns h.1)

pub All-drop_id {κ} : (P : Node → Type κ) (i : ℕ) (ns : List Node) → All P ns → All P (drop_id i ns)
unfolding drop_id
All-drop_id P i [] h = tt
All-drop_id P i (n ∷ ns) h = elim (n.id == i) as (λ b. All P (if b then ns else n ∷ drop_id i ns)) [
  | true ↦ h.1
  | false ↦ (h.0, All-drop_id P i ns h.1)
]

pub Distinct-drop_id : (i : ℕ) (ns : List Node) → Distinct ns → Distinct (drop_id i ns)
unfolding drop_id
Distinct-drop_id i [] h = tt
Distinct-drop_id i (n ∷ ns) h =
    elim (n.id == i) as (λ b. Distinct (if b then ns else n ∷ drop_id i ns)) [
      | true ↦ h.1
      | false ↦ (All-drop_id _ i ns h.0, Distinct-drop_id i ns h.1)
    ]

pub Fresh-drop_id : (i : ℕ) (ns : List Node) → Distinct ns → Fresh i (drop_id i ns)
unfolding drop_id
Fresh-drop_id i [] h = tt
Fresh-drop_id i (n ∷ ns) h = elim (num_cases n.id i) [
  | inl (e, t) ↦ rw t (rw e at h.0)
  | inr (ne, t) ↦ rw t (ne, Fresh-drop_id i ns h.1)
]
  where
    num_cases : (a b : ℕ) → ((a ≡ b) × ((a == b) ≡ true)) ⊎ ((a ≢ b) × ((a == b) ≡ false))
    num_cases a b = ground arith

pub Distinct-snoc :
    (n : Node) (ns : List Node) → Fresh n.id ns → Distinct ns → Distinct (ns ++ (n ∷ []))
Distinct-snoc n [] f d = (tt, tt)
Distinct-snoc n (m ∷ ns) f d =
    (All-append _ ns (n ∷ []) d.0 (λ e. f.0 (sym e), tt), Distinct-snoc n ns f.1 d.1)

pub length-drop_id-le : (i : ℕ) (ns : List Node) → length (drop_id i ns) ≤ length ns
unfolding drop_id
length-drop_id-le i [] = omega arith
length-drop_id-le i (n ∷ ns) = ground (arith, length-drop_id-le i ns)

pub length-drop_id :
    (i : ℕ) (ns : List Node) → known i ns ≡ true → length (drop_id i ns) + 1 ≡ length ns
unfolding drop_id known
length-drop_id i [] h = absurd (ground arith)
length-drop_id i (n ∷ ns) h = ground (arith, length-drop_id i ns)

pub lookup_id-snoc_self :
    (n : Node) (ns : List Node) → Fresh n.id ns → lookup_id n.id (ns ++ (n ∷ [])) ≡ some n
unfolding lookup_id
lookup_id-snoc_self n [] f = ground arith
lookup_id-snoc_self n (m ∷ ns) f = ground (arith, lookup_id-snoc_self n ns f.1)

pub lookup_id-snoc_ne :
    (j : ℕ) (n : Node) (ns : List Node) → n.id ≢ j → lookup_id j (ns ++ (n ∷ [])) ≡ lookup_id j ns
unfolding lookup_id
lookup_id-snoc_ne j n [] h = ground arith
lookup_id-snoc_ne j n (m ∷ ns) h = ground (arith, lookup_id-snoc_ne j n ns h)

pub lookup_id-drop_id_ne :
    (i j : ℕ) (ns : List Node) → i ≢ j → lookup_id j (drop_id i ns) ≡ lookup_id j ns
unfolding lookup_id drop_id
lookup_id-drop_id_ne i j [] h = refl
lookup_id-drop_id_ne i j (m ∷ ns) h = ground (arith, lookup_id-drop_id_ne i j ns h)

pub lookup_id-Fresh : (i : ℕ) (ns : List Node) → Fresh i ns → lookup_id i ns ≡ none
unfolding lookup_id
lookup_id-Fresh i [] h = refl
lookup_id-Fresh i (n ∷ ns) h = ground (arith, lookup_id-Fresh i ns h.1)

pub lookup_id-append-Fresh :
    (j : ℕ) (ms ns : List Node) → Fresh j ms → lookup_id j (ms ++ ns) ≡ lookup_id j ns
unfolding lookup_id
lookup_id-append-Fresh j [] ns h = refl
lookup_id-append-Fresh j (m ∷ ms) ns h = ground (arith, lookup_id-append-Fresh j ms ns h.1)

pub lookup_id-append-Fresh_right :
    (j : ℕ) (ms ns : List Node) → Fresh j ns → lookup_id j (ms ++ ns) ≡ lookup_id j ms
unfolding lookup_id
lookup_id-append-Fresh_right j [] ns h = lookup_id-Fresh j ns h
lookup_id-append-Fresh_right j (m ∷ ms) ns h =
    ground (arith, lookup_id-append-Fresh_right j ms ns h)
