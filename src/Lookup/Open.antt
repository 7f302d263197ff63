-- ===== src/Lookup/Open.antt =====
-- flud/protocol/ClientDHTPrimitives.py: which contacts a lookup can still come to ask. An answer never
-- adds one, and takes out the contact that gave it.
use flud.Prelude.{
  ℕ, ◌≡◌, refl, ap, sym, subst, ◌∙◌, ◌⊎◌, inl, inr, Bool, true, false, ◌||◌, not, List, [], ◌∷◌,
  arith, map, Result, ok, raise, has, put, elem, nat_eq, Bool-cases, Option-cases, take,
  if◌then◌else◌,
}
use flud.Routing.Node.{Node, node_eq}
use flud.Lookup.{
  k, Contact, contact_eq, same_contact_iff, contact_of, Search, Response, nodes, value, nothing,
  Turn, more, stop, consider, consider_all, unsettled, settle, absorb, was_queried, without,
  contact_distance,
}
use flud.Lookup.FindNode.{update_state, take_result, take_results, exact_node}
use flud.Lookup.Fields.{elem-append, elem-sort_by, has-put, elem-without, was_queried-put}

abbrev pub is_open : Search → Contact → Bool
is_open s c = elem c s.pending || not (has c.id s.queried)

abbrev pub Closes : Search → Search → Type 0
Closes s s' = (x : Contact) → is_open s' x ≡ true → is_open s x ≡ true

pub Closes-trans : (s t u : Search) → Closes s t → Closes t u → Closes s u
Closes-trans s t u h g x o = h x (g x o)

-- What an answer may put into `pending`.
abbrev pub Adds : Search → List Node → Search → Type 0
Adds s ns s' =
    (x : Contact)
    → elem x s'.pending ≡ true
    → (elem x s.pending ≡ true) ⊎ (elem x (map contact_of ns) ≡ true)

consider_pending :
    (s : Search) (n : Node) (x : Contact)
    → elem x (consider s n).pending ≡ true
    → (elem x s.pending ≡ true) ⊎ ((contact_of n ≡ x) × (has x.id s.queried ≡ false))
unfolding consider elem
consider_pending s n x h = ground (
  arith,
  elem-append x s.pending (contact_of n ∷ []),
  same_contact_iff (contact_of n) x,
  λ (e : contact_of n ≡ x). ap (λ (c : Contact). has c.id s.queried) e,
)

consider_all-queried : (s : Search) (ns : List Node) → (consider_all s ns).queried ≡ s.queried
unfolding consider_all consider
consider_all-queried s [] = refl
consider_all-queried s (n ∷ ns) = consider_all-queried (consider s n) ns

consider-Closes : (s : Search) (n : Node) → Closes s (consider s n)
consider-Closes s n x o =
    let same : (consider s n).queried ≡ s.queried = unfold consider in refl in
    ground (arith, consider_pending s n x, ap (has x.id) same)

consider_all-Closes : (s : Search) (ns : List Node) → Closes s (consider_all s ns)
unfolding consider_all
consider_all-Closes s [] = λ x o. o
consider_all-Closes s (n ∷ ns) =
    λ x o. consider-Closes s n x (consider_all-Closes (consider s n) ns x o)

consider_all-Adds : (s : Search) (ns : List Node) → Adds s ns (consider_all s ns)
unfolding consider_all elem
consider_all-Adds s [] x h = inl h
consider_all-Adds s (n ∷ ns) x h = ground (
  arith,
  consider_all-Adds (consider s n) ns x h,
  consider_pending s n x,
  same_contact_iff (contact_of n) x,
)

unsettled_lem :
    (s : Search) (cs : List Contact) (x : Contact)
    → elem x (unsettled s cs) ≡ true
    → (elem x cs ≡ true) × (was_queried s.queried x ≡ false)
unfolding unsettled elem
unsettled_lem s [] x h = cc
unsettled_lem s (c ∷ cs) x h = elim (Bool-cases (elem c s.outstanding || was_queried s.queried c)) [
  | inl settled ↦
      let (later, asked) = unsettled_lem s cs x (ground (arith, h, settled)) in
      (ground (arith, later), asked)
  | inr kept ↦ ground (
    arith,
    kept,
    h,
    same_contact_iff c x,
    elem-without x c (unsettled s cs),
    unsettled_lem s cs x,
    λ (e : c ≡ x). ap (was_queried s.queried) e,
  )
]

settle_pending :
    (key : ℕ) (s : Search) (x : Contact)
    → elem x (settle key s).pending ≡ true
    → (elem x s.pending ≡ true) × (was_queried s.queried x ≡ false)
unfolding settle
settle_pending key s x h = unsettled_lem s s.pending x (elem-sort_by (contact_distance key) x _ h)

-- An answer that came from the contact `c`, with its own id.
abbrev pub told : ℕ → Contact → List Node → Search → Search
told key c ns s = absorb key c.host c.port c.id ns s

asked : Contact → Search → Search
asked c s = record s { queried = put c.id (c.host, c.port) s.queried }

told-queried :
    (key : ℕ) (c : Contact) (ns : List Node) (s : Search)
    → (told key c ns s).queried ≡ put c.id (c.host, c.port) s.queried
unfolding absorb settle
told-queried key c ns s =
    consider_all-queried (record s { queried = put c.id (c.host, c.port) s.queried }) ns

told_pending :
    (key : ℕ) (c : Contact) (ns : List Node) (s : Search) (x : Contact)
    → elem x (told key c ns s).pending ≡ true
    → (elem x (consider_all (asked c s) ns).pending ≡ true)
      × (was_queried (put c.id (c.host, c.port) s.queried) x ≡ false)
unfolding absorb asked
told_pending key c ns s x h =
    let (inside, not_asked) = settle_pending key (consider_all (asked c s) ns) x h in
    (inside, sym (ap (λ q. was_queried q x) (consider_all-queried (asked c s) ns)) ∙ not_asked)

pub told-Closes : (key : ℕ) (c : Contact) (ns : List Node) (s : Search) → Closes s (told key c ns s)
unfolding asked
told-Closes key c ns s x o =
    let q = ap (has x.id) (told-queried key c ns s) in
    let q1 = ap (has x.id) (consider_all-queried (asked c s) ns) in
    let before : is_open (asked c s) x ≡ true =
      consider_all-Closes (asked c s) ns x (ground (arith, o, q, q1, told_pending key c ns s x)) in
    ground (arith, before, has-put c.id x.id (c.host, c.port) s.queried)

-- The contact that answered is closed.
pub told_closed :
    (key : ℕ) (c : Contact) (ns : List Node) (s : Search) → is_open (told key c ns s) c ≡ false
told_closed key c ns s = ground (
  arith,
  ap (has c.id) (told-queried key c ns s),
  has-put c.id c.id (c.host, c.port) s.queried,
  told_pending key c ns s c,
  was_queried-put c s.queried,
)

pub told-Adds : (key : ℕ) (c : Contact) (ns : List Node) (s : Search) → Adds s ns (told key c ns s)
unfolding asked
told-Adds key c ns s x h = consider_all-Adds (asked c s) ns x (told_pending key c ns s x h).0

-- The nodes that an answer names.
abbrev pub named : Result Response → List Node
named (ok (nodes i ns)) = ns
named (ok (value v)) = []
named (ok nothing) = []
named (raise e) = []

-- A request for nodes comes to a dict or an exception: it reads `id` of what it gets. An honest dict
-- has the id of the contact that was asked.
abbrev pub Honest : Contact → Result Response → Type 0
Honest c (ok (nodes i ns)) = i ≡ c.id
Honest c (ok (value v)) = ⊥
Honest c (ok nothing) = ⊥
Honest c (raise e) = Unit

-- What one result does to a lookup that goes on: no contact is opened, `pending` gains nodes of the
-- answer only, and stays as it is unless the contact is closed.
pub record Goes (c : Contact) (r : Result Response) (s s' : Search) : Type 0 where
  pub closes : Closes s s'
  pub adds : Adds s (named r) s'
  pub moved : (s'.pending ≡ s.pending) ⊎ (is_open s' c ≡ false)

pub unchanged :
    (c : Contact) (r : Result Response) (s s' : Search)
    → s'.pending ≡ s.pending
    → s'.queried ≡ s.queried
    → Goes c r s s'
unchanged c r s s' p q = record {
  closes = λ x o. ground (arith, o, ap (elem x) p, ap (has x.id) q);
  adds = λ x h. inl (ap (elem x) (sym p) ∙ h);
  moved = inl p;
}

state_of : Turn Search Response → Search
state_of (more s) = s
state_of (stop s r) = s

pub take_result-Goes :
    (key : ℕ) (c : Contact) (r : Result Response) (s s' : Search)
    → Honest c r
    → take_result key c r s ≡ more s'
    → Goes c r s s'
unfolding take_result update_state state_of
take_result-Goes key c (raise e) s s' h t =
    unchanged c (raise e) s s' (ap (λ m. (state_of m).pending) (sym t))
      (ap (λ m. (state_of m).queried) (sym t))
take_result-Goes key c (ok (value v)) s s' h t = cc
take_result-Goes key c (ok nothing) s s' h t =
    unchanged c (ok nothing) s s' (ap (λ m. (state_of m).pending) (sym t))
      (ap (λ m. (state_of m).queried) (sym t))
take_result-Goes key c (ok (nodes i ns)) s s' h t = elim (Option-cases (exact_node key ns)) [
  | inl none_exact ↦
      let s0 : Search = record s {
        outstanding = without (record { host = c.host; port = c.port; id = i }) s.outstanding;
      } in
      let reached : take_result key c (ok (nodes i ns)) s
          ≡ more (absorb key c.host c.port i ns s0) =
        rw (none_exact, update_state) in
      let same : absorb key c.host c.port i ns s0 ≡ s' = ap state_of (sym reached ∙ t) in
      let told_same : told key c ns s0 ≡ s' =
        ap (λ j. absorb key c.host c.port j ns s0) (sym h) ∙ same in
      subst (Goes c (ok (nodes i ns)) s) told_same (record {
        closes = told-Closes key c ns s0;
        adds = told-Adds key c ns s0;
        moved = inr (told_closed key c ns s0);
      })
  | inr (n, found) ↦
      let ended : take_result key c (ok (nodes i ns)) s
          ≡ stop
              (record s {
                kclosest = if elem n s.kclosest then s.kclosest else take k (n ∷ s.kclosest);
              })
              (nodes i ns) =
        rw (found, update_state) in
      absurd cc
]

pub Turn-cases :
    {S R : Type 0} (m : Turn S R) → ((s : S) × (r : R) × (m ≡ stop s r)) ⊎ ((s : S) × (m ≡ more s))
Turn-cases (stop s r) = inl (s, r, refl)
Turn-cases (more s) = inr (s, refl)

elem-head : (c : Contact) (cs : List Contact) → elem c (c ∷ cs) ≡ true
unfolding elem
elem-head c cs = ground (arith, same_contact_iff c c)

elem-tail : (d c : Contact) (cs : List Contact) → elem d cs ≡ true → elem d (c ∷ cs) ≡ true
unfolding elem
elem-tail d c cs h = ground (arith, h)

stays_shut :
    (s s' : Search) (c : Contact) → Closes s s' → is_open s c ≡ false → is_open s' c ≡ false
stays_shut s s' c closes shut = elim (Bool-cases (is_open s' c)) [
  | inl opened ↦ let o = closes c opened in absurd cc
  | inr closed ↦ closed
]

-- A batch of results.
pub record Went (batch : List Contact) (answer : Contact → Result Response) (s s' : Search)
    : Type 0 where
  pub closes : Closes s s'
  pub adds :
      (x : Contact)
      → elem x s'.pending ≡ true
      → (elem x s.pending ≡ true)
        ⊎ ((c : Contact) × (elem x (map contact_of (named (answer c))) ≡ true))
  pub moved :
      (s'.pending ≡ s.pending) ⊎ ((c : Contact) × (elem c batch ≡ true) × (is_open s' c ≡ false))

-- One result and then the rest of its batch.
pub Went-cons :
    (answer : Contact → Result Response) (c : Contact) (batch : List Contact) (s u s' : Search)
    → Goes c (answer c) s u
    → Went batch answer u s'
    → Went (c ∷ batch) answer s s'
Went-cons answer c batch s u s' one rest = record {
  closes = λ x o. one.closes x (rest.closes x o);
  adds = λ x h. elim (rest.adds x h) [
    | inl old ↦ elim (one.adds x old) [ inl older ↦ inl older | inr new ↦ inr (c, new) ]
    | inr new ↦ inr new
  ];
  moved = elim rest.moved [
    | inl still ↦ elim one.moved [
      | inl quiet ↦ inl (still ∙ quiet)
      | inr shut ↦ inr (c, elem-head c batch, stays_shut u s' c rest.closes shut)
    ]
    | inr past ↦ let (d, inside, shut) = past in inr (d, elem-tail d c batch inside, shut)
  ];
}

pub Went-nil : (answer : Contact → Result Response) (s : Search) → Went [] answer s s
Went-nil answer s = record { closes = λ x o. o; adds = λ x h. inl h; moved = inl refl }

pub take_results-Went :
    (key : ℕ) (answer : Contact → Result Response) (batch : List Contact) (s s' : Search)
    → ((c : Contact) → Honest c (answer c))
    → take_results key answer batch s ≡ more s'
    → Went batch answer s s'
unfolding take_results state_of
take_results-Went key answer [] s s' honest t =
    let same : s ≡ s' = ap state_of t in subst (Went [] answer s) same (Went-nil answer s)
take_results-Went key answer (c ∷ batch) s s' honest t =
    elim (Turn-cases (take_result key c (answer c) s)) [
      | inl (u, r, e) ↦
          let ended : take_results key answer (c ∷ batch) s ≡ stop u r = rw (e, take_results) in
          absurd cc
      | inr (u, e) ↦
          let goes_on : take_results key answer (c ∷ batch) s ≡ take_results key answer batch u =
            rw (e, take_results) in
          let one = take_result-Goes key c (answer c) s u (honest c) e in
          let rest = take_results-Went key answer batch u s' honest (sym goes_on ∙ t) in
          Went-cons answer c batch s u s' one rest
    ]
