-- ===== src/Client/Waiters.antt =====
-- flud/protocol/ClientPrimitives.py: the waiters of a tarball and the names of its members.
use flud.Prelude.{
  ℕ, ◌+◌, ◌-◌, ◌≡◌, refl, ap, sym, ◌∙◌, true, false, ◌||◌, Option, none, some, List, [], ◌∷◌, ◌++◌,
  Dict, get, put, remove, elem, keys, if◌then◌else◌, arith, append_assoc, append-nil, length,
  length-append, drop, leb, beq_self, ◌==◌, Bool-cases, inl, inr, nat_eq,
}
use flud.BlockFile.Data.{drop-append_behind}
use flud.Fencode.Values.{same_text, text_eq}
use flud.Tarball.{Member, ends_with, meta_suffix}
use flud.Server.Files.{meta_name, names, file_member}
use flud.Client.Aggregate.{
  Job, with_data, with_metadata, add_members, add_waiter, data_names, take_waiters, or_empty,
}

-- All of the waiters.
unfoldable pub all_waiters : Dict (List ℕ) (List ℕ) → List ℕ
all_waiters [] = []
all_waiters ((n, ws) ∷ d) = ws ++ all_waiters d

take_first :
    (n : List ℕ) (ws : List ℕ) (ns : List (List ℕ)) (d rest : Dict (List ℕ) (List ℕ))
    → get n d ≡ some ws
    → remove n d ≡ rest
    → take_waiters (n ∷ ns) d ≡ ws ++ take_waiters ns rest
unfolding take_waiters
take_first n ws ns d rest got gone = rw (take_waiters, got, gone) refl

pub take_waiters-keys : (d : Dict (List ℕ) (List ℕ)) → take_waiters (keys d) d ≡ all_waiters d
unfolding take_waiters all_waiters
take_waiters-keys [] = refl
take_waiters-keys ((n, ws) ∷ d) =
    let self : same_text n n ≡ true = beq_self text_eq n in
    let got : get n ((n, ws) ∷ d) ≡ some ws = unfold get in rw self refl in
    let gone : remove n ((n, ws) ∷ d) ≡ d = unfold remove in rw self refl in
    take_first n ws (keys d) ((n, ws) ∷ d) d got gone ∙ ap (λ l. ws ++ l) (take_waiters-keys d)

elem-append : (i : ℕ) (a b : List ℕ) → elem i (a ++ b) ≡ elem i a || elem i b
unfolding elem
elem-append i [] b = refl
elem-append i (x ∷ a) b = ground (arith, elem-append i a b)

-- A waiter more.
pub all_waiters-add :
    (i w : ℕ) (name : List ℕ) (d : Dict (List ℕ) (List ℕ))
    → elem i (all_waiters (add_waiter name w d)) ≡ elem i (all_waiters d) || (w == i)
unfolding all_waiters elem
all_waiters-add i w name [] = unfold add_waiter get put in ground arith
all_waiters-add i w name ((n, ws) ∷ d) = elim (Bool-cases (same_text n name)) [
  | inl same ↦
      let step : add_waiter name w ((n, ws) ∷ d) ≡ (n, ws ++ (w ∷ [])) ∷ d =
        unfold add_waiter get put in rw same refl in
      rw step (
        ap (elem i) (append_assoc ws (w ∷ []) (all_waiters d))
        ∙ ground (arith, elem-append i ws (w ∷ all_waiters d), elem-append i ws (all_waiters d)))
  | inr other ↦
      let got : get name ((n, ws) ∷ d) ≡ get name d = unfold get in rw other refl in
      let passes : (v : List ℕ) → put name v ((n, ws) ∷ d) ≡ (n, ws) ∷ put name v d =
        λ v. unfold put in rw other refl in
      let step : add_waiter name w ((n, ws) ∷ d) ≡ (n, ws) ∷ add_waiter name w d =
        unfold add_waiter in rw got (passes (or_empty (get name d) ++ (w ∷ []))) in
      let rest = all_waiters-add i w name d in
      rw step (
        ground (
          arith,
          elem-append i ws (all_waiters (add_waiter name w d)),
          elem-append i ws (all_waiters d),
          rest,
        ))
]

-- Names behind the others.
data_names-append : (a b : List (List ℕ)) → data_names (a ++ b) ≡ data_names a ++ data_names b
unfolding data_names
data_names-append [] b = refl
data_names-append (x ∷ a) b = ground (arith, data_names-append a b)

elem-data_names :
    (n : List ℕ) (ns : List (List ℕ))
    → ends_with meta_suffix n ≡ false
    → elem n (data_names ns) ≡ elem n ns
unfolding data_names elem
elem-data_names n [] h = refl
elem-data_names n (x ∷ ns) h = elim (Bool-cases (ends_with meta_suffix x)) [
  | inl skipped ↦
      let differs : same_text x n ≡ false = elim (Bool-cases (same_text x n)) [
        | inl same ↦
            let alike = ap (ends_with meta_suffix) ((text_eq.beq_iff x n).0 same) in
            ground (arith, alike, skipped, h)
        | inr other ↦ other
      ] in
      rw (skipped, differs) (elem-data_names n ns h)
  | inr data' ↦ rw data' (ap (λ r. same_text x n || r) (elem-data_names n ns h))
]

keys-put :
    (n : List ℕ) (v : List ℕ) (d : Dict (List ℕ) (List ℕ))
    → keys (put n v d) ≡ (if elem n (keys d) then keys d else keys d ++ (n ∷ []))
unfolding put elem
keys-put n v [] = refl
keys-put n v ((j, w) ∷ d) = ground (arith, keys-put n v d)

ends_with-append : (s suffix : List ℕ) → ends_with suffix (s ++ suffix) ≡ true
unfolding ends_with
ends_with-append s suffix =
    let n = length (s ++ suffix) - length suffix in
    let front : n ≡ length s + 0 = omega (arith, length-append s suffix) in
    let back : drop n (s ++ suffix) ≡ suffix =
      ap (λ k. drop k (s ++ suffix)) front ∙ drop-append_behind s suffix 0 in
    let long : leb (length suffix) (length (s ++ suffix)) ≡ true =
      ground (arith, length-append s suffix) in
    let self : same_text suffix suffix ≡ true = beq_self text_eq suffix in
    rw (ends_with, long, back, self) refl

meta_name_ends : (f k : List ℕ) → ends_with meta_suffix (meta_name f k) ≡ true
meta_name_ends f k =
    ap (ends_with meta_suffix) (sym (append_assoc f (b'.' ∷ k) meta_suffix))
    ∙ ends_with-append (f ++ (b'.' ∷ k)) meta_suffix

names-append : (a b : List Member) → names (a ++ b) ≡ names a ++ names b
names-append [] b = refl
names-append (m ∷ a) b = ap (◌∷◌ m.name) (names-append a b)

-- Metadata has no waiters.
metadata_hidden :
    (name : List ℕ) (o : Option (List ℕ × List ℕ)) (ms : List Member)
    → data_names (names (with_metadata name o ms)) ≡ data_names (names ms)
metadata_hidden name none ms = refl
metadata_hidden name (some (k, bytes)) ms =
    let hidden : data_names (meta_name name k ∷ []) ≡ [] =
      unfold data_names in rw (meta_name_ends name k) refl in
    ap data_names (names-append ms (file_member (meta_name name k) bytes ∷ []))
    ∙ data_names-append (names ms) (meta_name name k ∷ [])
    ∙ ap (λ l. data_names (names ms) ++ l) hidden
    ∙ append-nil (data_names (names ms))

data_shown :
    (job : Job) (ms : List Member)
    → ends_with meta_suffix job.name ≡ false
    → data_names (names (with_data job ms)) ≡ (
        if elem job.name (names ms)
        then data_names (names ms)
        else data_names (names ms) ++ (job.name ∷ []))
unfolding with_data
data_shown job ms h = elim (Bool-cases (elem job.name (names ms))) [
  | inl there ↦ rw there refl
  | inr new ↦
      let shown : data_names (job.name ∷ []) ≡ job.name ∷ [] = unfold data_names in rw h refl in
      rw new (
        ap data_names (names-append ms (file_member job.name job.bytes ∷ []))
        ∙ data_names-append (names ms) (job.name ∷ [])
        ∙ ap (λ l. data_names (names ms) ++ l) shown)
]

-- Whose waiters there are are the files of the tarball, in order.
abbrev pub Aligned : List Member → Dict (List ℕ) (List ℕ) → Type 0
Aligned ms d = data_names (names ms) ≡ keys d

pub add-Aligned :
    (job : Job) (w : ℕ) (ms : List Member) (d : Dict (List ℕ) (List ℕ))
    → ends_with meta_suffix job.name ≡ false
    → Aligned ms d
    → Aligned (add_members job ms) (add_waiter job.name w d)
unfolding add_waiter
add-Aligned job w ms d h a =
    let same : elem job.name (names ms) ≡ elem job.name (keys d) =
      sym (elem-data_names job.name (names ms) h) ∙ ap (elem job.name) a in
    metadata_hidden job.name job.metadata (with_data job ms)
    ∙ data_shown job ms h
    ∙ ap (λ b. if b then data_names (names ms) else data_names (names ms) ++ (job.name ∷ [])) same
    ∙ ap (λ l. if elem job.name (keys d) then l else l ++ (job.name ∷ [])) a
    ∙ sym (keys-put job.name (or_empty (get job.name d) ++ (w ∷ [])) d)
