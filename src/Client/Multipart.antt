-- ===== src/Client/Multipart.antt =====
-- flud/protocol/ClientPrimitives.py and AiohttpServer.py: what the client saves of the multipart body
-- that the server builds.
use flud.Prelude.Text.{cut, lower}
use flud.Prelude.{
  ℕ, zero, suc, ◌+◌, ◌-◌, ◌≡◌, refl, sym, ap, ◌∙◌, true, false, Bool, Option, none, some, List, [],
  ◌∷◌, ◌++◌, arith, length, length-append, drop, All, ◌==◌, append_assoc, inl, inr, Bool-cases, leb,
  append-nil, ltb, ◌%◌, ◌/◌, not, ◌&&◌, All-append, get, put,
}
use flud.Fencode.Values.{same_text, text_eq}
use flud.Fencode.Parts.{take-length, drop-length}
use flud.Server.Auth.{after_prefix}
use flud.Server.Multipart.{line_end, id_word, length_word, digits, digits_loop}
use flud.Server.Body.{blank, type_text, id_line, length_line, part}
use flud.Tarball.{ends_with}
use flud.Client.Save.{
  cut_at, split_loop, split_at, chop, read_headers, strip_bytes, content_id_name,
}

-- A prefix, and what stands behind it.
after_prefix-append : (p s : List ℕ) → after_prefix p (p ++ s) ≡ some s
unfolding after_prefix
after_prefix-append [] s = refl
after_prefix-append (a ∷ p) s =
    let self : (a == a) ≡ true = ground arith in rw self (after_prefix-append p s)

-- A line end is taken off.
pub chop-append : (s : List ℕ) → chop (s ++ line_end) ≡ s
unfolding chop ends_with same_text
chop-append s =
    let size : length (s ++ line_end) ≡ length s + 2 = length-append s line_end in
    let less : length (s ++ line_end) - 2 ≡ length s = omega (arith, size) in
    let is_end : ends_with line_end (s ++ line_end) ≡ true =
      (let enough : leb 2 (length (s ++ line_end)) ≡ true = ground (arith, size) in
        rw (ends_with, enough, less, drop-length s line_end) refl) in
    rw (chop, is_end, less) (take-length s line_end)

unfoldable pub push : ℕ → Option (List ℕ × List ℕ) → Option (List ℕ × List ℕ)
push c none = none
push c (some (before, after)) = some (c ∷ before, after)

push_lem :
    (c : ℕ) (o : Option (List ℕ × List ℕ))
    → (elim o [ none ↦ none | some (before, after) ↦ some (c ∷ before, after) ]) ≡ push c o
unfolding push
push_lem c none = refl
push_lem c (some (before, after)) = refl

-- The search at a place where the mark does not stand, and at one where it does.
pub cut_at-miss :
    (mark : List ℕ) (c : ℕ) (s : List ℕ)
    → after_prefix mark (c ∷ s) ≡ none
    → cut_at mark (c ∷ s) ≡ push c (cut_at mark s)
unfolding cut_at
cut_at-miss mark c s h = rw (cut_at, h) (push_lem c (cut_at mark s))

pub cut_at-hit : (a : ℕ) (mark s : List ℕ) → cut_at (a ∷ mark) ((a ∷ mark) ++ s) ≡ some ([], s)
unfolding cut_at
cut_at-hit a mark s = rw (cut_at, after_prefix-append (a ∷ mark) s) refl

-- What has no return.
abbrev pub NoReturn : ℕ → Type 0
NoReturn c = (13 == c) ≡ false

prepend : List ℕ → Option (List ℕ × List ℕ) → Option (List ℕ × List ℕ)
prepend l none = none
prepend l (some (before, after)) = some (l ++ before, after)

prepend_nil : (o : Option (List ℕ × List ℕ)) → o ≡ prepend [] o
unfolding prepend
prepend_nil none = refl
prepend_nil (some (before, after)) = refl

prepend_cons :
    (c : ℕ) (l : List ℕ) (o : Option (List ℕ × List ℕ)) → push c (prepend l o) ≡ prepend (c ∷ l) o
unfolding prepend push
prepend_cons c l none = refl
prepend_cons c l (some (before, after)) = refl

-- The search for a mark that begins with a return passes over what has none.
cut_at-append :
    (mark l s : List ℕ)
    → All NoReturn l
    → cut_at (13 ∷ mark) (l ++ s) ≡ prepend l (cut_at (13 ∷ mark) s)
cut_at-append mark [] s h = prepend_nil (cut_at (13 ∷ mark) s)
cut_at-append mark (c ∷ l) s h =
    let misses : after_prefix (13 ∷ mark) (c ∷ (l ++ s)) ≡ none =
      unfold after_prefix in rw (h.0) refl in
    cut_at-miss (13 ∷ mark) c (l ++ s) misses
    ∙ ap (push c) (cut_at-append mark l s h.1)
    ∙ prepend_cons c l (cut_at (13 ∷ mark) s)

-- A line up to its end, and a last line.
line_at : (l s : List ℕ) → All NoReturn l → cut_at line_end (l ++ (line_end ++ s)) ≡ some (l, s)
unfolding prepend
line_at l s h =
    cut_at-append (10 ∷ []) l (line_end ++ s) h
    ∙ ap (prepend l) (cut_at-hit 13 (10 ∷ []) s)
    ∙ ap (λ k. some (k, s)) (append-nil l)

last_line : (l : List ℕ) → All NoReturn l → cut_at line_end l ≡ none
unfolding prepend cut_at
last_line l h = ap (cut_at line_end) (sym (append-nil l)) ∙ cut_at-append (10 ∷ []) l [] h

-- A line end that no second one follows.
skip_end :
    (c : ℕ) (s : List ℕ)
    → NoReturn c
    → cut_at blank (13 ∷ 10 ∷ c ∷ s) ≡ prepend line_end (cut_at blank (c ∷ s))
skip_end c s h =
    let at_return : after_prefix blank (13 ∷ 10 ∷ c ∷ s) ≡ none =
      unfold after_prefix in rw h refl in
    let at_feed : after_prefix blank (10 ∷ c ∷ s) ≡ none = unfold after_prefix in refl in
    cut_at-miss blank 13 (10 ∷ c ∷ s) at_return
    ∙ ap (push 13) (cut_at-miss blank 10 (c ∷ s) at_feed)
    ∙ twice (cut_at blank (c ∷ s))
  where
    twice : (o : Option (List ℕ × List ℕ)) → push 13 (push 10 o) ≡ prepend line_end o
    twice none = unfold prepend push in refl
    twice (some (before, after)) = unfold prepend push in refl

-- A test for what has no return.
clean : List ℕ → Bool
clean [] = true
clean (c ∷ s) = not (13 == c) && clean s

NoReturn-clean : (s : List ℕ) → clean s ≡ true → All NoReturn s
unfolding clean
NoReturn-clean [] h = tt
NoReturn-clean (c ∷ s) h = (ground (arith, h), NoReturn-clean s (ground (arith, h)))

NoReturn-digits_loop : (f n : ℕ) (s : List ℕ) → All NoReturn s → All NoReturn (digits_loop f n s)
unfolding digits_loop
NoReturn-digits_loop zero n s h = h
NoReturn-digits_loop (suc f) n s h =
    let one : NoReturn (48 + n % 10) = ground arith in
    elim (Bool-cases (ltb n 10)) [
      | inl few ↦ rw few (one, h)
      | inr more ↦ rw more (NoReturn-digits_loop f (n / 10) _ (one, h))
    ]

split_step :
    (f : ℕ) (l s : List ℕ)
    → All NoReturn l
    → split_loop (suc f) line_end (l ++ (line_end ++ s)) ≡ l ∷ split_loop f line_end s
unfolding split_loop
split_step f l s h = rw (split_loop, line_at l s h) refl

split_last : (f : ℕ) (l : List ℕ) → All NoReturn l → split_loop (suc f) line_end l ≡ l ∷ []
unfolding split_loop
split_last f l h = rw (split_loop, last_line l h) refl

module _ (id : List ℕ) (n : ℕ) where
  abbrev pub headers : List ℕ
  headers = type_text ++ (line_end ++ (id_line id ++ (line_end ++ length_line n)))

  pub part-append : (q : List ℕ) → part id n (q ++ line_end) ≡ part id n q ++ line_end
  part-append q = simp (append_assoc)

  module _ (no_return : All NoReturn id) where
    NoReturn-length : All NoReturn (length_line n)
    NoReturn-length =
        All-append NoReturn length_word (digits n)
          (NoReturn-clean length_word (unfold clean in refl))
          (unfold digits in NoReturn-digits_loop (suc n) n [] tt)

    NoReturn-id : All NoReturn (id_line id)
    NoReturn-id =
        All-append NoReturn id_word id (NoReturn-clean id_word (unfold clean in refl)) no_return

    NoReturn-type : All NoReturn type_text
    NoReturn-type = NoReturn-clean type_text (unfold clean in refl)

    -- The headers end at the first blank line.
    pub headers_end :
        (payload : List ℕ)
        → cut_at blank (
            type_text
            ++ (line_end ++ (id_line id ++ (line_end ++ (length_line n ++ (blank ++ payload))))))
          ≡ some (headers, payload)
    headers_end payload =
        let m = 10 ∷ 13 ∷ 10 ∷ [] in
        let end : List ℕ = length_line n ++ (blank ++ payload) in
        let third : cut_at blank end ≡ some (length_line n, payload) =
          cut_at-append m (length_line n) (blank ++ payload) NoReturn-length
          ∙ ap (prepend (length_line n)) (cut_at-hit 13 m payload)
          ∙ (unfold prepend in ap (λ l. some (l, payload)) (append-nil (length_line n))) in
        let second : cut_at blank (id_line id ++ (line_end ++ end))
            ≡ some (id_line id ++ (line_end ++ length_line n), payload) =
          cut_at-append m (id_line id) (line_end ++ end) NoReturn-id
          ∙ ap (prepend (id_line id)) (skip_end b'C' _ refl ∙ ap (prepend line_end) third)
          ∙ (unfold prepend in refl) in
        cut_at-append m type_text (line_end ++ (id_line id ++ (line_end ++ end))) NoReturn-type
        ∙ ap (prepend type_text) (skip_end b'C' _ refl ∙ ap (prepend line_end) second)
        ∙ (unfold prepend in refl)

    pub lines : split_at line_end headers ≡ type_text ∷ id_line id ∷ length_line n ∷ []
    unfolding split_at
    lines =
        split_step (length (drop 1 headers)) type_text (id_line id ++ (line_end ++ length_line n))
          NoReturn-type
        ∙ ap (◌∷◌ type_text)
            (split_step (length (drop 2 headers)) (id_line id) (length_line n) NoReturn-id)
        ∙ ap (λ l. type_text ∷ id_line id ∷ l)
            (split_last (length (drop 3 headers)) (length_line n) NoReturn-length)

    -- The name in the headers.
    pub id_read :
        strip_bytes (32 ∷ id) ≡ id
        → get content_id_name (read_headers (type_text ∷ id_line id ∷ length_line n ∷ []) [])
          ≡ some id
    unfolding read_headers cut get put same_text lower
    id_read stripped = ap some stripped
