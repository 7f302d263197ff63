-- ===== src/Fencode/RoundTrip.antt =====
-- flud/fencode.py: `fdecode` reads back what `fencode` writes.
use flud.Prelude.{
  ℕ, zero, suc, ◌+◌, ◌≤◌, ◌<◌, ◌≡◌, ap, sym, ◌∙◌, Bool, true, false, none, List, [], ◌∷◌, ◌++◌,
  arith, Result, ok, length, length-append, drop, append_assoc, ◌>>=◌, >>=-eq-ok,
}
use flud.Fencode.Base64.{b64encode, b64decode-b64encode}
use flud.Fencode.Utf8.{utf8_encode, utf8_decode-utf8_encode, IsByte-utf8_encode}
use flud.Fencode.Values.{
  Value, none_value, bool_value, int_value, bytes_value, str_value, fencoded_value, list_value,
  tuple_value, dict_value, Values, nil, cons, Entries, end, entry, int_of, plain, plain_values,
  plain_entries, IsGood, AreGood, IsGoodDict, height, heights, height_entries,
}
use flud.Fencode.Encode.{fencode, fencode_values, fencode_entries, framed}
use flud.Fencode.Decode.{
  decode_loop, decode_as, scanval, decode_items, decode_pairs, set_item, fdecode_text, fdecode,
  depth,
}
use flud.Fencode.Lengths.{pad_b64-b64encode}
use flud.Fencode.Parts.{
  scanval-framed, fencode-framed, decode_as-int, decode_loop-framed, two_parts, three_parts, join,
  join-end, join_assoc, Apart, put_entry-join, Apart-join, height-le, fencode-nonempty, drop-length,
}

-- The reading of an element inside a list, a tuple or a dict.
abbrev reads : ℕ → List ℕ → Result (Value × ℕ)
reads f = scanval (decode_loop f true (depth 1))

reads-first :
    (f : ℕ) (v w : Value) (s rest : List ℕ)
    → fencode true v ≡ ok s
    → decode_loop f true (depth 1) s ≡ ok w
    → reads f (s ++ rest) ≡ ok (w, length s)
reads-first f v w s rest e d =
    let (c, body, whole) = fencode-framed true v s e in
    scanval-framed (decode_loop f true (depth 1)) w c body s rest whole d

-- One round of each loop, on a text that starts with an encoded element.
decode_items-first :
    (n f : ℕ) (v w : Value) (s rest : List ℕ)
    → fencode true v ≡ ok s
    → decode_loop f true (depth 1) s ≡ ok w
    → decode_items (suc n) (reads f) (s ++ rest)
      ≡ (decode_items n (reads f) rest >>= λ ws. ok (cons w ws))
unfolding decode_items
decode_items-first n f v w [] rest e d = absurd (omega (arith, fencode-nonempty true v [] e))
decode_items-first n f v w (c ∷ s) rest e d =
    rw (reads-first f v w (c ∷ s) rest e d, drop-length s rest)

drop_two : (a b rest : List ℕ) → drop (length a + length b) (a ++ (b ++ rest)) ≡ rest
drop_two a b rest =
    let whole = sym (length-append a b) in
    rw (whole, sym (append_assoc a b rest)) (drop-length (a ++ b) rest)

decode_pairs-first :
    (n f : ℕ) (k v k' v' : Value) (a b rest : List ℕ) (ds ds' : Entries)
    → fencode true k ≡ ok a
    → fencode true v ≡ ok b
    → decode_loop f true (depth 1) a ≡ ok k'
    → decode_loop f true (depth 1) b ≡ ok v'
    → set_item k' v' ds ≡ ok ds'
    → decode_pairs (suc n) (reads f) ds (a ++ (b ++ rest)) ≡ decode_pairs n (reads f) ds' rest
unfolding decode_pairs
decode_pairs-first n f k v k' v' [] b rest ds ds' ek ev dk dv put =
    absurd (omega (arith, fencode-nonempty true k [] ek))
decode_pairs-first n f k v k' v' (c ∷ a) b rest ds ds' ek ev dk dv put = rw (
  reads-first f k k' (c ∷ a) (b ++ rest) ek dk,
  drop-length a (b ++ rest),
  reads-first f v v' b rest ev dv,
  put,
  drop_two (c ∷ a) b rest,
)

mutual
  unfolding fencode IsGood height plain decode_as decode_items decode_pairs set_item join

  round :
      (f : ℕ) (l : Bool) (v : Value) (s : List ℕ)
      → height v < f
      → IsGood v
      → fencode l v ≡ ok s
      → decode_loop f l (depth 1) s ≡ ok (plain v)
  round zero l v s h g e = absurd (omega arith)
  round (suc f) l none_value s h g e = decode_loop-framed f l b'n' _ s e
  round (suc f) l (bool_value b) s h g e =
      decode_loop-framed f l _ _ s e ∙ decode_as-int _ none (int_of b)
  round (suc f) l (int_value n) s h g e = decode_loop-framed f l _ _ s e ∙ decode_as-int _ none n
  round (suc f) l (bytes_value d) s h g e =
      decode_loop-framed f l b'b' _ s e ∙ rw (pad_b64-b64encode d, b64decode-b64encode d g)
  round (suc f) l (str_value d) s h g e =
      let (bytes, made, whole) =
        >>=-eq-ok (utf8_encode d) (λ bytes. framed l b's' (b64encode bytes)) e in
      decode_loop-framed f l b's' _ s whole
      ∙ rw (
        pad_b64-b64encode bytes,
        b64decode-b64encode bytes (IsByte-utf8_encode d bytes g made),
        utf8_decode-utf8_encode d bytes g made,
      )
  round (suc f) l (fencoded_value d) s h g e = decode_loop-framed f l b'f' d s e
  round (suc f) l (list_value d) s h g e =
      let (body, inside, whole) = >>=-eq-ok (fencode_values d) (λ body. framed l b'l' body) e in
      decode_loop-framed f l b'l' body s whole
      ∙ ap (λ m. m >>= λ vs. ok (list_value vs))
          (round_values f (length body) d body (omega arith) (omega arith) g inside)
  round (suc f) l (tuple_value d) s h g e =
      let (body, inside, whole) = >>=-eq-ok (fencode_values d) (λ body. framed l b't' body) e in
      decode_loop-framed f l b't' body s whole
      ∙ ap (λ m. m >>= λ vs. ok (tuple_value vs))
          (round_values f (length body) d body (omega arith) (omega arith) g inside)
  round (suc f) l (dict_value d) s h g e =
      let (body, inside, whole) = >>=-eq-ok (fencode_entries d) (λ body. framed l b'd' body) e in
      decode_loop-framed f l b'd' body s whole
      ∙ ap (λ m. m >>= λ es. ok (dict_value es))
          (round_entries f (length body) d end body (omega arith) (omega arith) g tt inside)

  round_values :
      (f n : ℕ) (d : Values) (s : List ℕ)
      → heights d < f
      → length s ≤ n
      → AreGood d
      → fencode_values d ≡ ok s
      → decode_items n (reads f) s ≡ ok (plain_values d)
  round_values f n nil s h len g e = let empty : s ≡ [] = cc in rw empty
  round_values f zero (cons v d) s h len g e =
      let (first, rest, ef, er, parts) = two_parts (fencode true v) (fencode_values d) s e in
      absurd
        (omega (arith, fencode-nonempty true v first ef, ap length parts, length-append first rest))
  round_values f (suc n) (cons v d) s h len g e =
      let (first, rest, ef, er, parts) = two_parts (fencode true v) (fencode_values d) s e in
      let enough = fencode-nonempty true v first ef in
      rw parts (
        decode_items-first n f v (plain v) first rest ef (round f true v first (omega arith) g.0 ef)
        ∙ ap (λ m. m >>= λ ws. ok (cons (plain v) ws))
            (round_values f n d rest (omega arith)
              (omega (arith, enough, ap length parts, length-append first rest)) g.1 er))

  round_entries :
      (f n : ℕ) (d ds : Entries) (s : List ℕ)
      → height_entries d < f
      → length s ≤ n
      → IsGoodDict d
      → Apart ds d
      → fencode_entries d ≡ ok s
      → decode_pairs n (reads f) ds s ≡ ok (join ds (plain_entries d))
  round_entries f n end ds s h len g a e =
      let empty : s ≡ [] = cc in rw empty (ap ok (sym (join-end ds)))
  round_entries f zero (entry k v d) ds s h len g a e =
      let (first, second, rest, ek, ev, er, parts) =
        three_parts (fencode true k) (fencode true v) (fencode_entries d) s e in
      absurd (
        omega (
          arith,
          fencode-nonempty true k first ek,
          ap length parts,
          length-append first (second ++ rest),
        ))
  round_entries f (suc n) (entry k v d) ds s h len g a e =
      let (first, second, rest, ek, ev, er, parts) =
        three_parts (fencode true k) (fencode true v) (fencode_entries d) s e in
      let ds' = join ds (entry (plain k) (plain v) end) in
      let put : set_item (plain k) (plain v) ds ≡ ok ds' =
        rw (g.0) (ap ok (put_entry-join ds k v (plain v) d a)) in
      rw parts (
        decode_pairs-first n f k v (plain k) (plain v) first second rest ds ds' ek ev
          (round f true k first (omega arith) g.2 ek) (round f true v second (omega arith) g.3 ev)
          put
        ∙ round_entries f n d ds' rest (omega arith)
            (omega (
              arith,
              fencode-nonempty true k first ek,
              ap length parts,
              length-append first (second ++ rest),
              length-append second rest,
            ))
            g.4 (Apart-join ds k v (plain v) d a g.1) er
        ∙ ap ok (join_assoc ds (entry (plain k) (plain v) end) (plain_entries d)))

-- For a value whose bytes and code points are in range and whose dicts have keys that can be
-- hashed and differ: if `fencode` returns a text, then `fdecode` of that text returns the value,
-- with every bool in it as its number.
pub fdecode-fencode :
    (v : Value) (s : List ℕ)
    → IsGood v
    → fencode false v ≡ ok s
    → fdecode (depth 1) (str_value s) ≡ ok (plain v)
unfolding fdecode fdecode_text
fdecode-fencode v s g e =
    round (suc (length s)) false v s (omega (arith, height-le false v s e)) g e
