-- ===== src/Fencode/Parts.antt =====
-- flud/fencode.py: what one level of `fencode` writes, and how one level of `fdecode` opens it.
use flud.Prelude.{
  ℕ, suc, ◌+◌, ◌≤◌, ◌≡◌, refl, ap, subst, Bool, true, Option, none, List, [], ◌∷◌, ◌++◌, arith,
  Result, ok, raise, length, length-append, take, drop, ◌>>=◌, >>=-eq-ok, Bool-cases, leb, inl, inr,
}
use flud.Prelude.Int.{ℤ, pos, negsuc, pos_part, neg_part}
use flud.Fencode.Base64.{b64encode}
use flud.Fencode.Utf8.{utf8_encode}
use flud.Fencode.Values.{
  Value, none_value, bool_value, int_value, bytes_value, str_value, fencoded_value, list_value,
  tuple_value, dict_value, Values, nil, cons, Entries, end, entry, plain, Missing, height, heights,
  height_entries,
}
use flud.Fencode.Encode.{fencode, fencode_values, fencode_entries, framed, int_text, int_char}
use flud.Fencode.Decode.{
  decode_loop, decode_as, scanval, put_entry, depth, next_recurse, decode_int, negated,
}
use flud.Fencode.Lengths.{opened-framed, framed_parts, framed-length, decode_int-b64encode}

pub take-length : (s rest : List ℕ) → take (length s) (s ++ rest) ≡ s
take-length [] rest = refl
take-length (c ∷ s) rest = ap (◌∷◌ c) (take-length s rest)

pub drop-length : (s rest : List ℕ) → drop (length s) (s ++ rest) ≡ rest
drop-length [] rest = refl
drop-length (c ∷ s) rest = drop-length s rest

-- The scan of a framed text takes exactly that text.
pub scanval-framed :
    (decode : List ℕ → Result Value) (w : Value) (c : ℕ) (body s rest : List ℕ)
    → framed true c body ≡ ok s
    → decode s ≡ ok w
    → scanval decode (s ++ rest) ≡ ok (w, length s)
unfolding scanval
scanval-framed decode w c body s rest h d =
    let (x, y, z, text, got) = framed_parts c body s h in
    let d' : decode (c ∷ x ∷ y ∷ z ∷ body) ≡ ok w = subst (λ t. decode t ≡ ok w) text d in
    let count : 4 + length body ≡ suc (suc (suc (suc (length body)))) = omega arith in
    rw text (rw (got, count, take-length body rest, d'))

-- Every encoded value is framed.
pub fencode-framed :
    (len_field : Bool) (v : Value) (s : List ℕ)
    → fencode len_field v ≡ ok s
    → (c : ℕ) × (body : List ℕ) × (framed len_field c body ≡ ok s)
unfolding fencode
fencode-framed l none_value s h = (_, _, h)
fencode-framed l (bool_value b) s h = (_, _, h)
fencode-framed l (int_value n) s h = (_, _, h)
fencode-framed l (bytes_value d) s h = (_, _, h)
fencode-framed l (str_value d) s h =
    (_, _, (>>=-eq-ok (utf8_encode d) (λ bytes. framed l b's' (b64encode bytes)) h).2)
fencode-framed l (fencoded_value d) s h = (_, _, h)
fencode-framed l (list_value d) s h =
    (_, _, (>>=-eq-ok (fencode_values d) (λ body. framed l b'l' body) h).2)
fencode-framed l (tuple_value d) s h =
    (_, _, (>>=-eq-ok (fencode_values d) (λ body. framed l b't' body) h).2)
fencode-framed l (dict_value d) s h =
    (_, _, (>>=-eq-ok (fencode_entries d) (λ body. framed l b'd' body) h).2)

-- No encoding is empty.
pub fencode-nonempty :
    (len_field : Bool) (v : Value) (s : List ℕ) → fencode len_field v ≡ ok s → 1 ≤ length s
fencode-nonempty l v s h =
    let (c, body, whole) = fencode-framed l v s h in omega (arith, framed-length l c body s whole)

decode_int-int_text : (n : ℤ) → decode_int (int_text n) ≡ ok (pos_part n + neg_part n)
unfolding int_text
decode_int-int_text n = decode_int-b64encode (pos_part n + neg_part n)

-- The letter of an integer carries its sign.
pub decode_as-int :
    (scan : List ℕ → Result (Value × ℕ)) (inner : Option (List ℕ → Result Value)) (n : ℤ)
    → decode_as scan inner (int_char n) (int_text n) ≡ ok (int_value n)
unfolding decode_as
decode_as-int scan inner (pos n) =
    let zero_less : n + 0 ≡ n = omega arith in
    elim (Bool-cases (leb n 2147483647)) [
      | inl small ↦
          let c : int_char (pos n) ≡ b'o' = unfold int_char in rw small in
          rw (c, decode_int-int_text (pos n)) (ap (λ m. ok (int_value (pos m))) zero_less)
      | inr large ↦
          let c : int_char (pos n) ≡ b'i' = unfold int_char in rw large in
          rw (c, decode_int-int_text (pos n)) (ap (λ m. ok (int_value (pos m))) zero_less)
    ]
decode_as-int scan inner (negsuc n) =
    let size : negated (0 + suc n) ≡ negsuc n =
      (let e : 0 + suc n ≡ suc n = omega arith in rw e (unfold negated in refl)) in
    elim (Bool-cases (leb (suc n) 2147483647)) [
      | inl small ↦
          let c : int_char (negsuc n) ≡ b'O' = unfold int_char in rw small in
          rw (c, decode_int-int_text (negsuc n)) (ap (λ m. ok (int_value m)) size)
      | inr large ↦
          let c : int_char (negsuc n) ≡ b'I' = unfold int_char in rw large in
          rw (c, decode_int-int_text (negsuc n)) (ap (λ m. ok (int_value m)) size)
    ]

-- One level of decoding of a framed text.
pub decode_loop-framed :
    (f : ℕ) (len_field : Bool) (c : ℕ) (body s : List ℕ)
    → framed len_field c body ≡ ok s
    → decode_loop (suc f) len_field (depth 1) s
      ≡ decode_as (scanval (decode_loop f true (depth 1))) none c body
unfolding decode_loop next_recurse
decode_loop-framed f l c body s h = rw (opened-framed l c body s h)

-- The parts of a chain that returned.
pub two_parts :
    (m n : Result (List ℕ)) (s : List ℕ)
    → (m >>= λ a. n >>= λ b. ok (a ++ b)) ≡ ok s
    → (a : List ℕ) × (b : List ℕ) × (m ≡ ok a) × (n ≡ ok b) × (s ≡ a ++ b)
two_parts (ok a) (ok b) s h = (a, b, refl, refl, cc)
two_parts (ok a) (raise e) s h = absurd cc
two_parts (raise e) n s h = absurd cc

pub three_parts :
    (m n p : Result (List ℕ)) (s : List ℕ)
    → (m >>= λ a. n >>= λ b. p >>= λ c. ok (a ++ (b ++ c))) ≡ ok s
    → (a : List ℕ) × (b : List ℕ) × (c : List ℕ) × (m ≡ ok a)
      × (n ≡ ok b)
      × (p ≡ ok c)
      × (s ≡ a ++ (b ++ c))
three_parts (ok a) (ok b) (ok c) s h = (a, b, c, refl, refl, refl, cc)
three_parts (ok a) (ok b) (raise e) s h = absurd cc
three_parts (ok a) (raise e) p s h = absurd cc
three_parts (raise e) n p s h = absurd cc

-- Dicts, one after the other.
unfoldable pub join : Entries → Entries → Entries
join end es = es
join (entry k v ds) es = entry k v (join ds es)

pub join-end : (ds : Entries) → join ds end ≡ ds
unfolding join
join-end end = refl
join-end (entry k v ds) = ap (entry k v) (join-end ds)

pub join_assoc : (a b c : Entries) → join (join a b) c ≡ join a (join b c)
unfolding join
join_assoc end b c = refl
join_assoc (entry k v a) b c = ap (entry k v) (join_assoc a b c)

-- No key of the first dict is a key of the second.
abbrev pub Apart : Entries → Entries → Type 0
Apart end es = Unit
Apart (entry a w ds) es = Missing a es × Apart ds es

pub Apart-end : (ds : Entries) → Apart ds end
Apart-end end = tt
Apart-end (entry a w ds) = (tt, Apart-end ds)

pub put_entry-join :
    (ds : Entries) (k v w : Value) (es : Entries)
    → Apart ds (entry k v es)
    → put_entry (plain k) w ds ≡ join ds (entry (plain k) w end)
unfolding put_entry join
put_entry-join end k v w es h = refl
put_entry-join (entry a x ds) k v w es h = rw (h.0.0, put_entry-join ds k v w es h.1)

pub Apart-join :
    (ds : Entries) (k v w : Value) (es : Entries)
    → Apart ds (entry k v es)
    → Missing (plain k) es
    → Apart (join ds (entry (plain k) w end)) es
unfolding join
Apart-join end k v w es h m = (m, tt)
Apart-join (entry a x ds) k v w es h m = (h.0.1, Apart-join ds k v w es h.1 m)

mutual
  unfolding fencode height

  -- The text is longer than the value is deep.
  pub height-le : (l : Bool) (v : Value) (s : List ℕ) → fencode l v ≡ ok s → height v ≤ length s
  height-le l none_value s h = omega arith
  height-le l (bool_value b) s h = omega arith
  height-le l (int_value n) s h = omega arith
  height-le l (bytes_value d) s h = omega arith
  height-le l (str_value d) s h = omega arith
  height-le l (fencoded_value d) s h = omega arith
  height-le l (list_value d) s h =
      let (body, inside, whole) = >>=-eq-ok (fencode_values d) (λ body. framed l b'l' body) h in
      omega (arith, heights-le d body inside, framed-length l b'l' body s whole)
  height-le l (tuple_value d) s h =
      let (body, inside, whole) = >>=-eq-ok (fencode_values d) (λ body. framed l b't' body) h in
      omega (arith, heights-le d body inside, framed-length l b't' body s whole)
  height-le l (dict_value d) s h =
      let (body, inside, whole) = >>=-eq-ok (fencode_entries d) (λ body. framed l b'd' body) h in
      omega (arith, height_entries-le d body inside, framed-length l b'd' body s whole)

  heights-le : (d : Values) (s : List ℕ) → fencode_values d ≡ ok s → heights d ≤ length s
  heights-le nil s h = omega arith
  heights-le (cons v d) s h =
      let (first, rest, ef, er, e) = two_parts (fencode true v) (fencode_values d) s h in
      omega (
        arith,
        height-le true v first ef,
        heights-le d rest er,
        ap length e,
        length-append first rest,
      )

  height_entries-le :
      (d : Entries) (s : List ℕ) → fencode_entries d ≡ ok s → height_entries d ≤ length s
  height_entries-le end s h = omega arith
  height_entries-le (entry k v d) s h =
      let (first, second, rest, ef, es, er, e) =
        three_parts (fencode true k) (fencode true v) (fencode_entries d) s h in
      omega (
        arith,
        height-le true k first ef,
        height-le true v second es,
        height_entries-le d rest er,
        ap length e,
        length-append first (second ++ rest),
        length-append second rest,
      )
