-- ===== src/Fencode/Alphabet.antt =====
-- flud/fencode.py: the characters of an encoded value.
use flud.Prelude.{
  ℕ, ◌+◌, ◌≡◌, Bool, true, false, List, [], ◌∷◌, ◌++◌, arith, ok, raise, ltb, length, ◌>>=◌,
  >>=-eq-ok, All, All-append, Bool-cases, inl, inr, subst, sym, value_error,
}
use flud.Prelude.Int.{ℤ, pos, negsuc, pos_part, neg_part}
use flud.Fencode.Base64.{b64encode, is_ascii, is_ascii-b64encode, IsByte}
use flud.Fencode.Integers.{IsByte-int_bytes}
use flud.Fencode.Utf8.{utf8_encode, IsChar, IsByte-utf8_encode}
use flud.Fencode.Values.{
  Value, none_value, bool_value, int_value, bytes_value, str_value, fencoded_value, list_value,
  tuple_value, dict_value, Values, nil, cons, Entries, end, entry, int_of, IsGood, AreGood,
  IsGoodDict,
}
use flud.Fencode.Encode.{
  fencode, fencode_values, fencode_entries, framed, make_len, int_text, int_char, all_but_last,
}
use flud.Fencode.Parts.{two_parts, three_parts}

IsChar-is_ascii : (s : List ℕ) → is_ascii s ≡ true → All IsChar s
unfolding is_ascii
IsChar-is_ascii [] h = tt
IsChar-is_ascii (c ∷ s) h = (ground (arith, h), IsChar-is_ascii s (ground (arith, h)))

IsChar-b64encode : (bs : List ℕ) → All IsByte bs → All IsChar (b64encode bs)
IsChar-b64encode bs h = IsChar-is_ascii (b64encode bs) (is_ascii-b64encode bs h)

IsChar-int_text : (n : ℤ) → All IsChar (int_text n)
unfolding int_text
IsChar-int_text n = IsChar-b64encode _ (IsByte-int_bytes (pos_part n + neg_part n))

IsChar-int_char : (n : ℤ) → IsChar (int_char n)
unfolding int_char
IsChar-int_char (pos n) = ground arith
IsChar-int_char (negsuc n) = ground arith

IsChar-all_but_last : (s : List ℕ) → All IsChar s → All IsChar (all_but_last s)
unfolding all_but_last
IsChar-all_but_last [] h = tt
IsChar-all_but_last (a ∷ []) h = tt
IsChar-all_but_last (a ∷ b ∷ s) h = (h.0, IsChar-all_but_last (b ∷ s) h.1)

IsChar-make_len : (i : ℕ) (l : List ℕ) → make_len i ≡ ok l → All IsChar l
IsChar-make_len i l h = elim (Bool-cases (ltb 65535 i)) [
  | inl long ↦ absurd (let e : make_len i ≡ raise value_error = unfold make_len in rw long in cc)
  | inr few ↦
      let e : make_len i ≡ ok (all_but_last (int_text (pos i))) = unfold make_len in rw few in
      let same : all_but_last (int_text (pos i)) ≡ l = cc in
      subst (All IsChar) same (IsChar-all_but_last (int_text (pos i)) (IsChar-int_text (pos i)))
]

IsChar-framed :
    (len_field : Bool) (c : ℕ) (body s : List ℕ)
    → IsChar c
    → All IsChar body
    → framed len_field c body ≡ ok s
    → All IsChar s
IsChar-framed false c body s hc hb h =
    let e : c ∷ body ≡ s = unfold framed in cc in subst (All IsChar) e (hc, hb)
IsChar-framed true c body s hc hb h =
    let chain : (make_len (length body) >>= λ l. ok (c ∷ (l ++ body))) ≡ ok s =
      unfold framed in h in
    let (len, made, whole) = >>=-eq-ok (make_len (length body)) (λ l. ok (c ∷ (l ++ body))) chain in
    let e : c ∷ (len ++ body) ≡ s = cc in
    subst (All IsChar) e
      (hc, All-append IsChar len body (IsChar-make_len (length body) len made) hb)

mutual
  unfolding fencode IsGood

  -- An encoded value is text.
  pub IsChar-fencode :
      (l : Bool) (v : Value) (s : List ℕ) → IsGood v → fencode l v ≡ ok s → All IsChar s
  IsChar-fencode l none_value s g h =
      IsChar-framed l b'n' (b'0' ∷ []) s (omega arith) (omega arith, tt) h
  IsChar-fencode l (bool_value b) s g h =
      IsChar-framed l _ _ s (IsChar-int_char (int_of b)) (IsChar-int_text (int_of b)) h
  IsChar-fencode l (int_value n) s g h =
      IsChar-framed l _ _ s (IsChar-int_char n) (IsChar-int_text n) h
  IsChar-fencode l (bytes_value d) s g h =
      IsChar-framed l b'b' _ s (omega arith) (IsChar-b64encode d g) h
  IsChar-fencode l (str_value d) s g h =
      let (bytes, made, whole) =
        >>=-eq-ok (utf8_encode d) (λ bytes. framed l b's' (b64encode bytes)) h in
      IsChar-framed l b's' _ s (omega arith)
        (IsChar-b64encode bytes (IsByte-utf8_encode d bytes g made)) whole
  IsChar-fencode l (fencoded_value d) s g h = IsChar-framed l b'f' d s (omega arith) g h
  IsChar-fencode l (list_value d) s g h =
      let (body, inside, whole) = >>=-eq-ok (fencode_values d) (λ body. framed l b'l' body) h in
      IsChar-framed l b'l' body s (omega arith) (IsChar-fencode_values d body g inside) whole
  IsChar-fencode l (tuple_value d) s g h =
      let (body, inside, whole) = >>=-eq-ok (fencode_values d) (λ body. framed l b't' body) h in
      IsChar-framed l b't' body s (omega arith) (IsChar-fencode_values d body g inside) whole
  IsChar-fencode l (dict_value d) s g h =
      let (body, inside, whole) = >>=-eq-ok (fencode_entries d) (λ body. framed l b'd' body) h in
      IsChar-framed l b'd' body s (omega arith) (IsChar-fencode_entries d body g inside) whole

  IsChar-fencode_values :
      (d : Values) (s : List ℕ) → AreGood d → fencode_values d ≡ ok s → All IsChar s
  IsChar-fencode_values nil s g h = let e : [] ≡ s = cc in subst (All IsChar) e tt
  IsChar-fencode_values (cons v d) s g h =
      let (first, rest, ef, er, parts) = two_parts (fencode true v) (fencode_values d) s h in
      subst (All IsChar) (sym parts) (
        All-append IsChar first rest (IsChar-fencode true v first g.0 ef)
          (IsChar-fencode_values d rest g.1 er))

  IsChar-fencode_entries :
      (d : Entries) (s : List ℕ) → IsGoodDict d → fencode_entries d ≡ ok s → All IsChar s
  IsChar-fencode_entries end s g h = let e : [] ≡ s = cc in subst (All IsChar) e tt
  IsChar-fencode_entries (entry k v d) s g h =
      let (first, second, rest, ek, ev, er, parts) =
        three_parts (fencode true k) (fencode true v) (fencode_entries d) s h in
      subst (All IsChar) (sym parts) (
        All-append IsChar first (second ++ rest) (IsChar-fencode true k first g.2 ek) (
          All-append IsChar second rest (IsChar-fencode true v second g.3 ev)
            (IsChar-fencode_entries d rest g.4 er)))
