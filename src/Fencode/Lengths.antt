-- ===== src/Fencode/Lengths.antt =====
-- flud/fencode.py: the length fields, which `makeLen` writes and `getLen` reads.
use flud.Prelude.{
  ℕ, suc, ◌+◌, ◌-◌, ◌%◌, ◌*◌, ◌/◌, ◌≤◌, ◌<◌, ◌≡◌, ap, sym, ◌∙◌, Bool, true, false, List, [], ◌∷◌,
  ◌++◌, arith, inl, inr, Bool-cases, ok, raise, value_error, ltb, length, append-nil, >>=-eq-ok,
}
use flud.Fencode.Base64.{b64encode, b64decode-b64encode, length-b64encode, equals, digit64}
use flud.Fencode.Integers.{int_bytes, int_bytes_two, IsByte-int_bytes, from_bytes-int_bytes}
use flud.Fencode.Encode.{make_len, framed, int_text, all_but_last}
use flud.Fencode.Decode.{pad_b64, decode_int, get_len, opened}

-- Text of whole groups is not padded.
pub pad_b64-b64encode : (bs : List ℕ) → pad_b64 (b64encode bs) ≡ b64encode bs
unfolding pad_b64
pad_b64-b64encode bs =
    let none_missing : (4 - length (b64encode bs) % 4) % 4 ≡ 0 =
      omega (arith, length-b64encode bs) in
    rw none_missing (append-nil (b64encode bs))

-- The number that `fencode` writes is read back.
pub decode_int-b64encode : (n : ℕ) → decode_int (b64encode (int_bytes n)) ≡ ok n
unfolding decode_int
decode_int-b64encode n =
    rw (pad_b64-b64encode (int_bytes n), b64decode-b64encode (int_bytes n) (IsByte-int_bytes n))
      (ap ok (from_bytes-int_bytes n))

-- The two bytes of a length make one group of three characters and one of padding.
make_len-two :
    (i a b : ℕ)
    → i < 65536
    → int_bytes i ≡ a ∷ b ∷ []
    → make_len i ≡ ok (digit64 (a / 4) ∷ digit64 (a % 4 * 16 + b / 16) ∷ digit64 (b % 16 * 4) ∷ [])
unfolding make_len int_text all_but_last b64encode
make_len-two i a b h e =
    let few : ltb 65535 i ≡ false = ground arith in
    let whole : i + 0 ≡ i = omega arith in rw (few, whole, e)

get_len-two :
    (i a b : ℕ)
    → int_bytes i ≡ a ∷ b ∷ []
    → get_len (digit64 (a / 4) ∷ digit64 (a % 4 * 16 + b / 16) ∷ digit64 (b % 16 * 4) ∷ []) ≡ ok i
unfolding get_len
get_len-two i a b e =
    let whole : b64encode (int_bytes i)
        ≡ digit64 (a / 4) ∷ digit64 (a % 4 * 16 + b / 16) ∷ digit64 (b % 16 * 4) ∷ equals ∷ [] =
      unfold b64encode in rw e in
    sym (ap decode_int whole) ∙ decode_int-b64encode i

-- A length field has three characters, and the length is read from them.
pub make_len-get_len :
    (i : ℕ)
    → i < 65536
    → (x : ℕ) × (y : ℕ) × (z : ℕ) × (make_len i ≡ ok (x ∷ y ∷ z ∷ []))
      × (get_len (x ∷ y ∷ z ∷ []) ≡ ok i)
make_len-get_len i h =
    let (a, b, e) = int_bytes_two i h in (_, _, _, make_len-two i a b h e, get_len-two i a b e)

-- The parts of a framed text with a length field.
pub framed_parts :
    (c : ℕ) (body s : List ℕ)
    → framed true c body ≡ ok s
    → (x : ℕ) × (y : ℕ) × (z : ℕ) × (s ≡ c ∷ x ∷ y ∷ z ∷ body)
      × (get_len (x ∷ y ∷ z ∷ []) ≡ ok (length body))
unfolding framed
framed_parts c body s h =
    let (len, made, whole) = >>=-eq-ok (make_len (length body)) (λ l. ok (c ∷ (l ++ body))) h in
    elim (Bool-cases (ltb 65535 (length body))) [
      | inl long ↦
          let refused : make_len (length body) ≡ raise value_error = unfold make_len in rw long in
          absurd cc
      | inr few ↦
          let (x, y, z, made', got) = make_len-get_len (length body) (ground arith) in
          let same : len ≡ x ∷ y ∷ z ∷ [] = cc in
          (
            x,
            y,
            z,
            (let text : s ≡ c ∷ (len ++ body) = cc in text ∙ ap (λ l. c ∷ (l ++ body)) same),
            got,
          )
    ]

-- What is framed is opened again.
pub opened-framed :
    (len_field : Bool) (c : ℕ) (body s : List ℕ)
    → framed len_field c body ≡ ok s
    → opened len_field s ≡ ok (c, body)
unfolding opened
opened-framed false c body s h = let text : s ≡ c ∷ body = unfold framed in cc in rw text
opened-framed true c body s h = let (x, y, z, text, got) = framed_parts c body s h in rw (text, got)

-- The length of a framed text.
pub framed-length :
    (len_field : Bool) (c : ℕ) (body s : List ℕ)
    → framed len_field c body ≡ ok s
    → suc (length body) ≤ length s
framed-length false c body s h =
    let text : s ≡ c ∷ body = unfold framed in cc in rw text (omega arith)
framed-length true c body s h =
    let (x, y, z, text, got) = framed_parts c body s h in rw text (omega arith)
