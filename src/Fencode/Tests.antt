-- ===== src/Fencode/Tests.antt =====
-- flud/fencode.py: runs of the encoder and the decoder, and concrete inputs of their theorems.
use flud.Prelude.{ℕ, ◌≡◌, refl, ok, raise, index_error, List, [], ◌∷◌, arith, true, false}
use flud.Prelude.Int.{pos, negsuc}
use flud.Fencode.Base64.{b64encode, b64decode}
use flud.Fencode.Utf8.{utf8_encode, surrogate, utf8_bytes}
use flud.Fencode.Values.{
  Value, none_value, bool_value, int_value, bytes_value, str_value, list_value, tuple_value,
  dict_value, nil, cons, entry, end, IsGood, plain, hashable, same_key,
}
use flud.Fencode.Encode.{fencode, make_len}
use flud.Fencode.Decode.{fdecode, depth, decode_loop}
use flud.Fencode.Integers.{int_bytes}
use flud.Fencode.RoundTrip.{fdecode-fencode}

-- `{1: [True, None], (b"ab",): "é"}`
abbrev sample : Value
sample = dict_value (
    entry (int_value (pos 1)) (list_value (cons (bool_value true) (cons none_value nil)))
      (entry (tuple_value (cons (bytes_value (97 ∷ 98 ∷ [])) nil)) (str_value (233 ∷ [])) end))

abbrev text : List ℕ
text =
    b'd' ∷ b'o' ∷ b'A' ∷ b'A' ∷ b'Q' ∷ b'A' ∷ b'A' ∷ b'E' ∷ b'=' ∷ b'l' ∷ b'A' ∷ b'A' ∷ b'0' ∷ b'o'
    ∷ b'A' ∷ b'A' ∷ b'Q' ∷ b'A' ∷ b'A' ∷ b'E' ∷ b'=' ∷ b'n' ∷ b'A' ∷ b'A' ∷ b'E' ∷ b'0' ∷ b't'
    ∷ b'A' ∷ b'A' ∷ b'g' ∷ b'b' ∷ b'A' ∷ b'A' ∷ b'Q' ∷ b'Y' ∷ b'W' ∷ b'I' ∷ b'=' ∷ b's' ∷ b'A'
    ∷ b'A' ∷ b'Q' ∷ b'w' ∷ b'6' ∷ b'k' ∷ b'=' ∷ []

sample_encoded : fencode false sample ≡ ok text
unfolding fencode make_len b64encode int_bytes utf8_encode surrogate utf8_bytes
sample_encoded = refl

sample-IsGood : IsGood sample
unfolding IsGood plain hashable same_key
sample-IsGood = ground arith

fdecode-fencode_example : fdecode (depth 1) (str_value text) ≡ ok (plain sample)
fdecode-fencode_example = fdecode-fencode sample text sample-IsGood sample_encoded

negative : fencode false (int_value (negsuc 4)) ≡ ok (b'O' ∷ b'A' ∷ b'A' ∷ b'U' ∷ b'=' ∷ [])
unfolding fencode b64encode int_bytes
negative = refl

-- A key with no value after it
lone_key : fdecode (depth 1) (str_value (b'd' ∷ b'l' ∷ b'A' ∷ b'A' ∷ b'A' ∷ [])) ≡ raise index_error
unfolding fdecode decode_loop b64decode
lone_key = refl
