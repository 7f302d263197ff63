-- ===== src/Fencode/Encode.antt =====
-- flud/fencode.py: `fencode`. Text is a list of character codes.
use flud.Prelude.{
  ℕ, suc, ◌+◌, Bool, true, false, List, [], ◌∷◌, ◌++◌, Result, ok, raise, value_error, ltb, leb,
  length, drop, ◌>>=◌, if◌then◌else◌,
}
use flud.Prelude.Int.{ℤ, pos, negsuc, pos_part, neg_part}
use flud.Fencode.Base64.{b64encode}
use flud.Fencode.Integers.{int_bytes}
use flud.Fencode.Utf8.{utf8_encode}
use flud.Fencode.Values.{
  Value, none_value, bool_value, int_value, bytes_value, str_value, fencoded_value, list_value,
  tuple_value, dict_value, Values, nil, cons, Entries, end, entry, int_of,
}

-- The letter of an integer: upper case for a negative one.
unfoldable pub int_char : ℤ → ℕ
int_char (pos n) = if leb n 2147483647 then b'o' else b'i'
int_char (negsuc n) = if leb (suc n) 2147483647 then b'O' else b'I'

-- `base64.urlsafe_b64encode(val)` of an integer
unfoldable pub int_text : ℤ → List ℕ
int_text n = b64encode (int_bytes (pos_part n + neg_part n))

-- `s[:-1]`
unfoldable pub all_but_last : List ℕ → List ℕ
all_but_last [] = []
all_but_last (a ∷ []) = []
all_but_last (a ∷ b ∷ s) = a ∷ all_but_last (b ∷ s)

-- `makeLen(i)`: the integer's own encoding, without its letter and its last character.
unfoldable pub make_len : ℕ → Result (List ℕ)
unfolding int_text int_char all_but_last
make_len i =
    if ltb 65535 i
    then raise value_error
    else ok (all_but_last (drop 1 (int_char (pos i) ∷ int_text (pos i))))

-- The letter, the length if there is to be one, and the contents.
unfoldable pub framed : Bool → ℕ → List ℕ → Result (List ℕ)
framed true letter contents = do len ← make_len (length contents); ok (letter ∷ (len ++ contents))
framed false letter contents = ok (letter ∷ contents)

unfoldable mutual
  unfolding framed int_char int_text int_of

  pub fencode : Bool → Value → Result (List ℕ)
  fencode len_field none_value = framed len_field b'n' (b'0' ∷ [])
  fencode len_field (bool_value b) = framed len_field (int_char (int_of b)) (int_text (int_of b))
  fencode len_field (int_value n) = framed len_field (int_char n) (int_text n)
  fencode len_field (bytes_value d) = framed len_field b'b' (b64encode d)
  fencode len_field (str_value d) = do
    bytes ← utf8_encode d
    framed len_field b's' (b64encode bytes)
  fencode len_field (fencoded_value d) = framed len_field b'f' d
  fencode len_field (list_value d) = do contents ← fencode_values d; framed len_field b'l' contents
  fencode len_field (tuple_value d) = do contents ← fencode_values d; framed len_field b't' contents
  fencode len_field (dict_value d) = do contents ← fencode_entries d; framed len_field b'd' contents

  -- The loops over the elements of a list or a tuple, and over the pairs of a dict.
  pub fencode_values : Values → Result (List ℕ)
  fencode_values nil = ok []
  fencode_values (cons d ds) = do
    first ← fencode true d
    contents ← fencode_values ds
    ok (first ++ contents)

  pub fencode_entries : Entries → Result (List ℕ)
  fencode_entries end = ok []
  fencode_entries (entry key value ds) = do
    first ← fencode true key
    second ← fencode true value
    contents ← fencode_entries ds
    ok (first ++ (second ++ contents))
