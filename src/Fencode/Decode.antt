-- ===== src/Fencode/Decode.antt =====
-- flud/fencode.py: `fdecode`. The nesting of the calls has fuel, one more than the text is long.
use flud.Prelude.{
  ℕ, zero, suc, ◌+◌, ◌-◌, ◌%◌, Bool, true, false, ◌||◌, Option, none, some, List, [], ◌∷◌, ◌++◌,
  Result, ok, raise, value_error, index_error, type_error, recursion_error, ltb, ◌==◌, length, take,
  drop, replicate, ◌>>=◌, if◌then◌else◌,
}
use flud.Prelude.Int.{ℤ, pos, negsuc}
use flud.Fencode.Base64.{b64decode, equals}
use flud.Fencode.Integers.{from_bytes}
use flud.Fencode.Utf8.{utf8_decode}
use flud.Fencode.Values.{
  Value, none_value, int_value, bytes_value, str_value, fencoded_value, list_value, tuple_value,
  dict_value, Values, nil, cons, Entries, end, entry, same_key, hashable,
}

-- The argument `recurse`: a bool, or the depth of the decoding of `Fencoded` values.
pub data Recurse : Type 0 where
  flag : Bool → Recurse
  depth : ℕ → Recurse

-- `recurse = recurse-1` for a number, and the test `recurse > 0`: what the inner call is given.
unfoldable pub next_recurse : Recurse → Option Recurse
next_recurse (flag true) = some (flag true)
next_recurse (flag false) = none
next_recurse (depth n) = if ltb 1 n then some (depth (n - 1)) else none

unfoldable pub pad_b64 : List ℕ → List ℕ
pad_b64 s = s ++ replicate ((4 - length s % 4) % 4) equals

-- `int.from_bytes(base64.urlsafe_b64decode(pad_b64(val)), 'big')`
unfoldable pub decode_int : List ℕ → Result ℕ
unfolding pad_b64 from_bytes
decode_int s = do bytes ← b64decode (pad_b64 s); ok (from_bytes 0 bytes)

-- `getLen(s)`, where `fdecode('i'+s+'=')` is the decoding of an integer
unfoldable pub get_len : List ℕ → Result ℕ
unfolding decode_int
get_len s = if length s == 3 then decode_int (s ++ (equals ∷ [])) else raise value_error

unfoldable pub negated : ℕ → ℤ
negated zero = pos 0
negated (suc n) = negsuc n

-- `result[key] = value`, which keeps the place of a key that is there and raises for an unhashable one.
unfoldable pub put_entry : Value → Value → Entries → Entries
unfolding same_key
put_entry k v end = entry k v end
put_entry k v (entry j w es) = if same_key j k then entry j v es else entry j w (put_entry k v es)

unfoldable pub set_item : Value → Value → Entries → Result Entries
unfolding put_entry hashable
set_item k v es = if hashable k then ok (put_entry k v es) else raise type_error

-- `scanval(valstring, True)`, where `decode` is `fdecode` of a text with a length field.
unfoldable pub scanval : (List ℕ → Result Value) → List ℕ → Result (Value × ℕ)
unfolding get_len
scanval decode [] = raise index_error
scanval decode (c ∷ s) = do
  len ← get_len (take 3 s)
  v ← decode (take (4 + len) (c ∷ s))
  ok (v, 4 + len)

-- The `while` loops. Each round takes four characters at least.
unfoldable pub decode_items : ℕ → (List ℕ → Result (Value × ℕ)) → List ℕ → Result Values
decode_items f scan [] = ok nil
decode_items zero scan (c ∷ val) = raise recursion_error
decode_items (suc f) scan (c ∷ val) = do
  (v, l) ← scan (c ∷ val)
  result ← decode_items f scan (drop l (c ∷ val))
  ok (cons v result)

unfoldable pub decode_pairs : ℕ → (List ℕ → Result (Value × ℕ)) → Entries → List ℕ → Result Entries
unfolding set_item
decode_pairs f scan result [] = ok result
decode_pairs zero scan result (c ∷ val) = raise recursion_error
decode_pairs (suc f) scan result (c ∷ val) = do
  (key, l1) ← scan (c ∷ val)
  (value, l2) ← scan (drop l1 (c ∷ val))
  result' ← set_item key value result
  decode_pairs f scan result' (drop (l1 + l2) (c ∷ val))

-- The branches on `valtype`. `inner` decodes the text of a `Fencoded`, where it is to be decoded.
unfoldable pub decode_as :
    (List ℕ → Result (Value × ℕ)) → (Option (List ℕ → Result Value)) → ℕ → List ℕ → Result Value
unfolding decode_int decode_items decode_pairs negated
decode_as scan inner valtype val =
    if valtype == b'i' || valtype == b'o'
    then (do n ← decode_int val; ok (int_value (pos n)))
    else (if valtype == b'I' || valtype == b'O'
        then (do n ← decode_int val; ok (int_value (negated n)))
        else (if valtype == b's'
            then (do bytes ← b64decode (pad_b64 val); s ← utf8_decode bytes; ok (str_value s))
            else (if valtype == b'b'
                then (do bytes ← b64decode (pad_b64 val); ok (bytes_value bytes))
                else (if valtype == b'd'
                    then (do es ← decode_pairs (length val) scan end val; ok (dict_value es))
                    else (if valtype == b'l'
                        then (do vs ← decode_items (length val) scan val; ok (list_value vs))
                        else (if valtype == b't'
                            then (do vs ← decode_items (length val) scan val; ok (tuple_value vs))
                            else (if valtype == b'f'
                                then elim inner [
                                  | none ↦ ok (fencoded_value val)
                                  | some decode ↦ decode val
                                ]
                                else (if valtype == b'n'
                                    then ok none_value
                                    else raise value_error))))))))

-- `valtype` and `val`: with a length field, the length is read and passed over.
unfoldable pub opened : Bool → List ℕ → Result (ℕ × List ℕ)
unfolding get_len
opened len_field [] = raise index_error
opened true (valtype ∷ rest) = do len ← get_len (take 3 rest); ok (valtype, drop 3 rest)
opened false (valtype ∷ rest) = ok (valtype, rest)

unfoldable pub decode_loop : ℕ → Bool → Recurse → List ℕ → Result Value
unfolding opened scanval decode_as next_recurse
decode_loop zero len_field recurse d = raise recursion_error
decode_loop (suc f) len_field recurse d = do
  (valtype, val) ← opened len_field d
  decode_as (scanval (decode_loop f true recurse))
      (elim (next_recurse recurse) [ none ↦ none | some r ↦ some (decode_loop f false r) ]) valtype
      val

-- `fdecode(d, recurse=recurse)` of a text, of bytes, and of a `Fencoded`
unfoldable pub fdecode_text : Recurse → List ℕ → Result Value
fdecode_text recurse d = decode_loop (suc (length d)) false recurse d

unfoldable pub fdecode : Recurse → Value → Result Value
unfolding fdecode_text
fdecode recurse (fencoded_value d) = fdecode_text recurse d
fdecode recurse (str_value d) = fdecode_text recurse d
fdecode recurse (bytes_value d) = do s ← utf8_decode d; fdecode_text recurse s
fdecode recurse _ = raise value_error
