-- ===== src/Server/Probe.antt =====
-- flud/protocol/AiohttpServer.py: what `_handle_hash_get` reads of a request.
use flud.Prelude.{
  ℕ, Bool, ◌||◌, Option, none, some, List, [], ◌∷◌, Result, ok, Dict, length, ltb, ◌>>=◌,
}
use flud.Prelude.Text.{split_char}
use flud.Prelude.Int.{ℤ, pos, ◌+ℤ◌, ltb_ℤ}
use flud.Fencode.Values.{Value, str_value, bytes_value, same_text, text_eq}
use flud.Fencode.Utf8.{utf8_encode}
use flud.Fencode.Decode.{fdecode, depth}
use flud.Tarball.{Member}
use flud.Server.Meta.{at_name}
use flud.Server.Retrieve.{query_get, metakey_name, meta_word}

-- What the code takes from elsewhere: `int` of a text with its sign, `hashstring`, and the size of a
-- member and what `seek` and `read` give of its file.
pub record VerifyTools : Type 0 where
  pub read_signed : List ℕ → Result ℤ
  pub hash_text : List ℕ → List ℕ
  pub size : Member → ℕ
  pub read_at : List ℕ → ℤ → ℤ → Result (List ℕ)

-- What a request asks: the place and the length of the data, and the metadata that it brings.
pub record Probe : Type 0 where
  pub offset : ℤ
  pub span : ℤ
  pub meta : Option (List ℕ × Value)

-- `offset > fsize or (offset + length) > fsize`
unfoldable pub out_of_range : Probe → ℕ → Bool
unfolding ◌+ℤ◌
out_of_range probe size =
    ltb_ℤ (pos size) probe.offset || ltb_ℤ (pos size) (probe.offset +ℤ probe.span)

abbrev pub offset_name : List ℕ
offset_name = b'o' ∷ b'f' ∷ b'f' ∷ b's' ∷ b'e' ∷ b't' ∷ []

abbrev pub length_name : List ℕ
length_name = b'l' ∷ b'e' ∷ b'n' ∷ b'g' ∷ b't' ∷ b'h' ∷ []

-- A text of the metadata is taken as its UTF-8.
abbrev pub meta_value : Value → Result Value
meta_value (str_value s) = do bytes ← utf8_encode s; ok (bytes_value bytes)
meta_value v = ok v

-- The metadata of the query, where it has both of the names.
unfoldable pub query_meta : Dict (List ℕ) (List (List ℕ)) → Result (Option (List ℕ × Value))
unfolding same_text
query_meta query = elim (query_get meta_word query) [
  | none ↦ ok none
  | some raw ↦ elim (query_get metakey_name query) [
    | none ↦ ok none
    | some k ↦ do
      decoded ← fdecode (depth 1) (str_value raw)
      v ← meta_value decoded
      ok (some (k, v))
  ]
]

-- `[p for p in filekey.split(os.path.sep) if p != ""]` of the pieces
unfoldable pub not_empty : List (List ℕ) → List (List ℕ)
not_empty [] = []
not_empty ([] ∷ ps) = not_empty ps
not_empty ((c ∷ p) ∷ ps) = (c ∷ p) ∷ not_empty ps

-- Whether a key goes into directories.
unfoldable pub has_separators : List ℕ → Bool
unfolding not_empty split_char
has_separators filekey = ltb 1 (length (not_empty (split_char b'/' filekey)))

-- The place and the length that are asked for.
abbrev pub read_range : VerifyTools → Dict (List ℕ) (List ℕ) → Result (ℤ × ℤ)
read_range verify params = do
  offset_text ← at_name offset_name params
  offset ← verify.read_signed offset_text
  length_text ← at_name length_name params
  span ← verify.read_signed length_text
  ok (offset, span)
