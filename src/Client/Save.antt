-- ===== src/Client/Save.antt =====
-- flud/protocol/ClientPrimitives.py: `_save_retrieve_response`. What it writes is a list of names in
-- the target directory with their bytes, in order.
use flud.Prelude.{
  ℕ, zero, suc, ◌-◌, Bool, ◌&&◌, ◌||◌, Option, none, some, List, [], ◌∷◌, ◌++◌, Dict, get, put,
  length, take, leb, ◌==◌, map, if◌then◌else◌,
}
use flud.Prelude.Text.{strip, lower, cut, split_char}
use flud.Fencode.Values.{same_text, text_eq}
use flud.Server.Auth.{after_prefix}
use flud.Server.Multipart.{line_end, dashes}
use flud.Tarball.{ends_with}

-- `s.partition(mark)` of a text of several characters, where it has the mark
unfoldable pub cut_at : List ℕ → List ℕ → Option (List ℕ × List ℕ)
unfolding after_prefix
cut_at mark [] = none
cut_at mark (c ∷ s) =
    let rest = cut_at mark s in
    elim (after_prefix mark (c ∷ s)) [
      | some after ↦ some ([], after)
      | none ↦ elim rest [ none ↦ none | some (before, after) ↦ some (c ∷ before, after) ]
    ]

-- `s.split(mark)`. Each piece but the last takes the mark away, so the length is enough fuel.
unfoldable pub split_loop : ℕ → List ℕ → List ℕ → List (List ℕ)
unfolding cut_at
split_loop zero mark s = s ∷ []
split_loop (suc f) mark s = elim (cut_at mark s) [
  | none ↦ s ∷ []
  | some (before, after) ↦ before ∷ split_loop f mark after
]

unfoldable pub split_at : List ℕ → List ℕ → List (List ℕ)
unfolding split_loop
split_at mark s = split_loop (length s) mark s

-- `strip` of the characters that a test takes
unfoldable pub strip_left : (ℕ → Bool) → List ℕ → List ℕ
strip_left test [] = []
strip_left test (c ∷ s) = let rest = strip_left test s in if test c then rest else c ∷ s

unfoldable pub unless_stripped : (ℕ → Bool) → ℕ → List ℕ → List ℕ
unless_stripped test c [] = if test c then [] else c ∷ []
unless_stripped test c (d ∷ s) = c ∷ d ∷ s

unfoldable pub strip_right : (ℕ → Bool) → List ℕ → List ℕ
unfolding unless_stripped
strip_right test [] = []
strip_right test (c ∷ s) = unless_stripped test c (strip_right test s)

-- `s.strip('"')`
unfoldable pub unquote : List ℕ → List ℕ
unfolding strip_left strip_right
unquote s = strip_right (λ c. c == b'"') (strip_left (λ c. c == b'"') s)

-- `strip` of a bytes, whose white space is that of ASCII
abbrev pub is_space_byte : ℕ → Bool
is_space_byte c = (leb 9 c && leb c 13) || c == b' '

unfoldable pub strip_bytes : List ℕ → List ℕ
unfolding strip_left strip_right
strip_bytes s = strip_right is_space_byte (strip_left is_space_byte s)

-- The parts of a content type that are not empty.
unfoldable pub stripped_parts : List (List ℕ) → List (List ℕ)
unfolding strip
stripped_parts [] = []
stripped_parts (p ∷ ps) =
    let rest = stripped_parts ps in elim (strip p) [ [] ↦ rest | c ∷ s ↦ (c ∷ s) ∷ rest ]

-- The parameters behind the content type.
unfoldable pub read_params : List (List ℕ) → Dict (List ℕ) (List ℕ) → Dict (List ℕ) (List ℕ)
unfolding cut strip lower unquote same_text
read_params [] params = params
read_params (p ∷ ps) params = read_params ps (elim (cut b'=' p) [
  | none ↦ params
  | some (key, value) ↦ put (map lower (strip key)) (unquote (strip value)) params
])

-- `"application/octet-stream"`, where there is no content type
abbrev pub octet_stream : List ℕ
octet_stream =
    b'a' ∷ b'p' ∷ b'p' ∷ b'l' ∷ b'i' ∷ b'c' ∷ b'a' ∷ b't' ∷ b'i' ∷ b'o' ∷ b'n' ∷ b'/' ∷ b'o' ∷ b'c'
    ∷ b't' ∷ b'e' ∷ b't' ∷ b'-' ∷ b's' ∷ b't' ∷ b'r' ∷ b'e' ∷ b'a' ∷ b'm' ∷ []

abbrev pub boundary_name : List ℕ
boundary_name = b'b' ∷ b'o' ∷ b'u' ∷ b'n' ∷ b'd' ∷ b'a' ∷ b'r' ∷ b'y' ∷ []

abbrev pub multipart_word : List ℕ
multipart_word = b'm' ∷ b'u' ∷ b'l' ∷ b't' ∷ b'i' ∷ b'p' ∷ b'a' ∷ b'r' ∷ b't' ∷ b'/' ∷ []

-- The boundary of the parameters, else that of the header.
abbrev pub boundary_of : Option (List ℕ) → List ℕ → List ℕ
boundary_of (some (c ∷ b)) header = c ∷ b
boundary_of _ header = unquote (strip header)

-- The content type in lower case, and the boundary.
unfoldable pub read_type : List ℕ → List ℕ → List ℕ × List ℕ
unfolding stripped_parts read_params split_char unquote same_text
read_type content_type header = elim (stripped_parts (split_char b';' content_type)) [
  | [] ↦ (octet_stream, boundary_of none header)
  | ctype ∷ params ↦
      (map lower ctype, boundary_of (get boundary_name (read_params params [])) header)
]

-- Without two characters at the end, where these are a line's end.
unfoldable pub chop : List ℕ → List ℕ
unfolding ends_with
chop s = if ends_with line_end s then take (length s - 2) s else s

abbrev pub content_id_name : List ℕ
content_id_name = b'c' ∷ b'o' ∷ b'n' ∷ b't' ∷ b'e' ∷ b'n' ∷ b't' ∷ b'-' ∷ b'i' ∷ b'd' ∷ []

-- The headers of a part by name.
unfoldable pub read_headers : List (List ℕ) → Dict (List ℕ) (List ℕ) → Dict (List ℕ) (List ℕ)
unfolding cut strip_bytes lower same_text
read_headers [] headers = headers
read_headers (line ∷ lines) headers = read_headers lines (elim (cut b':' line) [
  | none ↦ headers
  | some (k, v) ↦ put (map lower (strip_bytes k)) (strip_bytes v) headers
])

-- `decode` is `decode("utf-8", errors="replace")`.
module _ (decode : List ℕ → List ℕ) where
  -- A part with its headers, from which the first line end was taken.
  unfoldable pub save_part : List ℕ → Option (List ℕ × List ℕ)
  unfolding chop cut_at read_headers split_at strip same_text
  save_part part = elim (cut_at (line_end ++ line_end) (chop part)) [
    | none ↦ none
    | some (blob, payload) ↦ elim (get content_id_name (read_headers (split_at line_end blob) [])) [
      | none ↦ none
      | some [] ↦ none
      | some (c ∷ content_id) ↦ some (strip (decode (c ∷ content_id)), chop payload)
    ]
  ]

  -- What comes of a piece between two boundaries.
  unfoldable pub save_piece : List ℕ → Option (List ℕ × List ℕ)
  unfolding save_part after_prefix
  save_piece [] = none
  save_piece (b ∷ piece) = elim (after_prefix dashes (b ∷ piece)) [
    | some rest ↦ none
    | none ↦ elim (after_prefix line_end (b ∷ piece)) [
      | none ↦ save_part (b ∷ piece)
      | some [] ↦ none
      | some (c ∷ part) ↦ save_part (c ∷ part)
    ]
  ]

  unfoldable pub save_pieces : List (List ℕ) → List (List ℕ × List ℕ)
  unfolding save_piece
  save_pieces [] = []
  save_pieces (piece ∷ pieces) =
      let rest = save_pieces pieces in
      elim (save_piece piece) [ none ↦ rest | some written ↦ written ∷ rest ]

  abbrev pub saved_or : List (List ℕ × List ℕ) → List ℕ → List ℕ → List (List ℕ × List ℕ)
  saved_or [] filekey body = (filekey, body) ∷ []
  saved_or (w ∷ saved) filekey body = w ∷ saved

  -- `encode` is UTF-8 of the boundary.
  abbrev pub save_typed :
      (List ℕ → List ℕ) → List ℕ → List ℕ → List ℕ × List ℕ → List (List ℕ × List ℕ)
  save_typed encode body filekey (ctype, boundary) = elim (after_prefix multipart_word ctype) [
    | none ↦ (filekey, body) ∷ []
    | some rest ↦ elim boundary [
      | [] ↦ (filekey, body) ∷ []
      | c ∷ b ↦ saved_or (save_pieces (split_at (dashes ++ encode (c ∷ b)) body)) filekey body
    ]
  ]

  unfoldable pub save_response :
      (List ℕ → List ℕ) → List ℕ → List ℕ → List ℕ → List ℕ → List (List ℕ × List ℕ)
  unfolding read_type save_pieces split_at after_prefix
  save_response encode body content_type header filekey =
      save_typed encode body filekey (read_type content_type header)
