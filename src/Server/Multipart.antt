-- ===== src/Server/Multipart.antt =====
-- flud/protocol/AiohttpServer.py: the multipart body that `_build_multipart` makes.
use flud.Prelude.{
  ℕ, zero, suc, ◌+◌, ◌/◌, ◌%◌, List, [], ◌∷◌, ◌++◌, Result, ok, length, ltb, ◌>>=◌, if◌then◌else◌,
}
use flud.Fencode.Utf8.{utf8_encode}

-- A text with its line end, `"\r\n"`, and what stands before a boundary, `"--"`.
abbrev pub line_end : List ℕ
line_end = 13 ∷ 10 ∷ []

abbrev pub dashes : List ℕ
dashes = b'-' ∷ b'-' ∷ []

-- `"Content-Type: Application/octet-stream\r\n"`
abbrev pub type_line : List ℕ
type_line =
    b'C' ∷ b'o' ∷ b'n' ∷ b't' ∷ b'e' ∷ b'n' ∷ b't' ∷ b'-' ∷ b'T' ∷ b'y' ∷ b'p' ∷ b'e' ∷ b':' ∷ b' '
    ∷ b'A' ∷ b'p' ∷ b'p' ∷ b'l' ∷ b'i' ∷ b'c' ∷ b'a' ∷ b't' ∷ b'i' ∷ b'o' ∷ b'n' ∷ b'/' ∷ b'o'
    ∷ b'c' ∷ b't' ∷ b'e' ∷ b't' ∷ b'-' ∷ b's' ∷ b't' ∷ b'r' ∷ b'e' ∷ b'a' ∷ b'm' ∷ line_end

-- `"Content-ID: "` and `"Content-Length: "`
abbrev pub id_word : List ℕ
id_word = b'C' ∷ b'o' ∷ b'n' ∷ b't' ∷ b'e' ∷ b'n' ∷ b't' ∷ b'-' ∷ b'I' ∷ b'D' ∷ b':' ∷ b' ' ∷ []

abbrev pub length_word : List ℕ
length_word =
    b'C' ∷ b'o' ∷ b'n' ∷ b't' ∷ b'e' ∷ b'n' ∷ b't' ∷ b'-' ∷ b'L' ∷ b'e' ∷ b'n' ∷ b'g' ∷ b't' ∷ b'h'
    ∷ b':' ∷ b' ' ∷ []

-- `"%d"` of a number, with one digit a round. There are fewer digits than the number and one.
unfoldable pub digits_loop : ℕ → ℕ → List ℕ → List ℕ
digits_loop zero n s = s
digits_loop (suc f) n s =
    let longer = digits_loop f (n / 10) ((48 + n % 10) ∷ s) in
    if ltb n 10 then (48 + n % 10) ∷ s else longer

unfoldable pub digits : ℕ → List ℕ
unfolding digits_loop
digits n = digits_loop (suc n) n []

-- The loop of `_build_multipart`, with what its end appends.
unfoldable pub build_parts : List (List ℕ × List ℕ) → List ℕ → Result (List ℕ)
unfolding digits
build_parts [] boundary = do
  last ← utf8_encode (line_end ++ (dashes ++ (boundary ++ (dashes ++ line_end))))
  ok last
build_parts ((content_id, payload) ∷ parts) boundary = do
  opening ← utf8_encode (dashes ++ (boundary ++ line_end))
  content ← utf8_encode (id_word ++ (content_id ++ line_end))
  rest ← build_parts parts boundary
  ok (
      opening
      ++ (type_line
          ++ (content
              ++ (length_word
                  ++ (digits (length payload)
                      ++ (line_end ++ (line_end ++ (payload ++ (line_end ++ rest)))))))))
