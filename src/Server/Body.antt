-- ===== src/Server/Body.antt =====
-- flud/protocol/AiohttpServer.py: the bytes of a multipart body, and that `_build_multipart` makes
-- these.
use flud.Prelude.{
  ℕ, ◌≡◌, ap, List, [], ◌∷◌, ◌++◌, ok, arith, append_assoc, All, ◌>>=◌, All-append, length, take,
}
use flud.Server.Multipart.{line_end, dashes, type_line, id_word, length_word, digits, build_parts}
use flud.Client.Tokens.{IsAscii, utf8_encode-IsAscii}

abbrev pub blank : List ℕ
blank = line_end ++ line_end

-- `"Content-Type: Application/octet-stream"`
abbrev pub type_text : List ℕ
type_text = take 38 type_line

abbrev pub id_line : List ℕ → List ℕ
id_line id = id_word ++ id

abbrev pub length_line : ℕ → List ℕ
length_line n = length_word ++ digits n

-- A part as it stands behind its boundary and the first line end.
abbrev pub part : List ℕ → ℕ → List ℕ → List ℕ
part id n q =
    type_text ++ (line_end ++ (id_line id ++ (line_end ++ (length_line n ++ (blank ++ q)))))

-- A part with the line ends around it, and a body of such parts behind a mark each.
abbrev pub full : List ℕ → List ℕ → List ℕ
full id payload = line_end ++ part id (length payload) (payload ++ line_end)

unfoldable pub flat : List ℕ → List (List ℕ × List ℕ) → List ℕ
flat mark [] = line_end ++ (mark ++ (dashes ++ line_end))
flat mark ((id, payload) ∷ ps) = mark ++ (full id payload ++ flat mark ps)

-- A part's name is ASCII.
abbrev pub NamedAscii : List ℕ × List ℕ → Type 0
NamedAscii (id, payload) = All IsAscii id

module _ (boundary : List ℕ) (ascii : All IsAscii boundary) where
  line_IsAscii : (s : List ℕ) → All IsAscii s → All IsAscii (s ++ line_end)
  line_IsAscii s h = All-append IsAscii s line_end h (omega arith, (omega arith, tt))

  last_IsAscii : All IsAscii (line_end ++ (dashes ++ (boundary ++ (dashes ++ line_end))))
  last_IsAscii =
      let closing : All IsAscii (dashes ++ line_end) = ground arith in
      let rest = All-append IsAscii boundary (dashes ++ line_end) ascii closing in
      (omega arith, (omega arith, (omega arith, (omega arith, rest))))

  pub build_parts-flat :
      (ps : List (List ℕ × List ℕ))
      → All NamedAscii ps
      → build_parts ps boundary ≡ ok (flat (dashes ++ boundary) ps)
  unfolding build_parts flat
  build_parts-flat [] h =
      ap (λ r. r >>= λ last. ok last)
        (utf8_encode-IsAscii (line_end ++ (dashes ++ (boundary ++ (dashes ++ line_end))))
          last_IsAscii)
  build_parts-flat ((id, payload) ∷ ps) h =
      let word : All IsAscii id_word = ground arith in
      let opening =
        utf8_encode-IsAscii (dashes ++ (boundary ++ line_end))
          (omega arith, (omega arith, line_IsAscii boundary ascii)) in
      let content =
        utf8_encode-IsAscii (id_word ++ (id ++ line_end))
          (All-append IsAscii id_word (id ++ line_end) word (line_IsAscii id h.0)) in
      rw (build_parts, opening, content, build_parts-flat ps h.1) (ap ok (simp (append_assoc)))
