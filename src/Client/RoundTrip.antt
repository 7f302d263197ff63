-- ===== src/Client/RoundTrip.antt =====
-- flud/protocol/ClientPrimitives.py and AiohttpServer.py: a multipart body that the server builds, and
-- what the client saves of it.
use flud.Prelude.{ℕ, ◌≡◌, ap, ◌∙◌, List, [], ◌∷◌, ◌++◌, ok, All, get}
use flud.Prelude.Text.{split_char, strip, lstrip, rstrip, is_space, unless_last_space, lower}
use flud.Server.Auth.{after_prefix}
use flud.Server.Multipart.{dashes, build_parts}
use flud.Client.Save.{
  split_at, save_pieces, multipart_word, read_type, stripped_parts, unquote, read_params,
  save_response, save_typed, saved_or,
}
use flud.Client.Tokens.{IsVisible, IsAscii, strip_visible, visible-IsAscii}
use flud.Server.Body.{flat, NamedAscii, build_parts-flat}
use flud.Client.Saved.{Named, Fits, flat_saved}

-- `"Multipart/Related"`, and in lower case
abbrev pub related : List ℕ
related =
    b'M' ∷ b'u' ∷ b'l' ∷ b't' ∷ b'i' ∷ b'p' ∷ b'a' ∷ b'r' ∷ b't' ∷ b'/' ∷ b'R' ∷ b'e' ∷ b'l' ∷ b'a'
    ∷ b't' ∷ b'e' ∷ b'd' ∷ []

abbrev related_lower : List ℕ
related_lower = multipart_word ++ (b'r' ∷ b'e' ∷ b'l' ∷ b'a' ∷ b't' ∷ b'e' ∷ b'd' ∷ [])

module _ (decode : List ℕ → List ℕ) (decodes : (s : List ℕ) → All IsAscii s → decode s ≡ s) (b : ℕ)
    (bs : List ℕ) (boundary : All IsVisible (b ∷ bs)) where
  abbrev mark : List ℕ
  mark = dashes ++ (b ∷ bs)

  name_first :
      (id payload : List ℕ) (ps : List (List ℕ × List ℕ))
      → Fits mark ((id, payload) ∷ ps)
      → Named id × Fits mark ps
  name_first id payload [] fits = (fits.0, tt)
  name_first id payload (p ∷ ps) fits = (fits.0, fits.1.1.1)

  named_parts : (ps : List (List ℕ × List ℕ)) → Fits mark ps → All NamedAscii ps
  named_parts [] fits = tt
  named_parts (([], payload) ∷ ps) fits = absurd (name_first [] payload ps fits).0
  named_parts ((i ∷ is, payload) ∷ ps) fits =
      let (named, rest) = name_first (i ∷ is) payload ps fits in
      (visible-IsAscii (i ∷ is) named, named_parts ps rest)

  -- The content type of the response gives no boundary, so that of the header is taken.
  typed : unquote (b ∷ bs) ≡ b ∷ bs → read_type related (b ∷ bs) ≡ (related_lower, b ∷ bs)
  unfolding read_type stripped_parts split_char strip lstrip rstrip is_space unless_last_space
      read_params get lower
  typed plain = ap (λ s. (related_lower, s)) (ap unquote (strip_visible b bs boundary) ∙ plain)

  -- The boundary and the name of each part are one visible ASCII character or more, none a colon,
  -- which the decoding leaves alone; the encoding and the stripping of quotes leave the boundary
  -- alone. At least one part is given, the marker of the boundary stands nowhere in a part before
  -- its end, and no payload but the last ends in a line end. The server builds a body of the parts
  -- without an exception, and from that body, with the content type `Multipart/Related` and the
  -- boundary in the header, the client saves exactly these payloads under these names, in order.
  pub save_response-build_parts :
      (encode : List ℕ → List ℕ) (filekey id payload : List ℕ) (ps : List (List ℕ × List ℕ))
      → encode (b ∷ bs) ≡ b ∷ bs
      → unquote (b ∷ bs) ≡ b ∷ bs
      → Fits mark ((id, payload) ∷ ps)
      → (body : List ℕ) × (build_parts ((id, payload) ∷ ps) (b ∷ bs) ≡ ok body)
        × (save_response decode encode body related (b ∷ bs) filekey ≡ (id, payload) ∷ ps)
  unfolding save_response after_prefix
  save_response-build_parts encode filekey id payload ps coded plain fits =
      let body = flat mark ((id, payload) ∷ ps) in
      (
        body,
        build_parts-flat (b ∷ bs) (visible-IsAscii (b ∷ bs) boundary) ((id, payload) ∷ ps)
            (named_parts ((id, payload) ∷ ps) fits),
        ap (save_typed decode encode body filekey) (typed plain)
            ∙ ap
                (λ m.
                  saved_or decode (save_pieces decode (split_at (dashes ++ m) body)) filekey body)
                coded
            ∙ ap (λ w. saved_or decode w filekey body)
                (flat_saved decode decodes b bs boundary id payload ps fits),
      )
