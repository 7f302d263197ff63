-- ===== src/Client/Saved.antt =====
-- flud/protocol/ClientPrimitives.py: a multipart body of the form that the server builds, as the
-- client saves it.
use flud.Prelude.{
  ℕ, zero, suc, ◌≤◌, ◌≡◌, refl, sym, ap, ◌∙◌, false, none, some, List, [], ◌∷◌, ◌++◌, arith, length,
  length-append, append_assoc, ◌==◌, All, ◌<◌,
}
use flud.Prelude.Text.{strip}
use flud.Server.Auth.{after_prefix}
use flud.Server.Multipart.{line_end, dashes}
use flud.Server.Body.{part, full, flat}
use flud.Tarball.{ends_with}
use flud.Client.Save.{cut_at, split_loop, split_at, chop, save_part, save_piece, save_pieces}
use flud.Client.Tokens.{IsVisible, IsAscii, strip_visible, visible-IsAscii}
use flud.Client.Multipart.{
  part-append, chop-append, headers_end, lines, id_read, cut_at-hit, cut_at-miss, push,
}
use flud.Client.Pieces.{Clear, cut_at-Clear, visible-NoReturn, strip_bytes_visible}

-- A piece between two boundaries, without the line end behind it.
abbrev pub piece : List ℕ → List ℕ → List ℕ
piece id payload = line_end ++ part id (length payload) payload

module _ (decode : List ℕ → List ℕ) (decodes : (s : List ℕ) → All IsAscii s → decode s ≡ s) (i : ℕ)
    (is : List ℕ) (visible : All IsVisible (i ∷ is)) where
  -- A part is saved under its name, without a line end at its end.
  part_saved :
      (n : ℕ) (q : List ℕ)
      → save_part decode (part (i ∷ is) n (q ++ line_end)) ≡ some (i ∷ is, chop q)
  unfolding save_part
  part_saved n q =
      let clear = visible-NoReturn (i ∷ is) visible in
      let chopped = ap chop (part-append (i ∷ is) n q) ∙ chop-append (part (i ∷ is) n q) in
      let text : strip (decode (i ∷ is)) ≡ i ∷ is =
        ap strip (decodes (i ∷ is) (visible-IsAscii (i ∷ is) visible))
        ∙ strip_visible i is visible in
      rw
        (
          save_part,
          chopped,
          headers_end (i ∷ is) n clear q,
          lines (i ∷ is) n clear,
          id_read (i ∷ is) n clear (strip_bytes_visible i is visible),
          text,
        )
        refl

  piece_saved :
      (n : ℕ) (q : List ℕ)
      → save_piece decode (line_end ++ part (i ∷ is) n (q ++ line_end)) ≡ some (i ∷ is, chop q)
  unfolding save_piece after_prefix
  piece_saved n q = part_saved n q

-- A name with a character at least, all of them visible ASCII and none a colon.
abbrev pub Named : List ℕ → Type 0
Named [] = ⊥
Named (i ∷ is) = All IsVisible (i ∷ is)

-- Parts that the boundary does not stand in before their ends, of which all but the last end in no
-- line end.
abbrev pub Fits : List ℕ → List (List ℕ × List ℕ) → Type 0
Fits mark [] = Unit
Fits mark ((id, payload) ∷ []) = Named id × Clear mark (full id payload ++ line_end)
Fits mark ((id, payload) ∷ p ∷ ps) =
    Named id
    × (Clear mark (full id payload) × ((ends_with line_end payload ≡ false) × Fits mark (p ∷ ps)))

module _ (decode : List ℕ → List ℕ) (decodes : (s : List ℕ) → All IsAscii s → decode s ≡ s) (b : ℕ)
    (bs : List ℕ) (boundary : All IsVisible (b ∷ bs)) where
  abbrev mark : List ℕ
  mark = dashes ++ (b ∷ bs)

  -- The end has no boundary in it, and is not saved.
  no_more : cut_at mark (dashes ++ line_end) ≡ none
  no_more =
      let other : (b == 13) ≡ false = ground (arith, boundary.0.above) in
      let misses : after_prefix mark (dashes ++ line_end) ≡ none =
        unfold after_prefix in rw other refl in
      cut_at-miss mark b'-' (b'-' ∷ line_end) misses ∙ (unfold push cut_at after_prefix in refl)

  ended : (f : ℕ) → save_pieces decode (split_loop f mark (dashes ++ line_end)) ≡ []
  unfolding save_pieces save_piece split_loop after_prefix
  ended zero = refl
  ended (suc f) = rw (split_loop, no_more) refl

  step :
      (f : ℕ) (x s : List ℕ)
      → Clear mark x
      → split_loop (suc f) mark (x ++ (mark ++ s)) ≡ x ∷ split_loop f mark s
  unfolding split_loop
  step f x s h = rw (split_loop, cut_at-Clear b'-' (b'-' ∷ b ∷ bs) x s h) refl

  saved_first :
      (x : List ℕ) (w : List ℕ × List ℕ) (xs : List (List ℕ))
      → save_piece decode x ≡ some w
      → save_pieces decode (x ∷ xs) ≡ w ∷ save_pieces decode xs
  unfolding save_pieces
  saved_first x w xs h = rw (save_pieces, h) refl

  tail_saved :
      (ps : List (List ℕ × List ℕ)) (f : ℕ) (id payload : List ℕ)
      → length ps < f
      → Fits mark ((id, payload) ∷ ps)
      → save_pieces decode (split_loop f mark (full id payload ++ flat mark ps))
        ≡ (id, payload) ∷ ps
  tail_saved ps zero id payload few fits = absurd (omega (arith, few))
  tail_saved [] (suc f) [] payload few fits = absurd fits.0
  tail_saved (p ∷ ps) (suc f) [] payload few fits = absurd fits.0
  tail_saved [] (suc f) (i ∷ is) payload few (named, clear) =
      let x = full (i ∷ is) payload in
      let n = length payload in
      let one =
        ap (λ l. save_piece decode (line_end ++ l))
          (sym (part-append (i ∷ is) n (payload ++ line_end)))
        ∙ piece_saved decode decodes i is named n (payload ++ line_end)
        ∙ ap (λ l. some (i ∷ is, l)) (chop-append payload) in
      let ending : x ++ flat mark [] ≡ (x ++ line_end) ++ (mark ++ (dashes ++ line_end)) =
        unfold flat in sym (append_assoc x line_end (mark ++ (dashes ++ line_end))) in
      ap (λ l. save_pieces decode (split_loop (suc f) mark l)) ending
      ∙ ap (save_pieces decode) (step f (x ++ line_end) (dashes ++ line_end) clear)
      ∙ saved_first (x ++ line_end) (i ∷ is, payload) (split_loop f mark (dashes ++ line_end)) one
      ∙ ap (◌∷◌ (i ∷ is, payload)) (ended f)
  tail_saved ((id', payload') ∷ ps) (suc f) (i ∷ is) payload few (named, (clear, (no_end, rest))) =
      let x = full (i ∷ is) payload in
      let behind = full id' payload' ++ flat mark ps in
      let whole : chop payload ≡ payload = unfold chop in rw no_end refl in
      let one =
        piece_saved decode decodes i is named (length payload) payload
        ∙ ap (λ l. some (i ∷ is, l)) whole in
      let going : x ++ flat mark ((id', payload') ∷ ps) ≡ x ++ (mark ++ behind) =
        unfold flat in refl in
      ap (λ l. save_pieces decode (split_loop (suc f) mark l)) going
      ∙ ap (save_pieces decode) (step f x behind clear)
      ∙ saved_first x (i ∷ is, payload) (split_loop f mark behind) one
      ∙ ap (◌∷◌ (i ∷ is, payload)) (tail_saved ps f id' payload' (omega (arith, few)) rest)

  -- The piece before the first boundary is empty.
  begun : (k : ℕ) (s : List ℕ) → split_loop (suc k) mark (mark ++ s) ≡ [] ∷ split_loop k mark s
  unfolding split_loop
  begun k s = rw (split_loop, cut_at-hit b'-' (b'-' ∷ b ∷ bs) s) refl

  nothing_saved : (xs : List (List ℕ)) → save_pieces decode ([] ∷ xs) ≡ save_pieces decode xs
  unfolding save_pieces save_piece
  nothing_saved xs = refl

  length-flat : (ps : List (List ℕ × List ℕ)) → length ps ≤ length (flat mark ps)
  unfolding flat
  length-flat [] = omega arith
  length-flat ((id, payload) ∷ ps) =
      let x = full id payload in
      omega (
        arith,
        length-append mark (x ++ flat mark ps),
        length-append x (flat mark ps),
        length-flat ps,
      )

  pub flat_saved :
      (id payload : List ℕ) (ps : List (List ℕ × List ℕ))
      → Fits mark ((id, payload) ∷ ps)
      → save_pieces decode (split_at mark (flat mark ((id, payload) ∷ ps))) ≡ (id, payload) ∷ ps
  unfolding split_at flat
  flat_saved id payload ps fits =
      let x = full id payload in
      let s = x ++ flat mark ps in
      let k = length ((b'-' ∷ b ∷ bs) ++ s) in
      let enough : length ps < k =
        omega (
          arith,
          length-append (b'-' ∷ b ∷ bs) s,
          length-append x (flat mark ps),
          length-flat ps,
        ) in
      ap (save_pieces decode) (begun k s)
      ∙ nothing_saved (split_loop k mark s)
      ∙ tail_saved ps k id payload enough fits
