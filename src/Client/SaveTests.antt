-- ===== src/Client/SaveTests.antt =====
-- flud/protocol/ClientPrimitives.py: a concrete multipart body, as the client saves it.
use flud.Prelude.{◌≤◌, ◌<◌, ◌==◌, ℕ, ◌≡◌, refl, ok, List, [], ◌∷◌, ◌++◌, All, arith, false}
use flud.Server.Auth.{after_prefix}
use flud.Server.Multipart.{dashes, build_parts, digits}
use flud.Tarball.{ends_with}
use flud.Client.Save.{save_response, cut_at, unquote}
use flud.Client.Tokens.{IsVisible}
use flud.Client.Saved.{Fits}
use flud.Client.RoundTrip.{save_response-build_parts, related}

abbrev text : List ℕ → List ℕ
text s = s

abbrev boundary : List ℕ
boundary = b'7' ∷ b'f' ∷ []

abbrev others : List (List ℕ × List ℕ)
others = (b'n' ∷ [], 13 ∷ 10 ∷ []) ∷ []

letter : (c : ℕ) → (33 ≤ c) × (c < 127) → (c == b':') ≡ false → IsVisible c
letter c (above, below) no_colon = record { above = above; below = below; no_colon = no_colon }

boundary-IsVisible : All IsVisible boundary
boundary-IsVisible =
    (letter b'7' (omega arith, omega arith) refl, (letter b'f' (omega arith, omega arith) refl, tt))

fits : Fits (dashes ++ boundary) ((b'k' ∷ [], 1 ∷ 2 ∷ []) ∷ others)
unfolding cut_at after_prefix digits ends_with
fits = (
  (letter b'k' (omega arith, omega arith) refl, tt),
  (refl, (refl, ((letter b'n' (omega arith, omega arith) refl, tt), refl))),
)

unquoted : unquote boundary ≡ boundary
unfolding unquote
unquoted = refl

save_response-build_parts_example :
    (body : List ℕ) × (build_parts ((b'k' ∷ [], 1 ∷ 2 ∷ []) ∷ others) boundary ≡ ok body)
    × (save_response text text body related boundary (b't' ∷ []) ≡ (b'k' ∷ [], 1 ∷ 2 ∷ []) ∷ others)
save_response-build_parts_example =
    save_response-build_parts text (λ s h. refl) b'7' (b'f' ∷ []) boundary-IsVisible text
      (b't' ∷ []) (b'k' ∷ []) (1 ∷ 2 ∷ []) others refl unquoted fits
