-- ===== src/Client/Tokens.antt =====
-- flud/protocol/ClientPrimitives.py and AiohttpServer.py: what encoded bytes are to the text methods
-- that the challenge and its response pass through.
use flud.Prelude.{
  ℕ, ◌+◌, ◌*◌, ◌/◌, ◌%◌, ◌<◌, ◌≤◌, ◌≡◌, refl, ap, ◌∙◌, false, some, List, [], ◌∷◌, ◌++◌, ok, arith,
  All, ◌==◌,
}
use flud.Prelude.Text.{is_space, lstrip, rstrip, unless_last_space, strip}
use flud.Fencode.Base64.{b64encode, digit64, IsByte, equals}
use flud.Fencode.Utf8.{utf8_encode, utf8_bytes, surrogate}
use flud.Fencode.Values.{bytes_value}
use flud.Fencode.Encode.{fencode}
use flud.Server.Auth.{split_colon}

-- A visible ASCII character that is no colon.
pub record IsVisible (c : ℕ) : Type 0 where
  pub above : 33 ≤ c
  pub below : c < 127
  pub no_colon : (c == b':') ≡ false

digit64-IsVisible : (v : ℕ) → v < 64 → IsVisible (digit64 v)
unfolding digit64
digit64-IsVisible v h = record {
  above = ground arith;
  below = ground arith;
  no_colon = ground arith;
}

equals-IsVisible : IsVisible equals
equals-IsVisible = record { above = omega arith; below = omega arith; no_colon = refl }

b64encode-IsVisible : (bs : List ℕ) → All IsByte bs → All IsVisible (b64encode bs)
unfolding b64encode
b64encode-IsVisible [] h = tt
b64encode-IsVisible (a ∷ []) h = (
  digit64-IsVisible (a / 4) (omega arith),
  (digit64-IsVisible (a % 4 * 16) (omega arith), (equals-IsVisible, (equals-IsVisible, tt))),
)
b64encode-IsVisible (a ∷ b ∷ []) h = (
  digit64-IsVisible (a / 4) (omega arith),
  (
    digit64-IsVisible (a % 4 * 16 + b / 16) (omega arith),
    (digit64-IsVisible (b % 16 * 4) (omega arith), (equals-IsVisible, tt)),
  ),
)
b64encode-IsVisible (a ∷ b ∷ c ∷ rest) h = (
  digit64-IsVisible (a / 4) (omega arith),
  (
    digit64-IsVisible (a % 4 * 16 + b / 16) (omega arith),
    (
      digit64-IsVisible (b % 16 * 4 + c / 64) (omega arith),
      (digit64-IsVisible (c % 64) (omega arith), b64encode-IsVisible rest h.1.1.1),
    ),
  ),
)

b-IsVisible : IsVisible b'b'
b-IsVisible = record { above = omega arith; below = omega arith; no_colon = refl }

-- Bytes are encoded as a letter and their base 64.
pub fencode_bytes : (bs : List ℕ) → fencode false (bytes_value bs) ≡ ok (b'b' ∷ b64encode bs)
unfolding fencode
fencode_bytes bs = refl

pub encoded-IsVisible : (bs : List ℕ) → All IsByte bs → All IsVisible (b'b' ∷ b64encode bs)
encoded-IsVisible bs h = (b-IsVisible, b64encode-IsVisible bs h)

pub is_space_not : (c : ℕ) → IsVisible c → is_space c ≡ false
unfolding is_space
is_space_not c v = ground (arith, v.above, v.below)

pub rstrip_visible : (s : List ℕ) → All IsVisible s → rstrip s ≡ s
unfolding rstrip
rstrip_visible [] h = refl
rstrip_visible (c ∷ []) h = rw (unless_last_space, is_space_not c h.0) refl
rstrip_visible (c ∷ d ∷ s) h =
    let rest = rstrip_visible (d ∷ s) h.1 in
    ap (unless_last_space c) rest ∙ (unfold unless_last_space in refl)

pub strip_visible : (c : ℕ) (s : List ℕ) → All IsVisible (c ∷ s) → strip (c ∷ s) ≡ c ∷ s
unfolding strip
strip_visible c s h =
    let first : lstrip (c ∷ s) ≡ c ∷ s = rw (lstrip, is_space_not c h.0) refl in
    ap rstrip first ∙ rstrip_visible (c ∷ s) h

-- What stands before the first colon, and behind it.
pub split_colon-visible :
    (s rest : List ℕ) → All IsVisible s → split_colon (s ++ (b':' ∷ rest)) ≡ some (s, rest)
unfolding split_colon
split_colon-visible [] rest h = refl
split_colon-visible (c ∷ s) rest h = rw (h.0.no_colon, split_colon-visible s rest h.1) refl

abbrev pub IsAscii : ℕ → Type 0
IsAscii c = c < 128

-- ASCII text is its own UTF-8.
pub utf8_encode-IsAscii : (s : List ℕ) → All IsAscii s → utf8_encode s ≡ ok s
unfolding utf8_encode
utf8_encode-IsAscii [] h = refl
utf8_encode-IsAscii (c ∷ s) h =
    let fine : surrogate c ≡ false = unfold surrogate in ground arith in
    let one : utf8_bytes c ≡ c ∷ [] = unfold utf8_bytes in ground arith in
    rw (utf8_encode, fine, utf8_encode-IsAscii s h.1, one) refl

pub visible-IsAscii : (s : List ℕ) → All IsVisible s → All IsAscii s
visible-IsAscii [] h = tt
visible-IsAscii (c ∷ s) h = (omega (arith, h.0.below), visible-IsAscii s h.1)
