-- ===== src/Fencode/Base64.antt =====
-- flud/fencode.py: `base64.urlsafe_b64encode` and `urlsafe_b64decode` as the code uses them, over lists
-- of bytes and of character codes. The decoder is the lenient one of the library: it passes over
-- characters outside the alphabet, and stops at padding that completes a group.
use mathlib.Core.Path.{ap₂}
use flud.Prelude.{
  ℕ, ◌+◌, ◌-◌, ◌*◌, ◌/◌, ◌%◌, ◌<◌, ◌≡◌, refl, ap, Bool, true, false, ◌&&◌, ◌||◌, Option, none, some,
  List, [], ◌∷◌, ◌++◌, arith, Result, ok, raise, binascii_error, value_error, ltb, leb, ◌==◌, ◌>>=◌,
  if◌then◌else◌, length, All,
}

abbrev pub equals : ℕ
equals = b'='

-- The character of a group of six bits.
unfoldable pub digit64 : ℕ → ℕ
digit64 v =
    if ltb v 26
    then v + 65
    else (if ltb v 52
        then v + 71
        else (if ltb v 62 then v - 4 else (if v == 62 then b'-' else b'_')))

-- The six bits of a character. The alphabets with `+/` and `-_` are both read.
unfoldable pub value64 : ℕ → Option ℕ
value64 c =
    if leb 65 c && leb c 90
    then some (c - 65)
    else (if leb 97 c && leb c 122
        then some (c - 71)
        else (if leb 48 c && leb c 57
            then some (c + 4)
            else (if c == b'-' || c == b'+'
                then some 62
                else (if c == b'_' || c == b'/' then some 63 else none))))

unfoldable pub b64encode : List ℕ → List ℕ
unfolding digit64
b64encode [] = []
b64encode (a ∷ []) = digit64 (a / 4) ∷ digit64 (a % 4 * 16) ∷ equals ∷ equals ∷ []
b64encode (a ∷ b ∷ []) =
    digit64 (a / 4) ∷ digit64 (a % 4 * 16 + b / 16) ∷ digit64 (b % 16 * 4) ∷ equals ∷ []
b64encode (a ∷ b ∷ c ∷ rest) =
    digit64 (a / 4)
    ∷ digit64 (a % 4 * 16 + b / 16)
    ∷ digit64 (b % 16 * 4 + c / 64)
    ∷ digit64 (c % 64)
    ∷ b64encode rest

-- The byte that a character completes in its group of four, and the bits left over.
abbrev pub emitted : ℕ → ℕ → ℕ → List ℕ
emitted quad left v =
    if quad == 1
    then (left * 4 + v / 16) ∷ []
    else (if quad == 2
        then (left * 16 + v / 4) ∷ []
        else (if quad == 3 then (left * 64 + v) ∷ [] else []))

abbrev pub left_over : ℕ → ℕ → ℕ
left_over quad v =
    if quad == 0 then v else (if quad == 1 then v % 16 else (if quad == 2 then v % 4 else 0))

abbrev pub next_quad : ℕ → ℕ
next_quad quad = if quad == 3 then 0 else quad + 1

-- The scan of the library: the place in the group of four, the bits left over, the padding seen.
unfoldable pub scan : List ℕ → ℕ → ℕ → ℕ → Result (List ℕ)
scan [] quad left pads = if quad == 0 then ok [] else raise binascii_error
scan (c ∷ s) quad left pads = elim (c == equals) [
  | true ↦ elim (leb 2 quad && leb 4 (quad + (pads + 1))) [
    | true ↦ ok []
    | false ↦ scan s quad left (if leb 2 quad then pads + 1 else pads)
  ]
  | false ↦ elim (value64 c) [
    | none ↦ scan s quad left pads
    | some v ↦ do
      bytes ← scan s (next_quad quad) (left_over quad v) 0
      ok (emitted quad left v ++ bytes)
  ]
]

unfoldable pub is_ascii : List ℕ → Bool
is_ascii [] = true
is_ascii (c ∷ s) = ltb c 128 && is_ascii s

unfoldable pub b64decode : List ℕ → Result (List ℕ)
unfolding scan is_ascii value64
b64decode s = if is_ascii s then scan s 0 0 0 else raise value_error

abbrev pub IsByte : ℕ → Type 0
IsByte b = b < 256

digit64-ne-equals : (v : ℕ) → v < 64 → (digit64 v == equals) ≡ false
unfolding digit64
digit64-ne-equals v h = ground arith

value64-digit64 : (v : ℕ) → v < 64 → value64 (digit64 v) ≡ some v
unfolding digit64 value64
value64-digit64 v h = ground arith

-- One digit of the alphabet moves the scan on.
scan-digit64 :
    (v quad left pads : ℕ) (s : List ℕ)
    → v < 64
    → scan (digit64 v ∷ s) quad left pads ≡ (
        scan s (next_quad quad) (left_over quad v) 0 >>= λ bytes. ok (emitted quad left v ++ bytes))
unfolding scan
scan-digit64 v quad left pads s h = ground (arith, digit64-ne-equals v h, value64-digit64 v h)

-- The bytes of a group, put together again.
first_byte : (a b : ℕ) → b < 256 → a / 4 * 4 + (a % 4 * 16 + b / 16) / 16 ≡ a
first_byte a b h = omega arith

second_byte :
    (a b c : ℕ)
    → b < 256
    → c < 256
    → (a % 4 * 16 + b / 16) % 16 * 16 + (b % 16 * 4 + c / 64) / 4 ≡ b
second_byte a b c h g = omega arith

third_byte : (b c : ℕ) → c < 256 → (b % 16 * 4 + c / 64) % 4 * 64 + c % 64 ≡ c
third_byte b c h = omega arith

-- Padding that completes a group ends the scan.
scan_padding :
    (left : ℕ)
    → (scan (equals ∷ equals ∷ []) 2 left 0 ≡ ok []) × (scan (equals ∷ []) 3 left 0 ≡ ok [])
unfolding scan
scan_padding left = (refl, refl)

scan-b64encode : (bs : List ℕ) → All IsByte bs → scan (b64encode bs) 0 0 0 ≡ ok bs
unfolding b64encode
scan-b64encode [] h = unfold scan in refl
scan-b64encode (a ∷ []) h =
    rw
      (
        scan-digit64 (a / 4) 0 0 0 _ (omega arith),
        scan-digit64 (a % 4 * 16) 1 (a / 4) 0 _ (omega arith),
        (scan_padding (a % 4 * 16 % 16)).0,
      )
      (ap (λ (x : ℕ). ok (x ∷ [])) (omega arith))
scan-b64encode (a ∷ b ∷ []) h =
    rw
      (
        scan-digit64 (a / 4) 0 0 0 _ (omega arith),
        scan-digit64 (a % 4 * 16 + b / 16) 1 (a / 4) 0 _ (omega arith),
        scan-digit64 (b % 16 * 4) 2 ((a % 4 * 16 + b / 16) % 16) 0 _ (omega arith),
        (scan_padding (b % 16 * 4 % 4)).1,
      )
      (ap₂ (λ (x y : ℕ). ok (x ∷ y ∷ [])) (omega arith) (omega arith))
scan-b64encode (a ∷ b ∷ c ∷ rest) h =
    rw
      (
        scan-digit64 (a / 4) 0 0 0 _ (omega arith),
        scan-digit64 (a % 4 * 16 + b / 16) 1 (a / 4) 0 _ (omega arith),
        scan-digit64 (b % 16 * 4 + c / 64) 2 ((a % 4 * 16 + b / 16) % 16) 0 _ (omega arith),
        scan-digit64 (c % 64) 3 ((b % 16 * 4 + c / 64) % 4) 0 _ (omega arith),
        scan-b64encode rest h.1.1.1,
      )
      (cc (first_byte a b h.1.0, second_byte a b c h.1.0 h.1.1.0, third_byte b c h.1.1.0))

digit64-lt : (v : ℕ) → v < 64 → digit64 v < 128
unfolding digit64
digit64-lt v h = ground arith

is_ascii-cons : (c : ℕ) (s : List ℕ) → c < 128 → is_ascii (c ∷ s) ≡ is_ascii s
unfolding is_ascii
is_ascii-cons c s h = ground arith

pub is_ascii-b64encode : (bs : List ℕ) → All IsByte bs → is_ascii (b64encode bs) ≡ true
unfolding b64encode
is_ascii-b64encode [] h = unfold is_ascii in refl
is_ascii-b64encode (a ∷ []) h =
    rw
      (
        is_ascii-cons _ _ (digit64-lt (a / 4) (omega arith)),
        is_ascii-cons _ _ (digit64-lt (a % 4 * 16) (omega arith)),
      )
      (unfold is_ascii in refl)
is_ascii-b64encode (a ∷ b ∷ []) h =
    rw
      (
        is_ascii-cons _ _ (digit64-lt (a / 4) (omega arith)),
        is_ascii-cons _ _ (digit64-lt (a % 4 * 16 + b / 16) (omega arith)),
        is_ascii-cons _ _ (digit64-lt (b % 16 * 4) (omega arith)),
      )
      (unfold is_ascii in refl)
is_ascii-b64encode (a ∷ b ∷ c ∷ rest) h =
    rw
      (
        is_ascii-cons _ _ (digit64-lt (a / 4) (omega arith)),
        is_ascii-cons _ _ (digit64-lt (a % 4 * 16 + b / 16) (omega arith)),
        is_ascii-cons _ _ (digit64-lt (b % 16 * 4 + c / 64) (omega arith)),
        is_ascii-cons _ _ (digit64-lt (c % 64) (omega arith)),
      )
      (is_ascii-b64encode rest h.1.1.1)

-- Decoding gives back every list of bytes that was encoded.
pub b64decode-b64encode : (bs : List ℕ) → All IsByte bs → b64decode (b64encode bs) ≡ ok bs
unfolding b64decode
b64decode-b64encode bs h = rw (is_ascii-b64encode bs h, scan-b64encode bs h)

pub length-b64encode : (bs : List ℕ) → length (b64encode bs) % 4 ≡ 0
unfolding b64encode
length-b64encode [] = refl
length-b64encode (a ∷ []) = refl
length-b64encode (a ∷ b ∷ []) = refl
length-b64encode (a ∷ b ∷ c ∷ rest) = omega (arith, length-b64encode rest)
