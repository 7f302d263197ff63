-- ===== src/Fencode/Integers.antt =====
-- flud/fencode.py: the bytes of an integer, through its hexadecimal digits as `fencode` makes them.
use native.Mathlib.Nat.{pow-suc}
use flud.Prelude.{
  ℕ, zero, suc, ◌+◌, ◌-◌, ◌*◌, ◌/◌, ◌%◌, ◌≤◌, ◌<◌, ◌≡◌, refl, ap, true, false, List, [], ◌∷◌, arith,
  ltb, ◌==◌, if◌then◌else◌, length, All, inl, inr, ◌⊎◌, ◌^◌, Bool-cases, ◌∙◌,
}
use flud.Fencode.Base64.{IsByte}

-- `f"{n:x}"` as the values of its digits, by rounds; `acc` holds the digits after those of `n`.
unfoldable pub hex_loop : ℕ → ℕ → List ℕ → List ℕ
hex_loop zero n acc = acc
hex_loop (suc f) n acc = elim (ltb n 16) [
  | true ↦ n ∷ acc
  | false ↦ hex_loop f (n / 16) ((n % 16) ∷ acc)
]

-- As many rounds as the number, and one more, are enough.
unfoldable pub hex : ℕ → List ℕ
unfolding hex_loop
hex n = hex_loop (suc n) n []

-- A leading zero, where the length is odd.
unfoldable pub even_pad : List ℕ → List ℕ
even_pad ds = if length ds % 2 == 0 then ds else 0 ∷ ds

-- `bytes.fromhex` on the values of the digits
unfoldable pub from_hex : List ℕ → List ℕ
from_hex [] = []
from_hex (a ∷ []) = []
from_hex (a ∷ b ∷ ds) = (a * 16 + b) ∷ from_hex ds

-- `int.from_bytes(val, 'big')` and the same for digits, from a number in front.
unfoldable pub from_bytes : ℕ → List ℕ → ℕ
from_bytes a [] = a
from_bytes a (b ∷ bs) = from_bytes (a * 256 + b) bs

from_digits : ℕ → List ℕ → ℕ
from_digits a [] = a
from_digits a (d ∷ ds) = from_digits (a * 16 + d) ds

-- `val` of an integer with absolute value `n`: an even number of bytes
unfoldable pub int_bytes : ℕ → List ℕ
unfolding hex even_pad from_hex
int_bytes n = even_pad (from_hex (even_pad (hex n)))

-- The two cases of a round.
hex_loop-cases :
    (f n : ℕ) (acc : List ℕ)
    → ((n < 16) × (hex_loop (suc f) n acc ≡ n ∷ acc))
      ⊎ ((16 ≤ n) × (hex_loop (suc f) n acc ≡ hex_loop f (n / 16) ((n % 16) ∷ acc)))
unfolding hex_loop
hex_loop-cases f n acc = elim (Bool-cases (ltb n 16)) [
  | inl small ↦ inl (ground arith, rw (small, hex_loop))
  | inr big ↦ inr (ground arith, rw (big, hex_loop))
]

hex_loop-digits :
    (f n : ℕ) (acc : List ℕ) → n < f → from_digits 0 (hex_loop f n acc) ≡ from_digits n acc
unfolding from_digits
hex_loop-digits zero n acc h = absurd (omega arith)
hex_loop-digits (suc f) n acc h = elim (hex_loop-cases f n acc) [
  | inl (small, e) ↦ rw e (ap (λ m. from_digits m acc) (omega arith))
  | inr (big, e) ↦ rw e (
      hex_loop-digits f (n / 16) ((n % 16) ∷ acc) (omega arith)
      ∙ ap (λ m. from_digits m acc) (omega arith))
]

abbrev IsDigit : ℕ → Type 0
IsDigit d = d < 16

hex_loop-IsDigit : (f n : ℕ) (acc : List ℕ) → All IsDigit acc → All IsDigit (hex_loop f n acc)
hex_loop-IsDigit zero n acc h = unfold hex_loop in h
hex_loop-IsDigit (suc f) n acc h = elim (hex_loop-cases f n acc) [
  | inl (small, e) ↦ rw e (small, h)
  | inr (big, e) ↦ rw e (hex_loop-IsDigit f (n / 16) ((n % 16) ∷ acc) (omega arith, h))
]

from_bytes-from_hex :
    (a k : ℕ) (ds : List ℕ) → length ds ≡ 2 * k → from_bytes a (from_hex ds) ≡ from_digits a ds
unfolding from_bytes from_hex from_digits
from_bytes-from_hex a k [] h = refl
from_bytes-from_hex a k (d ∷ []) h = absurd (omega arith)
from_bytes-from_hex a k (d ∷ e ∷ ds) h =
    from_bytes-from_hex (a * 256 + (d * 16 + e)) (k - 1) ds (omega arith)
    ∙ ap (λ m. from_digits m ds) (omega arith)

IsByte-from_hex : (ds : List ℕ) → All IsDigit ds → All IsByte (from_hex ds)
unfolding from_hex
IsByte-from_hex [] h = tt
IsByte-from_hex (a ∷ []) h = tt
IsByte-from_hex (a ∷ b ∷ ds) h = (omega arith, IsByte-from_hex ds h.1.1)

even_pad-cases :
    (ds : List ℕ)
    → ((even_pad ds ≡ ds) × (length ds % 2 ≡ 0)) ⊎ ((even_pad ds ≡ 0 ∷ ds) × (length ds % 2 ≡ 1))
unfolding even_pad
even_pad-cases ds = ground arith

-- A number below a power of 16 has at most that many digits.
length-hex_loop :
    (k f n : ℕ) (acc : List ℕ)
    → n < 16 ^ suc k
    → n < f
    → (length (hex_loop f n acc) ≤ suc k + length acc)
      × (suc (length acc) ≤ length (hex_loop f n acc))
length-hex_loop k zero n acc h g = absurd (omega arith)
length-hex_loop zero (suc f) n acc h g = elim (hex_loop-cases f n acc) [
  | inl (small, e) ↦ rw e (omega arith)
  | inr (big, e) ↦ absurd (omega arith)
]
length-hex_loop (suc k) (suc f) n acc h g = elim (hex_loop-cases f n acc) [
  | inl (small, e) ↦ rw e (omega arith)
  | inr (big, e) ↦ rw e (
      omega (
        arith,
        length-hex_loop k f (n / 16) ((n % 16) ∷ acc) (omega (arith, pow-suc 16 (suc k)))
            (omega arith),
      ))
]

from_digits-even_pad : (ds : List ℕ) → from_digits 0 (even_pad ds) ≡ from_digits 0 ds
unfolding from_digits
from_digits-even_pad ds = elim (even_pad-cases ds) [ inl (e, even) ↦ rw e | inr (e, odd) ↦ rw e ]

from_bytes-even_pad : (bs : List ℕ) → from_bytes 0 (even_pad bs) ≡ from_bytes 0 bs
unfolding from_bytes
from_bytes-even_pad bs = elim (even_pad-cases bs) [ inl (e, even) ↦ rw e | inr (e, odd) ↦ rw e ]

length-even_pad : (ds : List ℕ) → length (even_pad ds) ≡ 2 * (length (even_pad ds) / 2)
length-even_pad ds = elim (even_pad-cases ds) [
  | inl (e, even) ↦ rw e (omega arith)
  | inr (e, odd) ↦ rw e (omega arith)
]

All-even_pad : (P : ℕ → Type 0) → (ds : List ℕ) → P 0 → All P ds → All P (even_pad ds)
All-even_pad P ds z h = elim (even_pad-cases ds) [
  | inl (e, even) ↦ rw e h
  | inr (e, odd) ↦ rw e (z, h)
]

-- The bytes of an integer read back as it, and are bytes.
pub from_bytes-int_bytes : (n : ℕ) → from_bytes 0 (int_bytes n) ≡ n
unfolding int_bytes from_digits
from_bytes-int_bytes n =
    from_bytes-even_pad (from_hex (even_pad (hex n)))
    ∙ from_bytes-from_hex 0 (length (even_pad (hex n)) / 2) (even_pad (hex n))
        (length-even_pad (hex n))
    ∙ from_digits-even_pad (hex n)
    ∙ hex_loop-digits (suc n) n [] (omega arith)

pub IsByte-int_bytes : (n : ℕ) → All IsByte (int_bytes n)
unfolding int_bytes
IsByte-int_bytes n = All-even_pad IsByte (from_hex (even_pad (hex n))) (omega arith) (
    IsByte-from_hex (even_pad (hex n))
      (All-even_pad IsDigit (hex n) (omega arith) (hex_loop-IsDigit (suc n) n [] tt)))

bytes_two :
    (ds : List ℕ)
    → suc 0 ≤ length ds
    → length ds ≤ 4
    → (a : ℕ) × (b : ℕ) × (even_pad (from_hex (even_pad ds)) ≡ a ∷ b ∷ [])
unfolding even_pad from_hex
bytes_two [] h g = absurd (omega arith)
bytes_two (a ∷ []) h g = (0, 0 * 16 + a, refl)
bytes_two (a ∷ b ∷ []) h g = (0, a * 16 + b, refl)
bytes_two (a ∷ b ∷ c ∷ []) h g = (0 * 16 + a, b * 16 + c, refl)
bytes_two (a ∷ b ∷ c ∷ d ∷ []) h g = (a * 16 + b, c * 16 + d, refl)
bytes_two (a ∷ b ∷ c ∷ d ∷ e ∷ ds) h g = absurd (omega arith)

-- A length that fits in two bytes is written with exactly two.
pub int_bytes_two : (n : ℕ) → n < 65536 → (a : ℕ) × (b : ℕ) × (int_bytes n ≡ a ∷ b ∷ [])
unfolding int_bytes
int_bytes_two n h =
    let digits = length-hex_loop 3 (suc n) n [] (omega arith) (omega arith) in
    bytes_two (hex n) digits.1 digits.0
