-- ===== src/BlockFile/Bytes.antt =====
-- flud/protocol/BlockFile.py: `struct.pack("=Q", …)` and its inverse on a little-endian machine, and
-- the write of an underlying file at a place.
use flud.Prelude.{
  ℕ, zero, suc, ◌+◌, ◌*◌, ◌/◌, ◌%◌, ◌^◌, ◌<◌, ◌≡◌, refl, ap, true, List, [], ◌∷◌, arith, Result, ok,
  raise, struct_error, ltb, length, if◌then◌else◌,
}
use native.Mathlib.Nat.{pow-suc}

unfoldable pub pack : ℕ → ℕ → List ℕ
pack zero n = []
pack (suc w) n = (n % 256) ∷ pack w (n / 256)

unfoldable pub pack_u64 : ℕ → Result (List ℕ)
unfolding pack
pack_u64 n = if ltb n (2 ^ 64) then ok (pack 8 n) else raise struct_error

unfoldable pub unpack : List ℕ → ℕ
unpack [] = 0
unpack (b ∷ bs) = b + 256 * unpack bs

-- Bytes over the front of a file: it grows where they go past its end.
unfoldable pub overlay : List ℕ → List ℕ → List ℕ
overlay [] bs = bs
overlay (d ∷ ds) [] = d ∷ overlay ds []
overlay (d ∷ ds) (b ∷ bs) = d ∷ overlay ds bs

-- Past the end of the file the gap is filled with zeros, unless nothing is written.
unfoldable pub overwrite : ℕ → List ℕ → List ℕ → List ℕ
unfolding overlay
overwrite zero ds bs = overlay ds bs
overwrite (suc p) [] [] = []
overwrite (suc p) (d ∷ ds) [] = 0 ∷ overwrite p (d ∷ ds) []
overwrite (suc p) ds (b ∷ bs) = b ∷ overwrite p ds bs

pub length-pack : (w n : ℕ) → length (pack w n) ≡ w
unfolding pack
length-pack zero n = refl
length-pack (suc w) n = ap suc (length-pack w (n / 256))

-- A number that fits in `w` bytes is read back from them.
pub unpack-pack : (w n : ℕ) → n < 256 ^ w → unpack (pack w n) ≡ n
unfolding unpack pack
unpack-pack zero n h = omega arith
unpack-pack (suc w) n h =
    omega (arith, pow-suc 256 w, unpack-pack w (n / 256) (omega (arith, pow-suc 256 w)))

pub pack_u64_fits : (n : ℕ) → n < 2 ^ 64 → pack_u64 n ≡ ok (pack 8 n)
unfolding pack_u64
pack_u64_fits n h = let fits : ltb n (2 ^ 64) ≡ true = ground arith in rw fits
