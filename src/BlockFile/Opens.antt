-- ===== src/BlockFile/Opens.antt =====
-- flud/protocol/BlockFile.py: the file and the mode of a block file that is opened.
use flud.Prelude.{
  ℕ, ◌+◌, ◌≡◌, refl, subst, Bool, List, Result, ok, raise, ltb, length, take, drop, inl, inr,
  Bool-cases, ◌>>=◌,
}
use flud.Fencode.Values.{Value, bytes_value}
use flud.Fencode.Decode.{fdecode, depth}
use flud.BlockFile.{BlockFile, open_file, false}
use flud.BlockFile.Bytes.{unpack}

abbrev pub Opens : List ℕ → Bool → Result BlockFile → Type 0
Opens file w (ok b) = (b.file ≡ file) × (b.writable ≡ w)
Opens file w (raise e) = Unit

open_file-Opens : (crc : Value → ℕ) (file : List ℕ) (w : Bool) → Opens file w (open_file crc file w)
unfolding open_file
open_file-Opens crc file w = elim (Bool-cases (ltb (length file) 8)) [
  | inl short ↦ rw (open_file, short) tt
  | inr long ↦
      rw (open_file, long)
        (go (fdecode (depth 1) (bytes_value (drop (8 + unpack (take 8 file)) file))))
]
  where
    go :
        (r : Result Value)
        → Opens file w (
            r >>= λ accounting. ok (record {
              file = file;
              place = 8;
              size = unpack (take 8 file);
              dataend = 8 + unpack (take 8 file);
              accounting = accounting;
              accountingcrc = crc accounting;
              changed = false;
              closed = false;
              writable = w;
            }))
    go (raise e) = tt
    go (ok a) = (refl, refl)

pub opens :
    (crc : Value → ℕ) (file : List ℕ) (w : Bool) (b : BlockFile)
    → open_file crc file w ≡ ok b
    → (b.file ≡ file) × (b.writable ≡ w)
opens crc file w b h = subst (Opens file w) h (open_file-Opens crc file w)
