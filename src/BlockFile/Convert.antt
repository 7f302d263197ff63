-- ===== src/BlockFile/Convert.antt =====
-- flud/protocol/BlockFile.py: what `convert` makes of a file, and what `delNode` leaves of its owners.
use flud.Prelude.{ℕ, ◌<◌, ◌^◌, ◌≡◌, refl, Bool, Option, List, ok, length}
use flud.Fencode.Utf8.{utf8_encode}
use flud.Fencode.Values.{Value, Entries, IsGood, plain, dict_value}
use flud.Fencode.Encode.{fencode}
use flud.BlockFile.{BlockFile, open_file, convert, first_accounting, false}
use flud.BlockFile.Bytes.{pack_u64_fits}
use flud.BlockFile.Data.{Holds}
use flud.BlockFile.Reopen.{saved, open-saved}

convert-saved :
    (body text bytes : List ℕ) (owner : Option (Value × Value)) (l : Entries)
    → length body < 2 ^ 64
    → first_accounting owner ≡ ok l
    → fencode false (dict_value l) ≡ ok text
    → utf8_encode text ≡ ok bytes
    → convert body owner ≡ ok (saved body bytes)
unfolding convert
convert-saved body text bytes owner l small first e u =
    rw (convert, pack_u64_fits (length body) small, first, e, u) refl

-- `convert` of a file of less than 2 ^ 64 bytes, where the accounting that it starts with is a
-- Python value that `fencode` encodes, as `text`, with `bytes` as its UTF-8: it does not raise,
-- and opening the file that it leaves does not raise either and gives a block file at the start
-- of the old file's bytes, with that accounting, bools in it as their numbers.
pub convert-open :
    (crc : Value → ℕ) (body text bytes : List ℕ) (owner : Option (Value × Value)) (l : Entries)
    (writable : Bool)
    → length body < 2 ^ 64
    → first_accounting owner ≡ ok l
    → IsGood (dict_value l)
    → fencode false (dict_value l) ≡ ok text
    → utf8_encode text ≡ ok bytes
    → (file : List ℕ) × (convert body owner ≡ ok file)
      × ((b : BlockFile) × (open_file crc file writable ≡ ok b)
          × Holds b body
          × (b.accounting ≡ plain (dict_value l))
          × (b.place ≡ 8))
convert-open crc body text bytes owner l writable small first g e u = (
  saved body bytes,
  convert-saved body text bytes owner l small first e u,
  open-saved crc (dict_value l) body text bytes writable small g e u,
)
