-- ===== src/BlockFile.antt =====
-- flud/protocol/BlockFile.py: a block's data with the accounting of its owners, in one file. The file
-- is the list of its bytes; the modes are `rb` and, with `writable`, `rb+`.
pub mod Bytes
pub mod Accounting
pub mod Overwrite
pub mod Data
pub mod Reopen
pub mod Convert
pub mod Opens
mod Tests
use flud.Prelude.{
  ℕ, ◌+◌, ◌-◌, ◌<◌, Bool, true, false, ◌&&◌, ◌||◌, not, Option, none, some, List, [], ◌∷◌, ◌++◌,
  Result, ok, raise, io_error, struct_error, ltb, leb, ◌==◌, length, take, drop, ◌>>=◌,
  if◌then◌else◌,
}
use flud.Prelude.Int.{ℤ, pos, negsuc}
use flud.Fencode.Utf8.{utf8_encode}
use flud.Fencode.Values.{Value, bytes_value, dict_value, Entries, end}
use flud.Fencode.Encode.{fencode}
use flud.Fencode.Decode.{fdecode, depth, set_item}
use flud.BlockFile.Bytes.{pack_u64, unpack, overwrite}
use flud.BlockFile.Accounting.{put_node, drop_node}

-- `file` and `place` are the underlying file and its position.
pub record BlockFile : Type 0 where
  pub file : List ℕ
  pub place : ℕ
  pub size : ℕ
  pub dataend : ℕ
  pub accounting : Value
  pub accountingcrc : ℕ
  pub changed : Bool
  pub closed : Bool
  pub writable : Bool

-- `crc` is the CRC-32 of the accounting's `repr`.
module _ (crc : Value → ℕ) where
  unfoldable pub open_file : List ℕ → Bool → Result BlockFile
  unfolding unpack
  open_file file writable = if ltb (length file) 8 then raise struct_error else (do
    let size = unpack (take 8 file)
    let dataend = 8 + size
    accounting ← fdecode (depth 1) (bytes_value (drop dataend file))
    ok (record {
      file = file;
      place = 8;
      size = size;
      dataend = dataend;
      accounting = accounting;
      accountingcrc = crc accounting;
      changed = false;
      closed = false;
      writable = writable;
    }))

  -- The accounting goes behind the data, and the file ends there.
  unfoldable pub close : BlockFile → Result BlockFile
  unfolding overwrite
  close b =
      if not b.closed && (b.writable && (b.changed || not (crc b.accounting == b.accountingcrc)))
      then (do
        text ← fencode false b.accounting
        bytes ← utf8_encode text
        ok (record b {
          file = take (b.dataend + length bytes) (overwrite b.dataend bytes b.file);
          closed = true;
        }))
      else ok (record b { closed = true })

-- `self._file.read(len)` of the underlying file
unfoldable pub read_file : BlockFile → ℕ → BlockFile × List ℕ
read_file b len =
    let bytes = take len (drop b.place b.file) in
    (record b { place = b.place + length bytes }, bytes)

-- A length below zero makes the underlying file read to its end; only a place past the data gives it.
unfoldable pub read : BlockFile → Option ℤ → BlockFile × List ℕ
unfolding read_file
read b none =
    if leb b.place b.dataend then read_file b (b.dataend - b.place) else read_file b (length b.file)
read b (some (negsuc n)) = (b, [])
read b (some (pos n)) =
    let len = if ltb b.dataend (b.place + n) then b.dataend - b.place else n in
    if len == 0 then (b, []) else read_file b len

unfoldable pub seek : BlockFile → ℤ → BlockFile
seek b (negsuc n) = record b { place = 8 }
seek b (pos n) = record b { place = 8 + (if ltb (b.dataend - 8) n then b.dataend - 8 else n) }

unfoldable pub tell : BlockFile → ℕ
tell b = b.place - 8

-- The underlying file raises where it is not open for writing.
unfoldable pub write : BlockFile → List ℕ → Result BlockFile
unfolding overwrite pack_u64
write b bytes =
    if not b.writable
    then raise io_error
    else (let end = b.place + length bytes in
        let file = overwrite b.place bytes b.file in
        if ltb b.dataend end
        then (do
          header ← pack_u64 (b.size + (end - b.dataend))
          ok (record b {
            file = overwrite 0 header file;
            place = end;
            dataend = end;
            size = b.size + (end - b.dataend);
            changed = true;
          }))
        else ok (record b { file = file; place = end; changed = true }))

unfoldable pub add_node : BlockFile → Value → Value → Result BlockFile
unfolding put_node
add_node b node_id meta = if not b.writable then raise io_error else (do
  accounting ← put_node node_id meta b.accounting
  ok (record b { accounting = accounting }))

unfoldable pub del_node : BlockFile → Value → Value → Result BlockFile
unfolding drop_node
del_node b node_id metakey = if not b.writable then raise io_error else (do
  accounting ← drop_node node_id metakey b.accounting
  ok (record b { accounting = accounting }))

-- The accounting that `convert` starts with.
unfoldable pub first_accounting : Option (Value × Value) → Result Entries
unfolding set_item
first_accounting none = ok end
first_accounting (some (node_id, dict_value meta)) = set_item node_id (dict_value meta) end
first_accounting (some (node_id, _)) = raise io_error

-- `convert`: the bytes that replace the file. Where it raises, the file stays as it was.
unfoldable pub convert : List ℕ → Option (Value × Value) → Result (List ℕ)
unfolding pack_u64 first_accounting
convert file owner = do
  header ← pack_u64 (length file)
  l ← first_accounting owner
  text ← fencode false (dict_value l)
  bytes ← utf8_encode text
  ok (header ++ (file ++ bytes))
