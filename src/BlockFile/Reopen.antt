-- ===== src/BlockFile/Reopen.antt =====
-- flud/protocol/BlockFile.py: what `close` leaves, and how the file is opened again.
use flud.Prelude.{
  ℕ, ◌+◌, ◌-◌, ◌^◌, ◌<◌, ◌≡◌, refl, ap, sym, ◌∙◌, Bool, true, false, not, List, [], ◌∷◌, ◌++◌,
  arith, length, length-append, take, drop, ok, ◌&&◌, ◌||◌, ltb, ◌>>=◌, ◌==◌, append_assoc,
}
use flud.Fencode.Utf8.{utf8_encode, utf8_decode-utf8_encode}
use flud.Fencode.Values.{Value, IsGood, plain, bytes_value}
use flud.Fencode.Encode.{fencode}
use flud.Fencode.Decode.{fdecode, fdecode_text, depth}
use flud.Fencode.RoundTrip.{fdecode-fencode}
use flud.Fencode.Alphabet.{IsChar-fencode}
use flud.BlockFile.{BlockFile, open_file, close}
use flud.BlockFile.Bytes.{pack, unpack, overwrite, length-pack, unpack-pack}
use flud.BlockFile.Overwrite.{overlay-nil}
use flud.BlockFile.Data.{Holds, written, take-append, drop-append_behind, take_all}

-- The accounting is read back from its bytes.
fdecode-bytes :
    (v : Value) (text bytes : List ℕ)
    → IsGood v
    → fencode false v ≡ ok text
    → utf8_encode text ≡ ok bytes
    → fdecode (depth 1) (bytes_value bytes) ≡ ok (plain v)
unfolding fdecode
fdecode-bytes v text bytes g e u =
    let back = utf8_decode-utf8_encode text bytes (IsChar-fencode false v text g e) u in
    ap (λ m. m >>= fdecode_text (depth 1)) back ∙ fdecode-fencode v text g e

overwrite-end : (xs bs : List ℕ) → overwrite (length xs) bs xs ≡ xs ++ bs
unfolding overwrite
overwrite-end [] bs = overlay-nil bs
overwrite-end (x ∷ xs) bs = ap (◌∷◌ x) (overwrite-end xs bs)

-- The file that `close` leaves: its header, the data and the accounting, and nothing behind it.
abbrev pub saved : List ℕ → List ℕ → List ℕ
saved body bytes = pack 8 (length body) ++ (body ++ bytes)

length-saved : (body bytes : List ℕ) → length (saved body bytes) ≡ 8 + length body + length bytes
length-saved body bytes = omega (
  arith,
  length-append (pack 8 (length body)) (body ++ bytes),
  length-append body bytes,
  length-pack 8 (length body),
)

close-saved :
    (crc : Value → ℕ) (b : BlockFile) (body text bytes : List ℕ)
    → Holds b body
    → b.closed ≡ false
    → b.writable ≡ true
    → b.changed ≡ true
    → fencode false b.accounting ≡ ok text
    → utf8_encode text ≡ ok bytes
    → close crc b ≡ ok (record b { file = saved body bytes; closed = true })
unfolding close
close-saved crc b body text bytes h c w x e u =
    let header = pack 8 (length body) in
    let rest' = drop (length body + length bytes - length body) h.rest in
    let size = length-saved body bytes in
    let over : overwrite b.dataend bytes b.file ≡ header ++ ((body ++ bytes) ++ rest') =
      ap (overwrite b.dataend bytes) h.whole
      ∙ written header body h.rest bytes b.dataend (length body) (length-pack 8 (length body))
          h.dataend (omega arith)
      ∙ ap (λ l. header ++ (l ++ rest')) (overwrite-end body bytes) in
    let cut : take (b.dataend + length bytes) (header ++ ((body ++ bytes) ++ rest'))
        ≡ saved body bytes =
      ap (take (b.dataend + length bytes)) (sym (append_assoc header (body ++ bytes) rest'))
      ∙ take-append (saved body bytes) rest' (b.dataend + length bytes)
          (omega (arith, size, h.dataend))
      ∙ take_all (saved body bytes) (b.dataend + length bytes) (omega (arith, size, h.dataend)) in
    let needed : (not b.closed
          && (b.writable && (b.changed || not (crc b.accounting == b.accountingcrc))))
        ≡ true =
      rw (c, w, x) in
    rw (needed, e, u)
      (ap (λ f. ok (record b { file = f; closed = true }))
        (ap (take (b.dataend + length bytes)) over ∙ cut))

-- A saved file is opened with its data and its accounting.
pub open-saved :
    (crc : Value → ℕ) (v : Value) (body text bytes : List ℕ) (writable : Bool)
    → length body < 2 ^ 64
    → IsGood v
    → fencode false v ≡ ok text
    → utf8_encode text ≡ ok bytes
    → (b : BlockFile) × (open_file crc (saved body bytes) writable ≡ ok b)
      × Holds b body
      × (b.accounting ≡ plain v)
      × (b.place ≡ 8)
unfolding open_file
open-saved crc v body text bytes writable small g e u =
    let header = pack 8 (length body) in
    let eight = length-pack 8 (length body) in
    let long : ltb (length (saved body bytes)) 8 ≡ false =
      ground (arith, length-saved body bytes) in
    let front : take 8 (saved body bytes) ≡ header =
      take-append header (body ++ bytes) 8 (omega (arith, eight))
      ∙ take_all header 8 (omega (arith, eight)) in
    let size : unpack (take 8 (saved body bytes)) ≡ length body =
      ap unpack front ∙ unpack-pack 8 (length body) (omega arith) in
    let behind : drop (8 + length body) (saved body bytes) ≡ bytes =
      ap (λ n. drop n (saved body bytes)) (omega (arith, eight))
      ∙ drop-append_behind header (body ++ bytes) (length body)
      ∙ ap (λ n. drop n (body ++ bytes)) (omega arith)
      ∙ drop-append_behind body bytes 0 in
    let read =
      ap (λ l. fdecode (depth 1) (bytes_value l)) behind ∙ fdecode-bytes v text bytes g e u in
    (
      record {
        file = saved body bytes;
        place = 8;
        size = length body;
        dataend = 8 + length body;
        accounting = plain v;
        accountingcrc = crc (plain v);
        changed = false;
        closed = false;
        writable = writable;
      },
      rw (long, size, read),
      record {
        rest = bytes;
        whole = refl;
        size = refl;
        dataend = refl;
        low = omega arith;
        high = omega arith;
      },
      refl,
      refl,
    )

-- `close` of an open, writable block file that holds `body` and was written to, where the
-- accounting is a Python value that `fencode` encodes, as `text`, with `bytes` as its UTF-8, and
-- the length of the data is below 2 ^ 64: it does not raise, and opening the file that it leaves
-- does not raise either and gives a block file at the start of the same data with the same
-- accounting, bools in it as their numbers.
pub close-open :
    (crc : Value → ℕ) (b : BlockFile) (body text bytes : List ℕ) (writable : Bool)
    → Holds b body
    → length body < 2 ^ 64
    → b.closed ≡ false
    → b.writable ≡ true
    → b.changed ≡ true
    → IsGood b.accounting
    → fencode false b.accounting ≡ ok text
    → utf8_encode text ≡ ok bytes
    → (b' : BlockFile) × (close crc b ≡ ok b')
      × (b'.closed ≡ true)
      × ((b'' : BlockFile) × (open_file crc b'.file writable ≡ ok b'')
          × Holds b'' body
          × (b''.accounting ≡ plain b.accounting)
          × (b''.place ≡ 8))
close-open crc b body text bytes writable h small c w x g e u = (
  record b { file = saved body bytes; closed = true },
  close-saved crc b body text bytes h c w x e u,
  refl,
  open-saved crc b.accounting body text bytes writable small g e u,
)
