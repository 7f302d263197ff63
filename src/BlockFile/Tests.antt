-- ===== src/BlockFile/Tests.antt =====
-- flud/protocol/BlockFile.py: a concrete block file, and the theorems on it.
use flud.Fencode.Integers.{int_bytes}
use flud.Fencode.Base64.{b64encode}
use flud.Fencode.Encode.{fencode, make_len}
use flud.BlockFile.Reopen.{close-open}
use flud.Prelude.{◌≡◌, refl, ok, true, false, [], ◌∷◌, arith}
use flud.Prelude.Int.{pos}
use flud.Fencode.Values.{
  dict_value, end, IsGood, plain, hashable, same_key, entry, int_value, none_value,
}
use flud.BlockFile.{BlockFile, write, open_file, close, Value, List, ℕ}
use flud.BlockFile.Bytes.{pack, overwrite}
use flud.Fencode.Decode.{fdecode, decode_loop}
use flud.Fencode.Utf8.{utf8_decode, utf8_encode, surrogate, utf8_bytes}
use flud.BlockFile.Data.{Holds, write-Holds}

-- Three bytes of data, behind them an empty accounting, with the place at the second byte.
abbrev block : BlockFile
block = record {
  file = 3 ∷ 0 ∷ 0 ∷ 0 ∷ 0 ∷ 0 ∷ 0 ∷ 0 ∷ 1 ∷ 2 ∷ 3 ∷ b'd' ∷ [];
  place = 9;
  size = 3;
  dataend = 11;
  accounting = dict_value end;
  accountingcrc = 0;
  changed = false;
  closed = false;
  writable = true;
}

block-Holds : Holds block (1 ∷ 2 ∷ 3 ∷ [])
unfolding pack
block-Holds = record {
  rest = b'd' ∷ [];
  whole = refl;
  size = refl;
  dataend = refl;
  low = omega arith;
  high = omega arith;
}

write-Holds_example :
    (b' : BlockFile) × (write block (7 ∷ 8 ∷ 9 ∷ []) ≡ ok b')
    × Holds b' (1 ∷ 7 ∷ 8 ∷ 9 ∷ [])
    × (b'.place ≡ 12)
    × (b'.changed ≡ true)
    × (b'.accounting ≡ block.accounting)
unfolding overwrite
write-Holds_example =
    write-Holds block (1 ∷ 2 ∷ 3 ∷ []) (7 ∷ 8 ∷ 9 ∷ []) block-Holds refl (omega arith)

-- A file that was written by hand: the size, the data, and an empty accounting.
opened :
    open_file (λ v. 0) (1 ∷ 0 ∷ 0 ∷ 0 ∷ 0 ∷ 0 ∷ 0 ∷ 0 ∷ 5 ∷ b'd' ∷ []) true
    ≡ ok (record {
      file = 1 ∷ 0 ∷ 0 ∷ 0 ∷ 0 ∷ 0 ∷ 0 ∷ 0 ∷ 5 ∷ b'd' ∷ [];
      place = 8;
      size = 1;
      dataend = 9;
      accounting = dict_value end;
      accountingcrc = 0;
      changed = false;
      closed = false;
      writable = true;
    })
unfolding open_file fdecode decode_loop utf8_decode
opened = refl

-- The accounting `{7: None}` and its text.
abbrev owned : Value
owned = dict_value (entry (int_value (pos 7)) none_value end)

abbrev owned_text : List ℕ
owned_text =
    b'd' ∷ b'o' ∷ b'A' ∷ b'A' ∷ b'Q' ∷ b'A' ∷ b'A' ∷ b'c' ∷ b'=' ∷ b'n' ∷ b'A' ∷ b'A' ∷ b'E' ∷ b'0'
    ∷ []

abbrev dirty : BlockFile
dirty = record block { accounting = owned; changed = true }

dirty-Holds : Holds dirty (1 ∷ 2 ∷ 3 ∷ [])
unfolding pack
dirty-Holds = record {
  rest = b'd' ∷ [];
  whole = refl;
  size = refl;
  dataend = refl;
  low = omega arith;
  high = omega arith;
}

owned-IsGood : IsGood owned
unfolding IsGood plain hashable same_key
owned-IsGood = ground arith

owned_encoded : fencode false owned ≡ ok owned_text
unfolding fencode make_len b64encode int_bytes
owned_encoded = refl

owned_bytes : utf8_encode owned_text ≡ ok owned_text
unfolding utf8_encode surrogate utf8_bytes
owned_bytes = refl

close-open_example :
    (b' : BlockFile) × (close (λ v. 0) dirty ≡ ok b')
    × (b'.closed ≡ true)
    × ((b'' : BlockFile) × (open_file (λ v. 0) b'.file true ≡ ok b'')
        × Holds b'' (1 ∷ 2 ∷ 3 ∷ [])
        × (b''.accounting ≡ plain owned)
        × (b''.place ≡ 8))
close-open_example =
    close-open (λ v. 0) dirty (1 ∷ 2 ∷ 3 ∷ []) owned_text owned_text true dirty-Holds (omega arith)
      refl refl refl owned-IsGood owned_encoded owned_bytes
