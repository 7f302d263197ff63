-- ===== src/Server/FileTests.antt =====
-- flud/protocol/AiohttpServer.py: the requests for files on concrete files.
use flud.Prelude.{
  ℕ, zero, suc, ◌<◌, ◌≤◌, ◌^◌, ◌≡◌, refl, ap, ok, some, List, [], ◌∷◌, replicate, length, arith,
  get, remove, false, Result, raise, value_error, take, drop,
}
use flud.Prelude.Int.{pos, ℤ}
use flud.Fencode.Values.{int_value, dict_value, text_eq, same_text, IsGood, hashable}
use flud.Fencode.Base64.{b64encode}
use flud.Fencode.Integers.{int_bytes}
use flud.Fencode.Encode.{fencode, make_len}
use flud.Fencode.Utf8.{utf8_encode, surrogate, utf8_bytes}
use flud.Peers.Sample.{id_of, peers, me}
use flud.Tarball.{Member, ends_with}
use flud.Server.Auth.{Server}
use flud.Server.Meta.{Tools}
use flud.Server.Files.{Disk, FileTools, Call, tarballs, file_answer, done, file_member, digest}
use flud.Server.Retrieve.{handle_file_get}
use flud.Server.Store.{Form, stored, store, handle_file_post}
use flud.Server.Probe.{VerifyTools}
use flud.Server.Verify.{verify_file, handle_hash_get}
use flud.Server.Delete.{delete, handle_file_delete}
use flud.Server.Blocks.{one_owner}
use flud.Server.Verified.{probe_at, verify-store}
use flud.Server.Removed.{delete-store}
use flud.Server.Gate.{Guarded, requests-Guarded}
use flud.Server.Loss.{delete-removed}

-- A tarball reads as one member, and every file has the hash 5.
abbrev member : Member
member = file_member (b'm' ∷ []) (7 ∷ [])

abbrev files : FileTools
files = record {
  open_tar = λ gzipped bytes. some (member ∷ []);
  pack_tar = λ gzipped ms. [];
  hash = λ bytes. 5;
  read_hex = λ text. ok 16;
  str = λ v. [];
  crc = λ v. 0;
}

abbrev filekey : List ℕ
filekey = b'o' ∷ b'A' ∷ b'A' ∷ b'U' ∷ b'=' ∷ []

key_right : fencode false (int_value (pos 5)) ≡ ok filekey
unfolding fencode b64encode int_bytes
key_right = refl

abbrev payload : List ℕ
payload = replicate 8192 0

length-replicate : (n a : ℕ) → length (replicate n a) ≡ n
length-replicate zero a = refl
length-replicate (suc n) a = ap suc (length-replicate n a)

big : 8192 ≤ length payload
big = omega (arith, length-replicate 8192 0)

small : length payload < 2 ^ 64
small = omega (arith, length-replicate 8192 0)

-- The key and the bytes of the metadata.
abbrev mk : List ℕ
mk = b'1' ∷ []

abbrev mb : List ℕ
mb = 9 ∷ []

abbrev form : Form
form = record { args = []; filename = some payload; metakey = some mk; meta = some mb }

good : IsGood (dict_value (one_owner 16 mk mb))
unfolding IsGood hashable
good = (refl, tt, tt, (refl, tt, (omega arith, tt), (omega arith, tt), tt), tt)

abbrev text : List ℕ
text =
    b'd' ∷ b'o' ∷ b'A' ∷ b'A' ∷ b'Q' ∷ b'A' ∷ b'B' ∷ b'A' ∷ b'=' ∷ b'd' ∷ b'A' ∷ b'B' ∷ b'A' ∷ b's'
    ∷ b'A' ∷ b'A' ∷ b'Q' ∷ b'M' ∷ b'Q' ∷ b'=' ∷ b'=' ∷ b'b' ∷ b'A' ∷ b'A' ∷ b'Q' ∷ b'C' ∷ b'Q'
    ∷ b'=' ∷ b'=' ∷ []

encoded : fencode false (dict_value (one_owner 16 mk mb)) ≡ ok text
unfolding fencode b64encode int_bytes make_len utf8_encode surrogate utf8_bytes
encoded = refl

bytes_of : utf8_encode text ≡ ok text
unfolding utf8_encode surrogate utf8_bytes
bytes_of = refl

-- The text of the id, as a directory has it in names.
abbrev owner : List ℕ
owner = b'1' ∷ b'0' ∷ []

-- Bytes that hash to themselves, and `seek` and `read` at places that are not negative.
abbrev read_at : List ℕ → ℤ → ℤ → Result (List ℕ)
read_at bytes (pos o) (pos n) = ok (take n (drop o bytes))
read_at bytes _ _ = raise value_error

abbrev verify : VerifyTools
verify = record {
  read_signed = λ text. ok (pos 4);
  hash_text = λ bytes. bytes;
  size = λ m. 1;
  read_at = read_at;
}

-- Four bytes from the fourth.
verify-store_example :
    (disk' : Disk) × (store files form filekey 16 owner [] ≡ (disk', ok stored))
    × (verify_file files verify filekey (probe_at 4 4) 16 owner disk'
        ≡ (disk', ok (file_answer 200 (digest (take 4 (drop 4 payload))))))
unfolding tarballs get ends_with same_text
verify-store_example =
    verify-store files verify form filekey payload mk mb text text 16 refl refl refl key_right refl
      refl big small good encoded bytes_of owner [] 16 owner 4 4 refl refl (omega (arith, big))

delete-store_example :
    (disk' : Disk) × (store files form filekey 16 owner [] ≡ (disk', ok stored))
    × (delete files filekey mk 16 owner disk' ≡ ([], ok (file_answer 200 done)))
unfolding tarballs get ends_with same_text
delete-store_example =
    delete-store files form filekey payload mk mb text text 16 owner [] refl refl refl key_right
      refl refl big small good encoded bytes_of refl refl

-- `10.tar` alone
abbrev disk_of_tar : Disk
disk_of_tar = (b'1' ∷ b'0' ∷ b'.' ∷ b't' ∷ b'a' ∷ b'r' ∷ [], 3 ∷ []) ∷ []

delete-removed_example :
    delete files filekey mk 16 owner disk_of_tar
    ≡ (remove (b'1' ∷ b'0' ∷ b'.' ∷ b't' ∷ b'a' ∷ b'r' ∷ []) disk_of_tar, ok (file_answer 200 done))
unfolding get same_text
delete-removed_example =
    delete-removed files filekey mk owner (3 ∷ []) 16 member disk_of_tar refl refl refl refl
      (λ e. ground (arith, ap length e))

abbrev tools : Tools
tools = record {
  library = record {
    id_of = id_of;
    encrypt = λ ku bytes. ok bytes;
    group_hash = λ ku. b'g' ∷ [];
    own_id = 17 ∷ [];
    decode_token = λ token. ok token;
  };
  read_int = λ text. ok 1040;
  import_key = λ e n. ok n;
  id_text = λ i. owner;
  choice = λ ns. me;
}

abbrev server : Server
server = record { peers = peers; challenges = []; kstore = [] }

-- A request without parameters.
abbrev call : Call
call = record { now = 0; draws = []; auth = []; host = "10.0.0.2"; query = [] }

requests-Guarded_example :
    Guarded tools call server disk_of_tar
      (handle_file_post tools files filekey form call server disk_of_tar)
    × Guarded tools call server disk_of_tar
        (handle_file_get tools files filekey (b'x' ∷ []) call server disk_of_tar)
    × Guarded tools call server disk_of_tar
        (handle_file_delete tools files filekey call server disk_of_tar)
    × Guarded tools call server disk_of_tar
        (handle_hash_get tools files verify filekey call server disk_of_tar)
requests-Guarded_example =
    requests-Guarded tools files verify filekey (b'x' ∷ []) form call server disk_of_tar
