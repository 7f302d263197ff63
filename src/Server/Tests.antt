-- ===== src/Server/Tests.antt =====
-- flud/protocol/AiohttpServer.py: authentication and the requests of the DHT on concrete requests.
use flud.Prelude.{ℕ, ◌≡◌, refl, ap, ok, some, none, List, [], ◌∷◌, get, has, Dict, arith, false}
use flud.Prelude.Int.{pos}
use flud.Fencode.Values.{
  Entries, entry, end, int_value, str_value, dict_value, plain, same_key, hashable, IsGood,
  same_text,
}
use flud.Fencode.Encode.{fencode, make_len}
use flud.BlockFile.Accounting.{get_entry}
use flud.Fencode.Utf8.{utf8_encode, surrogate, utf8_bytes}
use flud.Fencode.Base64.{b64encode, b64decode}
use flud.Fencode.Integers.{int_bytes}
use flud.Fencode.Decode.{fdecode, decode_loop}
use flud.Fencode.Values.{text_eq}
use flud.Peers.Sample.{id_of, peers, me, config-Trusted, small, in_space}
use flud.Server.Auth.{Server, Library, authenticate, challenge_of, as_key, parse_basic_auth}
use flud.Server.Replay.{Once, authenticate-Once}
use flud.Server.Kept.{Kept, authenticate-Kept, authenticate-accepts}
use flud.Server.Meta.{
  Tools, put_meta, get_meta, answer, contents, nothing_told, handle_id, handle_nodes_get,
  handle_meta_put, handle_meta_get,
}
use flud.Server.Stored.{Due, own_part, Written, get_meta-put_meta}
use flud.Server.Requests.{requests-Kept}

-- A token stands for itself.
abbrev library : Library
library = record {
  id_of = id_of;
  encrypt = λ ku bytes. ok bytes;
  group_hash = λ ku. b'g' ∷ [];
  own_id = 17 ∷ [];
  decode_token = λ token. ok token;
}

-- `b"k"` is an open challenge.
abbrev server : Server
server = record { peers = peers; challenges = (b'k' ∷ [], 500) ∷ []; kstore = [] }

server-Kept : Kept library 257 server
unfolding has
server-Kept = record { once = (refl, tt); trusted = config-Trusted }

-- `Basic baw==:g`, where `baw==` is the encoding of `b"k"`
abbrev header : List ℕ
header =
    b'B' ∷ b'a' ∷ b's' ∷ b'i' ∷ b'c' ∷ b' ' ∷ b'b' ∷ b'a' ∷ b'w' ∷ b'=' ∷ b'=' ∷ b':' ∷ b'g' ∷ []

abbrev opened : Server
opened = (authenticate library 100 [] header 1040 "10.0.0.2" 9090 server).0

key : as_key (challenge_of (b'b' ∷ b'a' ∷ b'w' ∷ b'=' ∷ b'=' ∷ [])) ≡ ok (some (b'k' ∷ []))
unfolding challenge_of fdecode decode_loop b64decode
key = refl

parsed : parse_basic_auth library header ≡ some (b'b' ∷ b'a' ∷ b'w' ∷ b'=' ∷ b'=' ∷ [], b'g' ∷ [])
unfolding parse_basic_auth
parsed = refl

taken : (authenticate library 100 [] header 1040 "10.0.0.2" 9090 server).1 ≡ ok none
unfolding get same_text
taken =
    authenticate-accepts library 257 small in_space 100 [] header 1040 "10.0.0.2" 9090 server b'b'
      b'g' b'k' (b'a' ∷ b'w' ∷ b'=' ∷ b'=' ∷ []) [] [] 500 server-Kept parsed key refl (omega arith)
      refl

authenticate-Once_example : Once library 100 header 1040 server opened
unfolding has
authenticate-Once_example =
    authenticate-Once library 100 [] header 1040 "10.0.0.2" 9090 server opened (refl, tt)
      (ap (λ r. (opened, r)) taken)

authenticate-Kept_example :
    Kept library 257 (authenticate library 100 [] header 1040 "10.0.0.2" 9090 server).0
authenticate-Kept_example =
    authenticate-Kept library 257 small in_space 100 [] header 1040 "10.0.0.2" 9090 server
      server-Kept

abbrev tools : Tools
tools = record {
  library = library;
  read_int = λ text. ok 1040;
  import_key = λ e n. ok n;
  id_text = λ i. b'1' ∷ b'6' ∷ [];
  choice = λ ns. me;
}

-- `nodeID`, `Ku_e`, `Ku_n` and `port`
abbrev query : Dict (List ℕ) (List (List ℕ))
query =
    (b'n' ∷ b'o' ∷ b'd' ∷ b'e' ∷ b'I' ∷ b'D' ∷ [], (b'1' ∷ b'6' ∷ []) ∷ [])
    ∷ (b'K' ∷ b'u' ∷ b'_' ∷ b'e' ∷ [], (b'3' ∷ []) ∷ [])
    ∷ (b'K' ∷ b'u' ∷ b'_' ∷ b'n' ∷ [], (b'9' ∷ []) ∷ [])
    ∷ (b'p' ∷ b'o' ∷ b'r' ∷ b't' ∷ [], (b'8' ∷ []) ∷ [])
    ∷ []

requests-Kept_example :
    Kept library 257 (handle_id tools "10.0.0.2" query server).0
    × Kept library 257 (handle_nodes_get tools "10.0.0.2" query (b'k' ∷ []) server).0
    × Kept library 257 (handle_meta_put tools "10.0.0.2" query (b'k' ∷ []) (b'v' ∷ []) server).0
    × Kept library 257 (handle_meta_get tools "10.0.0.2" query (b'k' ∷ []) server).0
requests-Kept_example =
    requests-Kept tools 257 small in_space "10.0.0.2" query (b'k' ∷ []) (b'v' ∷ []) server
      server-Kept

-- `{"1": 5, "2": 7, "b": 6}`, of which the node 1 is due the entries `b` and 1.
abbrev entries : Entries
entries = entry (str_value (b'1' ∷ [])) (int_value (pos 5)) (
    entry (str_value (b'2' ∷ [])) (int_value (pos 7))
      (entry (str_value (b'b' ∷ [])) (int_value (pos 6)) end))

abbrev text : List ℕ
text =
    b'd' ∷ b's' ∷ b'A' ∷ b'A' ∷ b'Q' ∷ b'M' ∷ b'Q' ∷ b'=' ∷ b'=' ∷ b'o' ∷ b'A' ∷ b'A' ∷ b'Q' ∷ b'A'
    ∷ b'A' ∷ b'U' ∷ b'=' ∷ b's' ∷ b'A' ∷ b'A' ∷ b'Q' ∷ b'M' ∷ b'g' ∷ b'=' ∷ b'=' ∷ b'o' ∷ b'A'
    ∷ b'A' ∷ b'Q' ∷ b'A' ∷ b'A' ∷ b'c' ∷ b'=' ∷ b's' ∷ b'A' ∷ b'A' ∷ b'Q' ∷ b'Y' ∷ b'g' ∷ b'='
    ∷ b'=' ∷ b'o' ∷ b'A' ∷ b'A' ∷ b'Q' ∷ b'A' ∷ b'A' ∷ b'Y' ∷ b'=' ∷ []

text_of : fencode false (dict_value entries) ≡ ok text
unfolding fencode b64encode int_bytes make_len utf8_encode surrogate utf8_bytes
text_of = refl

bytes_of : utf8_encode text ≡ ok text
unfolding utf8_encode surrogate utf8_bytes
bytes_of = refl

entries-IsGood : IsGood (dict_value entries)
unfolding IsGood hashable same_key
entries-IsGood = ground arith

abbrev part : List ℕ
part =
    b'd' ∷ b's' ∷ b'A' ∷ b'A' ∷ b'Q' ∷ b'Y' ∷ b'g' ∷ b'=' ∷ b'=' ∷ b'o' ∷ b'A' ∷ b'A' ∷ b'Q' ∷ b'A'
    ∷ b'A' ∷ b'Y' ∷ b'=' ∷ b's' ∷ b'A' ∷ b'A' ∷ b'Q' ∷ b'M' ∷ b'Q' ∷ b'=' ∷ b'=' ∷ b'o' ∷ b'A'
    ∷ b'A' ∷ b'Q' ∷ b'A' ∷ b'A' ∷ b'U' ∷ b'=' ∷ []

part-Written :
    Written
      (dict_value (
        entry
          (str_value (b'b' ∷ []))
          (int_value (pos 6))
          (entry (str_value (b'1' ∷ [])) (int_value (pos 5)) end)))
      part
unfolding fencode b64encode int_bytes make_len utf8_encode surrogate utf8_bytes
part-Written = (part, refl, refl)

abbrev stored : Server
stored = (put_meta (b'k' ∷ []) text server).0

due : Due (b'1' ∷ []) text (plain (dict_value entries)) (ok (answer 200 (contents part)))
unfolding get_entry plain same_key same_text hashable
due = own_part entries (int_value (pos 5)) (int_value (pos 6)) part refl refl refl part-Written

get_meta-put_meta_example :
    ((put_meta (b'k' ∷ []) text server).1 ≡ ok (answer 200 nothing_told))
    × (get_meta (b'1' ∷ []) (b'k' ∷ []) stored ≡ ok (answer 200 (contents part)))
get_meta-put_meta_example =
    get_meta-put_meta (dict_value entries) text text entries-IsGood text_of bytes_of (b'1' ∷ [])
      (b'k' ∷ []) server stored (ok (answer 200 (contents part))) refl due
