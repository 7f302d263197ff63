-- ===== src/Server/Files.antt =====
-- flud/protocol/AiohttpServer.py: what the requests for files share, the directory of stored files and
-- the tarballs of small ones. The directory is a dict from names to bytes. What a file's request
-- writes under a temporary name and takes away again is left out.
use flud.Prelude.{
  ℕ, Bool, true, false, Option, none, some, List, [], ◌∷◌, ◌++◌, Result, ok, raise, String, Dict,
  get, put, remove, ◌>>=◌, map, if◌then◌else◌,
}
use flud.Fencode.Values.{Value, same_text, text_eq}
use flud.Tarball.{Member}
use flud.Peers.{found, missing, require_params}
use flud.Server.Auth.{Server, Response, authenticate}
use flud.Server.Meta.{Tools, ku_e_name, ku_n_name, port_name, at_name}

abbrev pub Disk : Type 0
Disk = Dict (List ℕ) (List ℕ)

-- What the code takes from elsewhere: the reading of a tarball, gzipped or plain, where that does not
-- raise, and what the members that are written to one make of it; `hashfile` as a number, `int` of a
-- hexadecimal text, `str` of a value, and the CRC-32 of an accounting's `repr`.
pub record FileTools : Type 0 where
  pub open_tar : Bool → List ℕ → Option (List Member)
  pub pack_tar : Bool → List Member → List ℕ
  pub hash : List ℕ → ℕ
  pub read_hex : List ℕ → Result ℕ
  pub str : Value → List ℕ
  pub crc : Value → ℕ

-- What a response says: one of the fixed texts, what authentication says, the bytes of a file, alone
-- or behind its metadata, or the hash of some bytes.
pub data FileTold : Type 0 where
  lacks : List ℕ → FileTold
  denied : Response → FileTold
  done no_payload empty_tar not_cas absent bad_range bad_key : FileTold
  whole : List ℕ → FileTold
  parted : List ℕ → List ℕ → FileTold
  digest : List ℕ → FileTold

pub record FileAnswer : Type 0 where
  pub status : ℕ
  pub told : FileTold

abbrev pub file_answer : ℕ → FileTold → FileAnswer
file_answer status told = record { status = status; told = told }

-- `.tar` and `.gz`
abbrev pub tar_suffix : List ℕ
tar_suffix = b'.' ∷ b't' ∷ b'a' ∷ b'r' ∷ []

abbrev pub gz_suffix : List ℕ
gz_suffix = b'.' ∷ b'g' ∷ b'z' ∷ []

-- The name of the tarball of an owner, gzipped or not.
abbrev pub tar_name : Bool → List ℕ → List ℕ
tar_name true owner = owner ++ (tar_suffix ++ gz_suffix)
tar_name false owner = owner ++ tar_suffix

-- `"%s.%s.meta" % (filekey, metakey)`
abbrev pub meta_name : List ℕ → List ℕ → List ℕ
meta_name filekey metakey = filekey ++ (b'.' ∷ (metakey ++ (b'.' ∷ b'm' ∷ b'e' ∷ b't' ∷ b'a' ∷ [])))

-- The tarballs of an owner that are there, the gzipped one first.
unfoldable pub tarballs : List ℕ → Disk → List (Bool × List ℕ)
unfolding same_text
tarballs owner disk =
    (elim (get (tar_name true owner) disk) [ none ↦ [] | some bytes ↦ (true, bytes) ∷ [] ])
    ++ (elim (get (tar_name false owner) disk) [ none ↦ [] | some bytes ↦ (false, bytes) ∷ [] ])

-- What is left where a tarball has been written anew: a gzipped one is unpacked over the plain one,
-- changed there, packed, and the plain one removed.
unfoldable pub rewrite_tar : FileTools → Bool → List ℕ → List Member → Disk → Disk
unfolding same_text
rewrite_tar tools true owner ms disk =
    put (tar_name true owner) (tools.pack_tar true ms) (remove (tar_name false owner) disk)
rewrite_tar tools false owner ms disk = put (tar_name false owner) (tools.pack_tar false ms) disk

abbrev pub names : List Member → List (List ℕ)
names ms = map (λ m. m.name) ms

abbrev pub file_member : List ℕ → List ℕ → Member
file_member name bytes = record { name = name; is_file = true; contents = some bytes }

-- `getmember`: the last member of a name
unfoldable pub last_member : List ℕ → List Member → Option Member
unfolding same_text
last_member name [] = none
last_member name (m ∷ ms) = elim (last_member name ms) [
  | some later ↦ some later
  | none ↦ if same_text m.name name then some m else none
]

-- Who asks: an answer that refuses the request, or a key with the parameters.
pub data Admitted : Type 0 where
  turned_away : FileAnswer → Admitted
  admitted : ℕ → Dict (List ℕ) (List ℕ) → Admitted

abbrev pub asker : Tools → Dict (List ℕ) (List ℕ) → Result (ℕ × ℕ)
asker tools params = do
  e_text ← at_name ku_e_name params
  e ← tools.read_int e_text
  n_text ← at_name ku_n_name params
  n ← tools.read_int n_text
  ku ← tools.import_key e n
  port_text ← at_name port_name params
  port ← tools.read_int port_text
  ok (ku, port)

-- A request as the handlers read it: its time, random draws, `Authorization` header, client and query.
pub record Call : Type 0 where
  pub now : ℕ
  pub draws : List (List ℕ)
  pub auth : List ℕ
  pub host : String
  pub query : Dict (List ℕ) (List (List ℕ))

-- What `_authenticate` comes to.
abbrev pub passed :
    ℕ → Dict (List ℕ) (List ℕ) → Server × Result (Option Response) → Server × Result Admitted
passed ku params (s, raise e) = (s, raise e)
passed ku params (s, ok (some r)) = (s, ok (turned_away (file_answer r.status (denied r))))
passed ku params (s, ok none) = (s, ok (admitted ku params))

-- The common beginning of the requests for files, with the names of the parameters.
unfoldable pub admit :
    Tools → List (List ℕ) → Dict (List ℕ) (List (List ℕ)) → Call → Server → Server × Result Admitted
unfolding require_params authenticate
admit tools wanted args call s = elim (require_params args wanted) [
  | missing name ↦ (s, ok (turned_away (file_answer 400 (lacks name))))
  | found params ↦ elim (asker tools params) [
    | raise e ↦ (s, raise e)
    | ok (ku, port) ↦
        passed ku params
          (authenticate tools.library call.now call.draws call.auth ku call.host port s)
  ]
]

-- What a handler leaves of the server and of the directory, with its response or exception.
abbrev pub FileHandled : Type 0
FileHandled = Server × Disk × Result FileAnswer

-- A handler behind the common beginning.
abbrev pub behind :
    Server × Result Admitted
    → Disk
    → (ℕ → Dict (List ℕ) (List ℕ) → Disk × Result FileAnswer)
    → FileHandled
behind (s, raise e) disk rest = (s, disk, raise e)
behind (s, ok (turned_away r)) disk rest = (s, disk, ok r)
behind (s, ok (admitted ku params)) disk rest =
    let (disk', result) = rest ku params in (s, disk', result)
