-- ===== src/Server/Retrieve.antt =====
-- flud/protocol/AiohttpServer.py: `_handle_file_get`.
use flud.Prelude.{
  ℕ, Bool, true, false, ◌&&◌, ◌||◌, Option, none, some, List, [], ◌∷◌, ◌++◌, Result, ok, raise,
  attribute_error, Dict, get, ◌>>=◌, if◌then◌else◌,
}
use flud.Prelude.Int.{pos}
use flud.Fencode.Values.{
  Value, none_value, bytes_value, str_value, int_value, dict_value, Entries, end, entry, same_text,
  text_eq,
}
use flud.Fencode.Utf8.{utf8_encode}
use flud.BlockFile.{BlockFile, open_file, read}
use flud.BlockFile.Accounting.{truthy, get_entry, dict_for, as_dict}
use flud.Tarball.{Member, ends_with}
use flud.Server.Auth.{Server, after_prefix}
use flud.Server.Meta.{Tools, ku_e_name, ku_n_name, port_name, node_id_name}
use flud.Server.Multipart.{build_parts}
use flud.Server.Files.{
  Disk, FileTools, FileAnswer, file_answer, absent, whole, parted, meta_name, tarballs, names,
  last_member, Call, admit, behind, FileHandled,
}

-- The response of a file with what is stored beside it, and with the file last.
unfoldable pub respond : List (List ℕ × List ℕ) → List ℕ → List ℕ → List ℕ → Result FileAnswer
unfolding build_parts
respond [] filekey payload boundary = ok (file_answer 200 (whole payload))
respond (p ∷ parts) filekey payload boundary = do
  body ← build_parts ((p ∷ parts) ++ ((filekey, payload) ∷ [])) boundary
  ok (file_answer 200 (parted body boundary))

-- Whether a member's name may stand for the file: the name, behind `"./"`, or with the name at its end.
unfoldable pub stands_for : List ℕ → List ℕ → Bool
unfolding after_prefix same_text ends_with
stands_for filekey name =
    same_text name filekey
    || ((elim (after_prefix (b'.' ∷ b'/' ∷ []) name) [
      | none ↦ false
      | some rest ↦ same_text rest filekey
    ])
        || ends_with filekey name)

unfoldable pub first_alternative : List ℕ → List (List ℕ) → Option (List ℕ)
unfolding stands_for
first_alternative filekey [] = none
first_alternative filekey (n ∷ ns) =
    let rest = first_alternative filekey ns in if stands_for filekey n then some n else rest

-- The member that is served.
unfoldable pub find_member : List ℕ → List Member → Option Member
unfolding last_member first_alternative
find_member filekey ms = elim (last_member filekey ms) [
  | some m ↦ some m
  | none ↦ elim (first_alternative filekey (names ms)) [
    | none ↦ none
    | some name ↦ last_member name ms
  ]
]

abbrev pub meta_word : List ℕ
meta_word = b'm' ∷ b'e' ∷ b't' ∷ b'a' ∷ []

-- Whether a member is the metadata that is asked for.
unfoldable pub is_meta : List ℕ → Option (List ℕ) → List ℕ → Bool
unfolding after_prefix ends_with same_text
is_meta filekey metakey name =
    (elim (after_prefix filekey name) [ none ↦ false | some rest ↦ ends_with meta_word name ])
    && (elim metakey [ none ↦ true | some k ↦ same_text name (meta_name filekey k) ])

unfoldable pub metas : List ℕ → Option (List ℕ) → List (List ℕ) → List (List ℕ)
unfolding is_meta
metas filekey metakey [] = []
metas filekey metakey (n ∷ ns) =
    let rest = metas filekey metakey ns in if is_meta filekey metakey n then n ∷ rest else rest

-- `extractfile` gives nothing for what is no file, which cannot be read.
unfoldable pub read_member : Option Member → Result (List ℕ)
read_member none = raise attribute_error
read_member (some m) = elim m.contents [ none ↦ raise attribute_error | some bytes ↦ ok bytes ]

unfoldable pub meta_parts : List (List ℕ) → List Member → Result (List (List ℕ × List ℕ))
unfolding read_member last_member
meta_parts [] ms = ok []
meta_parts (n ∷ ns) ms = do
  bytes ← read_member (last_member n ms)
  rest ← meta_parts ns ms
  ok ((n, bytes) ∷ rest)

unfoldable pub retrieve_tarred :
    List ℕ → Option (List ℕ) → List ℕ → Member → List Member → Result FileAnswer
unfolding read_member meta_parts metas respond
retrieve_tarred filekey metakey boundary m ms = do
  payload ← read_member (some m)
  parts ← meta_parts (metas filekey metakey (names ms)) ms
  respond parts filekey payload boundary

module _ (tools : FileTools) where
  -- The loop over the tarballs.
  unfoldable pub retrieve_from :
      List ℕ → Option (List ℕ) → List ℕ → List (Bool × List ℕ) → Result FileAnswer
  unfolding find_member retrieve_tarred
  retrieve_from filekey metakey boundary [] = ok (file_answer 404 absent)
  retrieve_from filekey metakey boundary ((gzipped, bytes) ∷ rest) =
      elim (tools.open_tar gzipped bytes) [
        | none ↦ retrieve_from filekey metakey boundary rest
        | some ms ↦ elim (find_member filekey ms) [
          | none ↦ retrieve_from filekey metakey boundary rest
          | some m ↦ retrieve_tarred filekey metakey boundary m ms
        ]
      ]

  -- `str` of a value; a text is its own.
  abbrev pub shown : Value → List ℕ
  shown (str_value s) = s
  shown v = tools.str v

  abbrev pub as_payload : Value → Result (List ℕ)
  as_payload (bytes_value b) = ok b
  as_payload v = utf8_encode (shown v)

  unfoldable pub entry_parts : List ℕ → Entries → Result (List (List ℕ × List ℕ))
  entry_parts filekey end = ok []
  entry_parts filekey (entry k v es) = do
    bytes ← as_payload v
    rest ← entry_parts filekey es
    ok ((meta_name filekey (shown k), bytes) ∷ rest)

  -- `{metakey: meta.get(metakey)} if metakey in meta else None`
  abbrev pub entry_alone : List ℕ → Option Value → Value
  entry_alone metakey none = none_value
  entry_alone metakey (some v) = dict_value (entry (str_value metakey) v end)

  -- The metadata of a node, of which a key takes one entry.
  unfoldable pub chosen_meta : Option (List ℕ) → Value → Result Value
  unfolding truthy dict_for get_entry
  chosen_meta none m = ok m
  chosen_meta (some metakey) m = elim (truthy m) [
    | false ↦ ok m
    | true ↦ do
      es ← dict_for (str_value metakey) m
      ok (entry_alone metakey (get_entry (str_value metakey) es))
  ]

  -- `meta` of the accounting is told apart from the module's own names.
  unfoldable pub block_parts : List ℕ → Value → Result (List (List ℕ × List ℕ))
  unfolding truthy as_dict entry_parts
  block_parts filekey m = elim (truthy m) [
    | false ↦ ok []
    | true ↦ do es ← as_dict m; entry_parts filekey es
  ]

  unfoldable pub retrieve_block :
      List ℕ → Option (List ℕ) → List ℕ → Result ℕ → List ℕ → Result FileAnswer
  unfolding open_file chosen_meta read block_parts respond
  retrieve_block filekey metakey boundary owner file = do
    b ← open_file tools.crc file false
    i ← owner
    all ← flud.BlockFile.Accounting.meta (int_value (pos i)) b.accounting
    some_meta ← chosen_meta metakey all
    parts ← block_parts filekey some_meta
    respond parts filekey (read b none).1 boundary

  -- Whose metadata is asked for: the node of the query's id, else that of the key.
  abbrev pub owner_asked : ℕ → Option (List ℕ) → Result ℕ
  owner_asked own none = ok own
  owner_asked own (some []) = ok own
  owner_asked own (some (c ∷ text)) = tools.read_hex (c ∷ text)

  unfoldable pub retrieve :
      List ℕ → Option (List ℕ) → Option (List ℕ) → List ℕ → ℕ → List ℕ → Disk → Result FileAnswer
  unfolding retrieve_block retrieve_from tarballs same_text
  retrieve filekey metakey node_id boundary own owner disk = elim (get filekey disk) [
    | none ↦ retrieve_from filekey metakey boundary (tarballs owner disk)
    | some file ↦ retrieve_block filekey metakey boundary (owner_asked own node_id) file
  ]

-- `request.query.get(name)`
abbrev pub query_get : List ℕ → Dict (List ℕ) (List (List ℕ)) → Option (List ℕ)
query_get name query = elim (get name query) [
  | none ↦ none
  | some [] ↦ none
  | some (v ∷ vs) ↦ some v
]

abbrev pub metakey_name : List ℕ
metakey_name = b'm' ∷ b'e' ∷ b't' ∷ b'a' ∷ b'k' ∷ b'e' ∷ b'y' ∷ []

-- The metakey `True` asks for all of the metadata.
abbrev pub metakey_asked : Option (List ℕ) → Option (List ℕ)
metakey_asked none = none
metakey_asked (some k) = if same_text k (b'T' ∷ b'r' ∷ b'u' ∷ b'e' ∷ []) then none else some k

unfoldable pub handle_file_get :
    Tools → FileTools → List ℕ → List ℕ → Call → Server → Disk → FileHandled
unfolding admit retrieve same_text
handle_file_get tools files filekey boundary call s disk =
    behind (admit tools (ku_e_name ∷ ku_n_name ∷ port_name ∷ []) call.query call s) disk
      (λ ku params.
        let own = tools.library.id_of ku in
        (
          disk,
          retrieve files filekey (metakey_asked (query_get metakey_name call.query))
              (query_get node_id_name call.query) boundary own (tools.id_text own) disk,
        ))
