-- ===== src/Server/Store.antt =====
-- flud/protocol/AiohttpServer.py: `_handle_file_post`. A form is its fields: the size and the other
-- parameters with the query's, the payload, the metadata and its key.
use flud.Prelude.{
  ℕ, Bool, true, false, Option, none, some, List, [], ◌∷◌, ◌++◌, Result, ok, raise, Dict, get, put,
  remove, has, length, ltb, ◌>>=◌, if◌then◌else◌, elem,
}
use flud.Prelude.Int.{pos}
use flud.Fencode.Values.{
  Value, none_value, str_value, int_value, bytes_value, dict_value, entry, end, same_text, text_eq,
}
use flud.Fencode.Encode.{fencode}
use flud.BlockFile.{open_file, close, add_node, convert}
use flud.BlockFile.Accounting.{has_node}
use flud.Tarball.{Member, ends_with, verify_hashes, meta_suffix}
use flud.Server.Auth.{Server}
use flud.Server.Meta.{Tools, ku_e_name, ku_n_name, port_name}
use flud.Server.Files.{
  Disk, FileTools, FileAnswer, file_answer, done, no_payload, empty_tar, not_cas, tar_suffix,
  gz_suffix, meta_name, tar_name, tarballs, rewrite_tar, names, file_member, Call, admit, behind,
  FileHandled,
}

-- The fields of the form; `args` are the query's parameters and the form's scalar ones.
pub record Form : Type 0 where
  pub args : Dict (List ℕ) (List (List ℕ))
  pub filename : Option (List ℕ)
  pub metakey : Option (List ℕ)
  pub meta : Option (List ℕ)

abbrev pub stored : FileAnswer
stored = file_answer 200 done

-- `if meta and metakey is not None`, `if meta`
abbrev pub some_meta : Option (List ℕ) → Option (List ℕ)
some_meta none = none
some_meta (some []) = none
some_meta (some (b ∷ bytes)) = some (b ∷ bytes)

-- A key and a value as Python has them.
abbrev pub key_value : Option (List ℕ) → Value
key_value none = none_value
key_value (some k) = str_value k

abbrev pub bytes_or_none : Option (List ℕ) → Value
bytes_or_none none = none_value
bytes_or_none (some b) = bytes_value b

-- `{metakey: meta}`
abbrev pub meta_dict : Form → Value
meta_dict form = dict_value (entry (key_value form.metakey) (bytes_or_none form.meta) end)

-- `"%s.%s.meta"` where the key may be `None`
abbrev pub stored_meta_name : List ℕ → Option (List ℕ) → List ℕ
stored_meta_name filekey none = meta_name filekey (b'N' ∷ b'o' ∷ b'n' ∷ b'e' ∷ [])
stored_meta_name filekey (some k) = meta_name filekey k

-- The members of the new tarball that the old one has no name of.
unfoldable pub new_members : List (List ℕ) → List Member → List Member
unfolding same_text elem
new_members existing [] = []
new_members existing (m ∷ ms) =
    let rest = new_members existing ms in if elem m.name existing then rest else m ∷ rest

module _ (tools : FileTools) where
  -- The members of a tarball on the disk; one that is not there or cannot be read has none.
  abbrev pub members_at : Bool → List ℕ → Disk → List Member
  members_at gzipped name disk = elim (get name disk) [
    | none ↦ []
    | some bytes ↦ elim (tools.open_tar gzipped bytes) [ none ↦ [] | some ms ↦ ms ]
  ]

  -- What the tarball to merge into has. A gzipped one that is not there is begun from the plain one.
  unfoldable pub merge_target : Bool → List ℕ → Disk → List Member
  unfolding same_text
  merge_target true owner disk =
      if has (tar_name true owner) disk
      then members_at true (tar_name true owner) disk
      else members_at false (tar_name false owner) disk
  merge_target false owner disk = members_at false (tar_name false owner) disk

  -- The check of a tarball's names, and the merge.
  unfoldable pub merge_tar : Bool → List ℕ → List ℕ → Disk → Disk × Result FileAnswer
  unfolding merge_target new_members rewrite_tar verify_hashes
  merge_tar gzipped payload owner disk =
      elim (verify_hashes tools.hash (meta_suffix ∷ []) (tools.open_tar gzipped payload)) [
        | raise e ↦ (disk, raise e)
        | ok [] ↦ (disk, ok (file_answer 409 not_cas))
        | ok (name ∷ digests) ↦
            let old = merge_target gzipped owner disk in
            let src : List Member = elim (tools.open_tar gzipped payload) [
              | none ↦ []
              | some ms ↦ ms
            ] in
            (rewrite_tar tools gzipped owner (old ++ new_members (names old) src) disk, ok stored)
      ]

  abbrev pub store_tar : Bool → List ℕ → List ℕ → Disk → Disk × Result FileAnswer
  store_tar gzipped [] owner disk = (disk, ok (file_answer 400 empty_tar))
  store_tar gzipped (b ∷ payload) owner disk = merge_tar gzipped (b ∷ payload) owner disk

  -- A block that is there gets another owner. The test is for the text of the id, and what is added is
  -- its number.
  unfoldable pub add_owner : Form → List ℕ → ℕ → List ℕ → Result (List ℕ)
  unfolding open_file has_node add_node close
  add_owner form owner own file = do
    b ← open_file tools.crc file true
    there ← has_node (str_value owner) b.accounting
    b' ← (if there then ok b else add_node b (int_value (pos own)) (meta_dict form))
    closed ← close tools.crc b'
    ok closed.file

  -- The metadata of a file that a tarball has, where there is some and the tarball has none of that
  -- name.
  unfoldable pub add_meta : Form → List ℕ → Bool → List ℕ → List Member → Disk → Disk
  unfolding rewrite_tar same_text elem
  add_meta form filekey gzipped owner ms disk = elim (some_meta form.meta) [
    | none ↦ disk
    | some bytes ↦ elim form.metakey [
      | none ↦ disk
      | some k ↦
          if elem (meta_name filekey k) (names ms)
          then disk
          else rewrite_tar tools gzipped owner
              (ms ++ (file_member (meta_name filekey k) bytes ∷ [])) disk
    ]
  ]

  -- The loop over the tarballs, which removes those that cannot be read: the directory, and whether
  -- one has the file.
  unfoldable pub find_tarred : Form → List ℕ → List ℕ → List (Bool × List ℕ) → Disk → Disk × Bool
  unfolding add_meta same_text elem
  find_tarred form filekey owner [] disk = (disk, false)
  find_tarred form filekey owner ((gzipped, bytes) ∷ rest) disk =
      elim (tools.open_tar gzipped bytes) [
        | none ↦ find_tarred form filekey owner rest (remove (tar_name gzipped owner) disk)
        | some ms ↦ elim (elem filekey (names ms)) [
          | true ↦ (add_meta form filekey gzipped owner ms disk, true)
          | false ↦ find_tarred form filekey owner rest disk
        ]
      ]

  -- A small file goes into a tarball, the gzipped one if there is one.
  unfoldable pub aggregate : Form → List ℕ → List ℕ → List ℕ → Disk → Disk
  unfolding rewrite_tar same_text
  aggregate form filekey payload owner disk =
      let gzipped = has (tar_name true owner) disk in
      let added : List Member = elim (some_meta form.meta) [
        | none ↦ []
        | some bytes ↦ file_member (stored_meta_name filekey form.metakey) bytes ∷ []
      ] in
      rewrite_tar tools gzipped owner
        (members_at gzipped (tar_name gzipped owner) disk ++ (file_member filekey payload ∷ added))
        disk

  -- A file of its own. Where `convert` raises, the file stays without an accounting.
  unfoldable pub store_new : Form → List ℕ → List ℕ → ℕ → Disk → Disk × Result FileAnswer
  unfolding convert same_text
  store_new form filekey payload own disk =
      elim (convert payload (some (int_value (pos own), meta_dict form))) [
        | raise e ↦ (put filekey payload disk, raise e)
        | ok file ↦ (put filekey file disk, ok stored)
      ]

  -- Where the file is in no tarball.
  abbrev pub unless_tarred :
      Form → List ℕ → List ℕ → ℕ → List ℕ → Disk × Bool → Disk × Result FileAnswer
  unless_tarred form filekey payload own owner (disk, true) = (disk, ok stored)
  unless_tarred form filekey payload own owner (disk, false) =
      if ltb (length payload) 8192
      then (aggregate form filekey payload owner disk, ok stored)
      else store_new form filekey payload own disk

  abbrev pub owner_added : List ℕ → Disk → Result (List ℕ) → Disk × Result FileAnswer
  owner_added filekey disk (raise e) = (disk, raise e)
  owner_added filekey disk (ok file) = (put filekey file disk, ok stored)

  -- A file whose key is right.
  unfoldable pub store_file : Form → List ℕ → List ℕ → ℕ → List ℕ → Disk → Disk × Result FileAnswer
  unfolding add_owner find_tarred aggregate store_new tarballs same_text
  store_file form filekey payload own owner disk = elim (get filekey disk) [
    | some file ↦ owner_added filekey disk (add_owner form owner own file)
    | none ↦
        unless_tarred form filekey payload own owner
          (find_tarred form filekey owner (tarballs owner disk) disk)
  ]

  -- The check that the key is the encoded hash of the payload.
  unfoldable pub store_block : Form → List ℕ → List ℕ → ℕ → List ℕ → Disk → Disk × Result FileAnswer
  unfolding store_file same_text
  store_block form filekey payload own owner disk =
      elim (fencode false (int_value (pos (tools.hash payload)))) [
        | raise e ↦ (disk, raise e)
        | ok digest ↦
            if same_text digest filekey
            then store_file form filekey payload own owner disk
            else (disk, ok (file_answer 409 not_cas))
      ]

  unfoldable pub store : Form → List ℕ → ℕ → List ℕ → Disk → Disk × Result FileAnswer
  unfolding store_block merge_tar ends_with
  store form filekey own owner disk = elim form.filename [
    | none ↦ (disk, ok (file_answer 400 no_payload))
    | some payload ↦
        if ends_with tar_suffix filekey
        then store_tar false payload owner disk
        else (if ends_with (tar_suffix ++ gz_suffix) filekey
            then store_tar true payload owner disk
            else store_block form filekey payload own owner disk)
  ]

abbrev pub size_name : List ℕ
size_name = b's' ∷ b'i' ∷ b'z' ∷ b'e' ∷ []

unfoldable pub handle_file_post :
    Tools → FileTools → List ℕ → Form → Call → Server → Disk → FileHandled
unfolding admit store same_text
handle_file_post tools files filekey form call s disk =
    behind (admit tools (size_name ∷ ku_e_name ∷ ku_n_name ∷ port_name ∷ []) form.args call s) disk
      (λ ku params.
        let own = tools.library.id_of ku in store files form filekey own (tools.id_text own) disk)
