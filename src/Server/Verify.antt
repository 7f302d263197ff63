-- ===== src/Server/Verify.antt =====
-- flud/protocol/AiohttpServer.py: `_handle_hash_get`.
use flud.Prelude.{
  ℕ, Bool, true, false, Option, none, some, List, [], ◌∷◌, ◌++◌, Result, ok, raise, Dict, get, put,
  remove, elem, length, ◌>>=◌, if◌then◌else◌,
}
use flud.Prelude.Int.{pos}
use flud.Fencode.Values.{
  Value, int_value, str_value, bytes_value, dict_value, entry, end, same_text, text_eq,
}
use flud.BlockFile.{BlockFile, open_file, close, seek, read, add_node}
use flud.Tarball.{Member}
use flud.Tarball.Removal.{Deletion, untouched, removed, copied}
use flud.Server.Auth.{Server}
use flud.Server.Meta.{Tools, ku_e_name, ku_n_name, port_name}
use flud.Server.Files.{
  Disk, FileTools, FileAnswer, file_answer, absent, bad_range, bad_key, digest, meta_name, tar_name,
  tarballs, rewrite_tar, names, file_member, last_member, Call, admit, behind, FileHandled,
}
use flud.Server.Retrieve.{read_member}
use flud.Server.Probe.{
  VerifyTools, Probe, out_of_range, has_separators, read_range, query_meta, offset_name,
  length_name,
}

abbrev pub is_some : Option (List ℕ × Value) → Bool
is_some none = false
is_some (some m) = true

-- The members that are left behind a deletion.
abbrev pub members_left : List Member → Deletion → List Member
members_left ms untouched = ms
members_left ms removed = []
members_left ms (copied kept) = kept

-- `meta[1] != stored_meta`
abbrev pub is_stored : Value → List ℕ → Bool
is_stored (bytes_value b) stored = same_text b stored
is_stored v stored = false

module _ (tools : FileTools) (verify : VerifyTools) where
  -- A plain tarball with its members; a gzipped one is unpacked into it.
  unfoldable pub unpack_tar : Bool → List ℕ → List Member → Disk → Disk
  unfolding same_text
  unpack_tar true owner ms disk =
      put (tar_name false owner) (tools.pack_tar false ms) (remove (tar_name true owner) disk)
  unpack_tar false owner ms disk = put (tar_name false owner) (tools.pack_tar false ms) disk

  -- The metadata goes behind the members. What is not bytes raises when the tarball is unpacked.
  unfoldable pub write_meta : Bool → List ℕ → List ℕ → Value → List Member → Disk → Disk × Bool
  unfolding rewrite_tar unpack_tar
  write_meta gzipped owner name (bytes_value b) ms disk =
      (rewrite_tar tools gzipped owner (ms ++ (file_member name b ∷ [])) disk, true)
  write_meta gzipped owner name v ms disk = (unpack_tar gzipped owner ms disk, false)

  -- The metadata of a tarball's file, anew where it differs, and whether nothing raised.
  unfoldable pub renew_meta : Bool → List ℕ → List ℕ → Value → List Member → Disk → Disk × Bool
  unfolding write_meta read_member last_member same_text elem
  renew_meta gzipped owner name v ms disk = elim (elem name (names ms)) [
    | false ↦ write_meta gzipped owner name v ms disk
    | true ↦ elim (read_member (last_member name ms)) [
      | raise e ↦ (disk, false)
      | ok stored ↦
          if is_stored v stored
          then (disk, true)
          else write_meta gzipped owner name v
              (members_left ms (flud.Tarball.Removal.delete (name ∷ []) ms)) disk
    ]
  ]

  -- The response for the data, unless the metadata raised.
  abbrev pub answered : List ℕ → Disk × Bool → Disk × Option FileAnswer
  answered data' (disk, true) = (disk, some (file_answer 200 (digest (verify.hash_text data'))))
  answered data' (disk, false) = (disk, none)

  abbrev pub with_meta :
      List ℕ → Option (List ℕ × Value) → Bool → List ℕ → List Member → Disk → Disk × Bool
  with_meta filekey none gzipped owner ms disk = (disk, true)
  with_meta filekey (some (k, v)) gzipped owner ms disk =
      renew_meta gzipped owner (meta_name filekey k) v ms disk

  -- A tarball that can be opened: the directory, and the response if it gives one. What raises is
  -- passed over.
  unfoldable pub verify_tarred :
      List ℕ → Probe → Bool → List ℕ → List Member → Disk → Disk × Option FileAnswer
  unfolding out_of_range renew_meta last_member
  verify_tarred filekey probe gzipped owner ms disk = elim (last_member filekey ms) [
    | none ↦ (disk, none)
    | some m ↦ elim (out_of_range probe (verify.size m)) [
      | true ↦ (disk, some (file_answer 400 bad_range))
      | false ↦ elim m.contents [
        | none ↦ (disk, none)
        | some bytes ↦ elim (verify.read_at bytes probe.offset probe.span) [
          | raise e ↦ (disk, none)
          | ok got ↦ answered got (with_meta filekey probe.meta gzipped owner ms disk)
        ]
      ]
    ]
  ]

  -- The loop over the tarballs, which were there when it began.
  unfoldable pub verify_from :
      List ℕ → Probe → List ℕ → List (Bool × List ℕ) → Disk → Disk × Result FileAnswer
  unfolding verify_tarred same_text
  verify_from filekey probe owner [] disk = (disk, ok (file_answer 404 absent))
  verify_from filekey probe owner ((gzipped, bytes) ∷ rest) disk =
      elim (get (tar_name gzipped owner) disk) [
        | none ↦ verify_from filekey probe owner rest disk
        | some now ↦ elim (tools.open_tar gzipped now) [
          | none ↦ verify_from filekey probe owner rest disk
          | some ms ↦
              let (disk', got) = verify_tarred filekey probe gzipped owner ms disk in
              elim got [
                | some answer ↦ (disk', ok answer)
                | none ↦ verify_from filekey probe owner rest disk'
              ]
        ]
      ]

  -- A request with metadata makes who asks an owner.
  unfoldable pub new_owner : Probe → ℕ → BlockFile → Result BlockFile
  unfolding add_node
  new_owner probe own b = elim probe.meta [
    | none ↦ ok b
    | some (k, v) ↦ add_node b (int_value (pos own)) (dict_value (entry (str_value k) v end))
  ]

  -- A block in a file of its own, with the bytes of the file that are left. The size that the range is
  -- held against is that of the file, with its header and its accounting.
  unfoldable pub verify_block : Probe → ℕ → List ℕ → Result (List ℕ × FileAnswer)
  unfolding open_file out_of_range seek read new_owner close
  verify_block probe own file = do
    b ← open_file tools.crc file (is_some probe.meta)
    if out_of_range probe (length file)
        then (do closed ← close tools.crc b; ok (closed.file, file_answer 400 bad_range))
        else (do
          let (b', got) = read (seek b probe.offset) (some probe.span)
          b'' ← new_owner probe own b'
          closed ← close tools.crc b''
          ok (closed.file, file_answer 200 (digest (verify.hash_text got))))

  -- A file that is opened for reading alone stays.
  abbrev pub after_verify :
      List ℕ
      → Option (List ℕ × Value)
      → Disk
      → Result (List ℕ × FileAnswer)
      → Disk × Result FileAnswer
  after_verify filekey meta disk (raise e) = (disk, raise e)
  after_verify filekey none disk (ok (file, answer)) = (disk, ok answer)
  after_verify filekey (some m) disk (ok (file, answer)) = (put filekey file disk, ok answer)

  unfoldable pub verify_file : List ℕ → Probe → ℕ → List ℕ → Disk → Disk × Result FileAnswer
  unfolding verify_block verify_from tarballs same_text
  verify_file filekey probe own owner disk = elim (get filekey disk) [
    | none ↦ verify_from filekey probe owner (tarballs owner disk) disk
    | some file ↦ after_verify filekey probe.meta disk (verify_block probe own file)
  ]

-- The handler behind the authentication, in the order of the code's checks.
unfoldable pub verify_with :
    FileTools
    → VerifyTools
    → List ℕ
    → Dict (List ℕ) (List ℕ)
    → Dict (List ℕ) (List (List ℕ))
    → ℕ
    → List ℕ
    → Disk
    → Disk × Result FileAnswer
unfolding has_separators query_meta verify_file
verify_with files verify filekey params query own owner disk = elim (read_range verify params) [
  | raise e ↦ (disk, raise e)
  | ok (offset, span) ↦
      if has_separators filekey
      then (disk, ok (file_answer 400 bad_key))
      else elim (query_meta query) [
        | raise e ↦ (disk, raise e)
        | ok meta ↦
            verify_file files verify filekey (record { offset = offset; span = span; meta = meta })
              own owner disk
      ]
]

unfoldable pub handle_hash_get :
    Tools → FileTools → VerifyTools → List ℕ → Call → Server → Disk → FileHandled
unfolding admit verify_with
handle_hash_get tools files verify filekey call s disk =
    behind
      (admit tools (ku_e_name ∷ ku_n_name ∷ port_name ∷ offset_name ∷ length_name ∷ []) call.query
        call s)
      disk
      (λ ku params.
        let own = tools.library.id_of ku in
        verify_with files verify filekey params call.query own (tools.id_text own) disk)
