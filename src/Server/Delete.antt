-- ===== src/Server/Delete.antt =====
-- flud/protocol/AiohttpServer.py: `_handle_file_delete`.
use flud.Prelude.{
  ℕ, Bool, true, Option, none, some, List, [], ◌∷◌, Result, ok, raise, get, put, remove, length,
  ltb, ◌>>=◌, if◌then◌else◌,
}
use flud.Prelude.Int.{pos}
use flud.Fencode.Values.{str_value, int_value, same_text, text_eq}
use flud.BlockFile.{open_file, close, del_node}
use flud.BlockFile.Accounting.{has_node, empty_nodes}
use flud.Tarball.{Member}
use flud.Tarball.Removal.{Deletion, untouched, removed, copied}
use flud.Server.Auth.{Server, after_prefix}
use flud.Server.Meta.{Tools, ku_e_name, ku_n_name, port_name, at_name}
use flud.Server.Files.{
  Disk, FileTools, FileAnswer, file_answer, done, absent, meta_name, tar_name, tarballs,
  rewrite_tar, names, Call, admit, behind, FileHandled,
}
use flud.Server.Retrieve.{metakey_name}

-- The members whose names begin with the file's.
unfoldable pub beginning : List ℕ → List (List ℕ) → List (List ℕ)
unfolding after_prefix
beginning filekey [] = []
beginning filekey (n ∷ ns) =
    let rest = beginning filekey ns in
    elim (after_prefix filekey n) [ none ↦ rest | some s ↦ n ∷ rest ]

module _ (tools : FileTools) where
  abbrev pub after_deletion : Bool → List ℕ → Disk → Deletion → Disk
  after_deletion gzipped owner disk untouched = disk
  after_deletion gzipped owner disk removed = remove (tar_name gzipped owner) disk
  after_deletion gzipped owner disk (copied ms) = rewrite_tar tools gzipped owner ms disk

  -- What is deleted from a tarball: the metadata, and the file with it where that is the last.
  abbrev pub deleted_names : List ℕ → List ℕ → List Member → List (List ℕ)
  deleted_names filekey metakey ms =
      let mfilekey = meta_name filekey metakey in
      if ltb 2 (length (beginning filekey (names ms)))
      then mfilekey ∷ []
      else filekey ∷ mfilekey ∷ []

  -- The loop over the tarballs, which ends with the first that can be opened.
  unfoldable pub delete_from :
      List ℕ → List ℕ → List ℕ → Disk → List (Bool × List ℕ) → Disk × Result FileAnswer
  unfolding beginning rewrite_tar same_text
  delete_from filekey metakey owner disk [] = (disk, ok (file_answer 404 absent))
  delete_from filekey metakey owner disk ((gzipped, bytes) ∷ rest) =
      elim (tools.open_tar gzipped bytes) [
        | none ↦ delete_from filekey metakey owner disk rest
        | some ms ↦ (
          after_deletion gzipped owner disk
              (flud.Tarball.Removal.delete (deleted_names filekey metakey ms) ms),
          ok (file_answer 200 done),
        )
      ]

  -- The bytes that are left of a block's file, or nothing where it is removed.
  unfoldable pub delete_block : List ℕ → ℕ → List ℕ → Result (Option (List ℕ))
  unfolding open_file has_node del_node empty_nodes close
  delete_block metakey own file = do
    b ← open_file tools.crc file true
    there ← has_node (int_value (pos own)) b.accounting
    if there
        then (do
          b' ← del_node b (int_value (pos own)) (str_value metakey)
          empty ← empty_nodes b'.accounting
          closed ← close tools.crc b'
          ok (if empty then none else some closed.file))
        else (do closed ← close tools.crc b; ok (some closed.file))

  abbrev pub after_block : List ℕ → Disk → Result (Option (List ℕ)) → Disk × Result FileAnswer
  after_block filekey disk (raise e) = (disk, raise e)
  after_block filekey disk (ok none) = (remove filekey disk, ok (file_answer 200 done))
  after_block filekey disk (ok (some file)) = (put filekey file disk, ok (file_answer 200 done))

  unfoldable pub delete : List ℕ → List ℕ → ℕ → List ℕ → Disk → Disk × Result FileAnswer
  unfolding delete_from delete_block tarballs same_text
  delete filekey metakey own owner disk = elim (get filekey disk) [
    | none ↦ delete_from filekey metakey owner disk (tarballs owner disk)
    | some file ↦ after_block filekey disk (delete_block metakey own file)
  ]

  abbrev pub delete_with : List ℕ → ℕ → List ℕ → Disk → Result (List ℕ) → Disk × Result FileAnswer
  delete_with filekey own owner disk (raise e) = (disk, raise e)
  delete_with filekey own owner disk (ok metakey) = delete filekey metakey own owner disk

unfoldable pub handle_file_delete : Tools → FileTools → List ℕ → Call → Server → Disk → FileHandled
unfolding admit delete same_text
handle_file_delete tools files filekey call s disk =
    behind (admit tools (ku_e_name ∷ ku_n_name ∷ port_name ∷ metakey_name ∷ []) call.query call s)
      disk
      (λ ku params.
        let own = tools.library.id_of ku in
        delete_with files filekey own (tools.id_text own) disk (at_name metakey_name params))
