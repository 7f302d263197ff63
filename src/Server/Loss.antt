-- ===== src/Server/Loss.antt =====
-- flud/protocol/AiohttpServer.py and TarfileUtils.py: a request to delete a file that is in no tarball.
use flud.Prelude.{
  ℕ, ◌≡◌, ◌≢◌, refl, ap, ◌∙◌, true, false, none, some, List, [], ◌∷◌, ok, get, remove, elem,
  Bool-cases, inl, inr, Option-cases, beq_self, erase, if◌then◌else◌,
}
use flud.Fencode.Values.{same_text, text_eq, same_text_iff}
use flud.Tarball.{Member}
use flud.Tarball.Removal.{removed, drop_missing, taken_out, kept_members}
use flud.Server.Auth.{after_prefix}
use flud.Server.Files.{Disk, FileTools, file_answer, done, tar_name, tarballs, meta_name}
use flud.Server.Delete.{delete, delete_from, deleted_names, beginning}

differs : (n filekey : List ℕ) → n ≢ filekey → same_text n filekey ≡ false
differs n filekey other = elim (Bool-cases (same_text n filekey)) [
  | inl same ↦ absurd (other ((same_text_iff n filekey).0 same))
  | inr differ ↦ differ
]

-- The first name is taken out, and the second is then passed over.
left_over :
    (filekey mfilekey n : List ℕ)
    → n ≢ filekey
    → drop_missing 2 0 (n ∷ []) (filekey ∷ mfilekey ∷ []) ≡ mfilekey ∷ []
unfolding drop_missing elem taken_out
left_over filekey mfilekey n other =
    let self : same_text filekey filekey ≡ true = beq_self text_eq filekey in
    let out : taken_out filekey (filekey ∷ mfilekey ∷ []) ≡ mfilekey ∷ [] =
      rw (taken_out, erase, self) refl in
    let names : List (List ℕ) = filekey ∷ mfilekey ∷ [] in
    let first : (if elem filekey (n ∷ []) then names else taken_out filekey names) ≡ mfilekey ∷ [] =
      rw (differs n filekey other) out in
    ap (drop_missing 1 1 (n ∷ [])) first

all_removed :
    (filekey mfilekey : List ℕ) (m : Member)
    → m.name ≢ filekey
    → flud.Tarball.Removal.delete (filekey ∷ mfilekey ∷ []) (m ∷ []) ≡ removed
unfolding flud.Tarball.Removal.delete
all_removed filekey mfilekey m other =
    rw (flud.Tarball.Removal.delete, left_over filekey mfilekey m.name other) refl

module _ (tools : FileTools) where
  both_names :
      (filekey metakey : List ℕ) (m : Member)
      → deleted_names tools filekey metakey (m ∷ []) ≡ filekey ∷ meta_name filekey metakey ∷ []
  unfolding beginning
  both_names filekey metakey m = elim (Option-cases (after_prefix filekey m.name)) [
    | inl far ↦ rw (beginning, far) refl
    | inr (rest, begins) ↦ rw (beginning, begins) refl
  ]

  -- An owner has a plain tarball with one member alone and no gzipped one. A request of the owner
  -- to delete a file that is not stored, under a name that is not that of the member, with every
  -- metakey, succeeds and removes the tarball.
  pub delete-removed :
      (filekey metakey owner bytes : List ℕ) (own : ℕ) (m : Member) (disk : Disk)
      → get filekey disk ≡ none
      → get (tar_name true owner) disk ≡ none
      → get (tar_name false owner) disk ≡ some bytes
      → tools.open_tar false bytes ≡ some (m ∷ [])
      → m.name ≢ filekey
      → delete tools filekey metakey own owner disk
        ≡ (remove (tar_name false owner) disk, ok (file_answer 200 done))
  unfolding delete delete_from tarballs
  delete-removed filekey metakey owner bytes own m disk new no_gz there opens other =
      let gone =
        ap (λ l. flud.Tarball.Removal.delete l (m ∷ [])) (both_names filekey metakey m)
        ∙ all_removed filekey (meta_name filekey metakey) m other in
      rw (delete, new, tarballs, no_gz, there, delete_from, opens, gone) refl
