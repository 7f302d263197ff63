-- ===== src/Scheduler/Chosen.antt =====
-- flud/FludScheduler.py: which files `checkFilesystem` chooses.
use flud.Prelude.{
  ℕ, ◌≡◌, refl, false, List, [], has, elem, All, Bool-cases, inl, inr, ◌⊎◌, if◌then◌else◌, arith,
}
use flud.Fencode.Values.{text_eq}
use flud.Scheduler.{
  Scheduler, Entry, Folder, regular, folder, absent, nothing, item, Found, add_to, add_checked,
  passes, file_changed_stat, check_entry, check_list, check_filesystem, on_disk, selected_paths,
  excluded_paths,
}

-- A path is a file of the tree.
unfoldable mutual
  pub Among : List ℕ → Entry → Type 0
  Among p (regular path mtime) = p ≡ path
  Among p (folder path es) = Within p es
  Among p (absent path) = ⊥

  pub Within : List ℕ → Folder → Type 0
  Within p nothing = ⊥
  Within p (item e es) = Among p e ⊎ Within p es

module _ (s : Scheduler) where
  -- A path that the configuration does not exclude and that has no backup.
  pub record Fresh (path : List ℕ) : Type 0 where
    pub allowed : elem path (excluded_paths s) ≡ false
    pub unsaved : has path s.master_metadata ≡ false

  passes-Fresh : (f : Found) (path : List ℕ) → passes s f path ≡ false → Fresh path
  unfolding passes
  passes-Fresh f path h = record { allowed = ground (arith, h); unsaved = ground (arith, h) }

  module _ (Q : List ℕ → Type 0) where
    All-add_to :
        (path : List ℕ) (set : List (List ℕ)) → Q path → All Q set → All Q (add_to path set)
    unfolding add_to
    All-add_to path set q h = elim (Bool-cases (elem path set)) [
      | inl there ↦ rw there h
      | inr new ↦ rw new (q, h)
    ]

    seen_file :
        (path : List ℕ) (mtime : ℕ) (f : Found)
        → Q path
        → All Q f.changed
        → All Q
            (if file_changed_stat s path mtime
              then (record f { changed = add_to path f.changed })
              else f).changed
    seen_file path mtime f q h = elim (Bool-cases (file_changed_stat s path mtime)) [
      | inl newer ↦ rw newer (All-add_to path f.changed q h)
      | inr same ↦ rw same h
    ]

    mutual
      unfolding check_entry check_list Among Within

      check_entry-All :
          (e : Entry) (f : Found)
          → ((p : List ℕ) → Among p e → Fresh p → Q p)
          → All Q f.changed
          → All Q (check_entry s e f).changed
      check_entry-All (regular path mtime) f good h = elim (Bool-cases (passes s f path)) [
        | inl skip ↦ rw (check_entry, skip) h
        | inr taken ↦
            rw (check_entry, taken)
              (seen_file path mtime f (good path refl (passes-Fresh f path taken)) h)
      ]
      check_entry-All (folder path es) f good h = elim (Bool-cases (passes s f path)) [
        | inl skip ↦ rw (check_entry, skip) h
        | inr taken ↦ rw (check_entry, taken) (check_list-All es (add_checked path f) good h)
      ]
      check_entry-All (absent path) f good h = elim (Bool-cases (passes s f path)) [
        | inl skip ↦ rw (check_entry, skip) h
        | inr taken ↦ rw (check_entry, taken) h
      ]

      check_list-All :
          (es : Folder) (f : Found)
          → ((p : List ℕ) → Within p es → Fresh p → Q p)
          → All Q f.changed
          → All Q (check_list s es f).changed
      check_list-All nothing f good h = h
      check_list-All (item e es) f good h =
          check_list-All es (check_entry s e f) (λ p i. good p (inr i))
            (check_entry-All e f (λ p i. good p (inl i)) h)

  -- A file that may be chosen: it is in the tree, and fresh.
  abbrev pub Chosen : Folder → List ℕ → Type 0
  Chosen tree path = Within path tree × Fresh path

  -- Every path that `checkFilesystem` chooses, for every configuration and everything that is on
  -- disk, is that of a file at or below a selected path; the configuration does not exclude it, and
  -- it has no backup.
  pub check_filesystem-Chosen :
      (disk : List ℕ → Entry)
      → All (Chosen (on_disk disk (selected_paths s))) (check_filesystem s disk)
  unfolding check_filesystem
  check_filesystem-Chosen disk =
      let tree = on_disk disk (selected_paths s) in
      check_list-All (Chosen tree) tree (record { checked = []; changed = [] })
        (λ p i fresh. (i, fresh)) tt
