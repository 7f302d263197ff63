-- ===== src/Scheduler.antt =====
-- flud/FludScheduler.py and flud/CheckboxState.py: the choice of the files to back up. A path is a
-- text, and the files on disk are a tree without links.
pub mod Chosen
mod Tests
use flud.Prelude.{
  ℕ, Bool, true, false, not, ◌&&◌, ◌||◌, Option, none, some, List, [], ◌∷◌, Dict, get, has, elem,
  ltb, keys, if◌then◌else◌,
}
use flud.Fencode.Values.{same_text, text_eq}

-- `CheckboxState`
pub data CheckboxState : Type 0 where
  unselected selected selected_child selected_parent excluded excluded_child : CheckboxState

unfoldable pub is_selected : CheckboxState → Bool
is_selected selected = true
is_selected selected_child = true
is_selected unselected = false
is_selected selected_parent = false
is_selected excluded = false
is_selected excluded_child = false

unfoldable pub is_excluded : CheckboxState → Bool
is_excluded excluded = true
is_excluded excluded_child = true
is_excluded unselected = false
is_excluded selected = false
is_excluded selected_child = false
is_excluded selected_parent = false

-- What is at a path: a file with its time of change, a folder with its entries, or neither.
mutual
  pub data Entry : Type 0 where
    regular : List ℕ → ℕ → Entry
    folder : List ℕ → Folder → Entry
    absent : List ℕ → Entry

  pub data Folder : Type 0 where
    nothing : Folder
    item : Entry → Folder → Folder

-- `master_metadata` has the time of the backup of each path.
pub record Scheduler : Type 0 where
  pub file_config : Dict (List ℕ) CheckboxState
  pub master_metadata : Dict (List ℕ) ℕ

-- `fileconfigSelected` and `fileconfigExcluded`
unfoldable pub paths_with : (CheckboxState → Bool) → Dict (List ℕ) CheckboxState → List (List ℕ)
paths_with test [] = []
paths_with test ((path, state) ∷ config) =
    let rest = paths_with test config in if test state then path ∷ rest else rest

unfoldable pub selected_paths : Scheduler → List (List ℕ)
unfolding paths_with is_selected
selected_paths s = paths_with is_selected s.file_config

unfoldable pub excluded_paths : Scheduler → List (List ℕ)
unfolding paths_with is_excluded
excluded_paths s = paths_with is_excluded s.file_config

-- `fileChangedStat` of a path that is there, where `mtime` is its time of change
unfoldable pub file_changed_stat : Scheduler → List ℕ → ℕ → Bool
unfolding same_text
file_changed_stat s path mtime = elim (get path s.master_metadata) [
  | none ↦ true
  | some change_time ↦ ltb change_time mtime
]

-- The sets `checkedFiles` and `changedFiles`.
pub record Found : Type 0 where
  pub checked : List (List ℕ)
  pub changed : List (List ℕ)

unfoldable pub add_to : List ℕ → List (List ℕ) → List (List ℕ)
unfolding same_text
add_to path set = if elem path set then set else path ∷ set

abbrev pub add_checked : List ℕ → Found → Found
add_checked path f = record f { checked = add_to path f.checked }

-- Whether `checkList` passes over the path.
unfoldable pub passes : Scheduler → Found → List ℕ → Bool
unfolding excluded_paths same_text
passes s f path =
    elem path f.checked || (elem path (excluded_paths s) || has path s.master_metadata)

unfoldable mutual
  unfolding passes file_changed_stat add_to

  pub check_entry : Scheduler → Entry → Found → Found
  check_entry s (regular path mtime) f =
      let changed = record f { changed = add_to path f.changed } in
      let seen = (if file_changed_stat s path mtime then changed else f) in
      if passes s f path then f else add_checked path seen
  check_entry s (folder path entries) f =
      let within = check_list s entries (add_checked path f) in
      if passes s f path then f else add_checked path within
  check_entry s (absent path) f = if passes s f path then f else add_checked path f

  pub check_list : Scheduler → Folder → Found → Found
  check_list s nothing f = f
  check_list s (item e es) f = check_list s es (check_entry s e f)

-- What is on disk at the paths.
abbrev pub on_disk : (List ℕ → Entry) → List (List ℕ) → Folder
on_disk disk [] = nothing
on_disk disk (path ∷ paths) = item (disk path) (on_disk disk paths)

-- `checkFilesystem`, where `disk` is what is on disk at a path
unfoldable pub check_filesystem : Scheduler → (List ℕ → Entry) → List (List ℕ)
unfolding check_list selected_paths
check_filesystem s disk =
    (check_list s (on_disk disk (selected_paths s)) (record { checked = []; changed = [] })).changed
