-- ===== src/Scheduler/Tests.antt =====
-- flud/FludScheduler.py: the choice of files in a small folder.
use flud.Prelude.{ℕ, ◌≡◌, refl, List, [], ◌∷◌, All, elem, has, get}
use flud.Scheduler.{
  Scheduler, selected, excluded, Entry, regular, folder, nothing, item, check_filesystem, on_disk,
  selected_paths,
}
use flud.Scheduler.Chosen.{Chosen, check_filesystem-Chosen}

-- The folder `d` is selected, its file `e` excluded, and its file `s` has a backup, older than it.
abbrev scheduler : Scheduler
scheduler = record {
  file_config = (b'd' ∷ [], selected) ∷ (b'e' ∷ [], excluded) ∷ [];
  master_metadata = (b's' ∷ [], 100) ∷ [];
}

abbrev disk : List ℕ → Entry
disk path = folder (b'd' ∷ []) (
    item (regular (b'n' ∷ []) 200)
      (item (regular (b'e' ∷ []) 200) (item (regular (b's' ∷ []) 200) nothing)))

-- A file that changed after its backup is not chosen.
only_new : check_filesystem scheduler disk ≡ (b'n' ∷ []) ∷ []
unfolding check_filesystem elem has get
only_new = refl

check_filesystem-Chosen_example :
    All
      (Chosen scheduler (on_disk disk (selected_paths scheduler)))
      (check_filesystem scheduler disk)
check_filesystem-Chosen_example = check_filesystem-Chosen scheduler disk
