-- ===== src/Tarball/Removal.antt =====
-- flud/TarfileUtils.py: `delete`. A tarball is the list of its members; a name in a header is shorter
-- than the field for it, and sizes are those of the contents, so the copy of the blocks keeps exactly
-- the members that are not deleted.
use flud.Prelude.{
  ℕ, zero, suc, List, [], ◌∷◌, elem, nth, erase, length, map, ◌==◌, ltb, if◌then◌else◌, ok, raise,
}
use flud.Fencode.Values.{same_text, text_eq}
use flud.Tarball.{Member}

-- `remove` of a list, for what is in it
unfoldable pub taken_out : List ℕ → List (List ℕ) → List (List ℕ)
unfolding same_text erase
taken_out x l = elim (erase x l) [ ok rest ↦ rest | raise e ↦ l ]

-- The loop that takes names out of the list that it goes through, by the place in it. Each round
-- moves the place on, and the list never grows, so its first length is enough fuel.
unfoldable pub drop_missing : ℕ → ℕ → List (List ℕ) → List (List ℕ) → List (List ℕ)
unfolding same_text elem nth taken_out
drop_missing zero i tarnames membernames = membernames
drop_missing (suc f) i tarnames membernames = elim (nth membernames i) [
  | raise e ↦ membernames
  | ok x ↦
      drop_missing f (suc i) tarnames
        (if elem x tarnames then membernames else taken_out x membernames)
]

-- The members that the copy keeps.
unfoldable pub kept_members : List (List ℕ) → List Member → List Member
unfolding same_text elem
kept_members membernames [] = []
kept_members membernames (m ∷ ms) =
    let rest = kept_members membernames ms in if elem m.name membernames then rest else m ∷ rest

-- What becomes of the tarball: it stays, its file is removed, or it has the members that are left.
pub data Deletion : Type 0 where
  untouched removed : Deletion
  copied : List Member → Deletion

unfoldable pub delete : List (List ℕ) → List Member → Deletion
unfolding drop_missing kept_members
delete membernames ms =
    let tarnames = map (λ m. m.name) ms in
    let left = drop_missing (length membernames) 0 tarnames membernames in
    if ltb (length left) 1
    then untouched
    else (if length tarnames == length left then removed else copied (kept_members left ms))
