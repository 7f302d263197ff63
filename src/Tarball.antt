-- ===== src/Tarball.antt =====
-- flud/TarfileUtils.py: the check of the members' names, which are hashes of their contents. The tar
-- format and the hash are parameters: a tarball is the list of its members.
pub mod Named
pub mod Removal
mod Tests
use flud.Prelude.{
  ℕ, ◌-◌, Bool, true, false, ◌&&◌, ◌||◌, not, Option, none, some, List, [], ◌∷◌, ◌++◌, Result, ok,
  raise, elem, leb, length, drop, ◌>>=◌, if◌then◌else◌,
}
use flud.Prelude.Int.{pos}
use flud.Fencode.Values.{int_value, same_text, text_eq}
use flud.Fencode.Encode.{fencode}

-- A member of a tarball, with what `extractfile` reads of it, if it gives a file.
pub record Member : Type 0 where
  pub name : List ℕ
  pub is_file : Bool
  pub contents : Option (List ℕ)

unfoldable pub ends_with : List ℕ → List ℕ → Bool
unfolding same_text
ends_with suffix s =
    leb (length suffix) (length s) && same_text (drop (length s - length suffix) s) suffix

abbrev pub meta_suffix : List ℕ
meta_suffix = b'.' ∷ b'm' ∷ b'e' ∷ b't' ∷ b'a' ∷ []

-- The `continue`s of the loop.
unfoldable pub passed_over : List (List ℕ) → Member → Bool
unfolding ends_with same_text
passed_over ignore_names m =
    not m.is_file || (ends_with meta_suffix m.name || elem m.name ignore_names)

module _ (hash : List ℕ → ℕ) (ignore_names : List (List ℕ)) where
  -- Whether the name of a member is the encoded hash of its contents.
  unfoldable pub is_named : Member → Result Bool
  unfolding same_text
  is_named m = elim m.contents [
    | none ↦ ok false
    | some bytes ↦ do
      digest ← fencode false (int_value (pos (hash bytes)))
      ok (same_text m.name digest)
  ]

  -- The loop of `verifyHashes` with its `digests`.
  unfoldable pub verify_loop : List (List ℕ) → List Member → Result (List (List ℕ))
  unfolding passed_over is_named
  verify_loop digests [] = ok digests
  verify_loop digests (m ∷ ms) =
      let skip = verify_loop digests ms in
      let take_in = verify_loop (digests ++ (m.name ∷ [])) ms in
      if passed_over ignore_names m
      then skip
      else (do named ← is_named m; if named then take_in else ok [])

  -- `verifyHashes`, where `none` is a tarball that cannot be opened.
  unfoldable pub verify_hashes : Option (List Member) → Result (List (List ℕ))
  unfolding verify_loop
  verify_hashes none = ok []
  verify_hashes (some members) = verify_loop [] members
