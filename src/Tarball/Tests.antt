-- ===== src/Tarball/Tests.antt =====
-- flud/TarfileUtils.py: the check of a concrete tarball.
use flud.Prelude.{ℕ, ◌≡◌, refl, true, some, List, [], ◌∷◌, ok, All, elem}
use flud.Fencode.Base64.{b64encode}
use flud.Fencode.Integers.{int_bytes}
use flud.Fencode.Encode.{fencode}
use flud.Tarball.{Member, verify_hashes}
use flud.Tarball.Named.{Right, checked_names, verify_hashes-Right}

-- A block under the encoding of its hash, and its metadata.
abbrev block_name : List ℕ
block_name = b'o' ∷ b'A' ∷ b'A' ∷ b'U' ∷ b'=' ∷ []

abbrev members : List Member
members =
    (record { name = block_name; is_file = true; contents = some (1 ∷ 2 ∷ []) })
    ∷ (record {
      name = b'o' ∷ b'.' ∷ b'm' ∷ b'e' ∷ b't' ∷ b'a' ∷ [];
      is_file = true;
      contents = some (3 ∷ []);
    })
    ∷ []

verified : verify_hashes (λ bytes. 5) [] (some members) ≡ ok (block_name ∷ [])
unfolding verify_hashes elem fencode b64encode int_bytes
verified = refl

verify_hashes-Right_example :
    (block_name ∷ [] ≡ checked_names [] members) × All (Right (λ bytes. 5) []) members
verify_hashes-Right_example =
    verify_hashes-Right (λ bytes. 5) [] members (block_name ∷ []) verified (λ e. cc)
