-- ===== src/Server/Parts.antt =====
-- flud/protocol/AiohttpServer.py: the response for a block with the metadata that is told of it.
use flud.Prelude.{
  ℕ, ◌≡◌, refl, List, [], ◌∷◌, ◌++◌, ok, arith, All, All-append, ◌==◌, inl, inr, Bool-cases,
  if◌then◌else◌,
}
use flud.Server.Multipart.{dashes}
use flud.Server.Body.{flat, build_parts-flat}
use flud.Server.Files.{file_answer, whole, parted, meta_name}
use flud.Server.Retrieve.{respond}
use flud.Client.Tokens.{IsAscii}

-- The parts of a response beside the payload.
abbrev pub parts_for : List ℕ → ℕ → ℕ → List ℕ → List ℕ → List (List ℕ × List ℕ)
parts_for filekey asking own mk mb = if own == asking then (meta_name filekey mk, mb) ∷ [] else []

-- The response with the parts for a node.
pub responds :
    (filekey payload boundary mk mb : List ℕ) (asking own : ℕ)
    → All IsAscii filekey
    → All IsAscii mk
    → All IsAscii boundary
    → respond (parts_for filekey asking own mk mb) filekey payload boundary
      ≡ ok (
          file_answer 200 (
            if own == asking
            then parted
                (flat (dashes ++ boundary) ((meta_name filekey mk, mb) ∷ (filekey, payload) ∷ []))
                boundary
            else whole payload))
unfolding respond
responds filekey payload boundary mk mb asking own key_ascii mk_ascii ascii =
    let ending : All IsAscii (b'.' ∷ b'm' ∷ b'e' ∷ b't' ∷ b'a' ∷ []) = ground arith in
    let named : All IsAscii (meta_name filekey mk) =
      All-append IsAscii filekey _ key_ascii
        (omega arith, All-append IsAscii mk _ mk_ascii ending) in
    let built =
      build_parts-flat boundary ascii ((meta_name filekey mk, mb) ∷ (filekey, payload) ∷ [])
        (named, (key_ascii, tt)) in
    elim (Bool-cases (own == asking)) [
      | inl same ↦ rw (same, built) refl
      | inr other ↦ rw other refl
    ]
