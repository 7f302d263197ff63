-- ===== src/Config/Manifest.antt =====
-- flud/FludConfig.py: what `getFromManifest` finds after `updateManifest`.
use flud.Prelude.{
  ℕ, ◌≡◌, refl, sym, ap, ◌∙◌, true, false, some, List, arith, Bool-cases, inl, inr, if◌then◌else◌,
}
use flud.Fencode.Values.{
  Value, none_value, bool_value, int_value, bytes_value, str_value, fencoded_value, list_value,
  tuple_value, dict_value, Entries, end, entry, same_key, same_text, same_text_iff,
}
use flud.Fencode.Decode.{put_entry}
use flud.BlockFile.Accounting.{get_entry}
use flud.Config.{update_manifest, get_from_manifest}

same_key_str : (j : Value) (s : List ℕ) → same_key j (str_value s) ≡ true → j ≡ str_value s
unfolding same_key
same_key_str none_value s h = cc
same_key_str (bool_value b) s h = cc
same_key_str (int_value n) s h = cc
same_key_str (bytes_value t) s h = cc
same_key_str (str_value t) s h = ap str_value ((same_text_iff t s).0 h)
same_key_str (fencoded_value t) s h = cc
same_key_str (list_value xs) s h = cc
same_key_str (tuple_value xs) s h = cc
same_key_str (dict_value es) s h = cc

same_key-str_str : (s t : List ℕ) → same_key (str_value s) (str_value t) ≡ same_text s t
unfolding same_key
same_key-str_str s t = refl

differ :
    (f g : List ℕ) (j : Value)
    → same_key j (str_value f) ≡ false
    → same_key j (str_value g) ≡ true
    → same_text f g ≡ false
differ f g j other mine = elim (Bool-cases (same_text f g)) [
  | inl same ↦
      let f=g : f ≡ g = (same_text_iff f g).0 same in
      let clash : true ≡ false = sym mine ∙ ap (λ x. same_key j (str_value x)) (sym f=g) ∙ other in
      absurd cc
  | inr apart ↦ apart
]

get_entry-put_entry :
    (f g : List ℕ) (v : Value) (m : Entries)
    → get_entry (str_value g) (put_entry (str_value f) v m)
      ≡ (if same_text f g then some v else get_entry (str_value g) m)
unfolding get_entry put_entry
get_entry-put_entry f g v end = rw (same_key-str_str f g)
get_entry-put_entry f g v (entry j w m) = elim (Bool-cases (same_key j (str_value f))) [
  | inl there ↦
      let same : same_key j (str_value g) ≡ same_text f g =
        ap (λ x. same_key x (str_value g)) (same_key_str j f there) ∙ same_key-str_str f g in
      rw (there, same) (ground arith)
  | inr other ↦
      let rest = get_entry-put_entry f g v m in
      elim (Bool-cases (same_key j (str_value g))) [
        | inl mine ↦
            let apart : same_text f g ≡ false = differ f g j other mine in
            rw (other, mine, apart) refl
        | inr elsewhere ↦ rw (other, elsewhere) rest
      ]
]

-- After `updateManifest` of a name, `getFromManifest` gives the new value for that name, and for
-- every other name what it gave before.
pub get_from_manifest-update_manifest :
    (f g : List ℕ) (v : Value) (m : Entries)
    → get_from_manifest g (update_manifest f v m)
      ≡ (if same_text f g then v else get_from_manifest g m)
unfolding get_from_manifest update_manifest
get_from_manifest-update_manifest f g v m =
    rw (get_from_manifest, get_entry-put_entry f g v m)
      elim (Bool-cases (same_text f g)) [ inl same ↦ rw same refl | inr other ↦ rw other refl ]
