-- ===== src/Server/Removed.antt =====
-- flud/protocol/AiohttpServer.py: what a request to delete leaves of a stored block, and what it can
-- take away besides.
use flud.BlockFile.Bytes.{overwrite}
use flud.Prelude.{
  ℕ, ◌<◌, ◌≤◌, ◌^◌, ◌≡◌, refl, ap, ◌∙◌, true, false, none, some, List, [], ◌∷◌, ◌++◌, ok, get, put,
  remove, length, arith, beq_self, inl, inr, Bool-cases, ◌>>=◌, not, ◌==◌, ◌&&◌, ◌||◌, take, ◌+◌,
}
use flud.Prelude.Int.{pos}
use flud.Fencode.Values.{
  Value, int_value, str_value, bytes_value, dict_value, entry, end, same_text, text_eq, IsGood,
  plain, same_key, hashable, same_int,
}
use flud.Fencode.Encode.{fencode}
use flud.Fencode.Utf8.{utf8_encode, surrogate, utf8_bytes}
use flud.BlockFile.{BlockFile, open_file, close, del_node}
use flud.BlockFile.Opens.{opens}
use flud.BlockFile.Convert.{convert-open}
use flud.BlockFile.Accounting.{
  dict_for, get_entry, as_dict, truthy, has_node, drop_node, without, remove_entry, empty_nodes,
  drop_found, put_left,
}
use flud.Tarball.{ends_with}
use flud.Server.Files.{Disk, FileTools, tar_suffix, gz_suffix, tarballs, file_answer, done}
use flud.Server.Store.{Form, stored, store}
use flud.Server.Delete.{delete, delete_block}
use flud.Server.Blocks.{one_owner, first_one, stores, stands, same_key_self, untarred_nowhere}

-- What was put under a new key and removed again has left nothing.
remove-put : (k v : List ℕ) (d : Disk) → get k d ≡ none → remove k (put k v d) ≡ d
unfolding get put remove
remove-put k v [] h = let self : same_text k k ≡ true = beq_self text_eq k in rw self refl
remove-put k v ((j, w) ∷ d) h = elim (Bool-cases (same_text j k)) [
  | inl same ↦ absurd (ground (arith, h, same))
  | inr other ↦
      rw (other, remove, other) (ap (◌∷◌ (j, w)) (remove-put k v d (ground (arith, h, other))))
]

-- An empty accounting is encoded.
written :
    (b : BlockFile)
    → b.accounting ≡ dict_value end
    → (text : List ℕ) × (bytes : List ℕ) × (fencode false b.accounting ≡ ok text)
      × (utf8_encode text ≡ ok bytes)
unfolding fencode utf8_encode surrogate utf8_bytes
written b h = (b'd' ∷ [], b'd' ∷ [], ap (fencode false) h, refl)

-- `close` of a block file whose accounting is empty.
close_empty :
    (crc : Value → ℕ) (b : BlockFile)
    → b.accounting ≡ dict_value end
    → (b' : BlockFile) × (close crc b ≡ ok b')
unfolding close
close_empty crc b h =
    elim (Bool-cases
      (not b.closed && (b.writable && (b.changed || not (crc b.accounting == b.accountingcrc))))) [
        | inl writes ↦
            let (text, bytes, is_text, is_bytes) = written b h in
            (
              record b {
                file = take (b.dataend + length bytes) (overwrite b.dataend bytes b.file);
                closed = true;
              },
              rw (close, writes, is_text, is_bytes) refl,
            )
        | inr stays ↦ (record b { closed = true }, rw (close, stays) refl)
      ]

module _ (crc : Value → ℕ) (own : ℕ) (mk mb : List ℕ) where
  own_there : has_node (int_value (pos own)) (dict_value (one_owner own mk mb)) ≡ ok true
  unfolding has_node dict_for get_entry as_dict same_key hashable same_int
  own_there = let self : (own == own) ≡ true = ground arith in rw self refl

  own_entry :
      get_entry (int_value (pos own)) (one_owner own mk mb)
      ≡ some (dict_value (entry (str_value mk) (bytes_value mb) end))
  unfolding get_entry same_key same_int
  own_entry = let self : (own == own) ≡ true = ground arith in rw self refl

  own_removed : remove_entry (int_value (pos own)) (one_owner own mk mb) ≡ end
  unfolding remove_entry same_key same_int
  own_removed = let self : (own == own) ≡ true = ground arith in rw self refl

  -- The owner's only piece of metadata is dropped.
  nothing_left :
      (k : List ℕ)
      → mk ≡ k
      → without (str_value k) (dict_value (entry (str_value k) (bytes_value mb) end))
        ≡ ok (dict_value end)
  unfolding without truthy dict_for as_dict hashable
  nothing_left [] h = refl
  nothing_left (c ∷ k) h =
      let gone : remove_entry (str_value (c ∷ k)) (entry (str_value (c ∷ k)) (bytes_value mb) end)
          ≡ end =
        unfold remove_entry in rw (same_key_self (c ∷ k)) refl in
      ap (λ es. ok (dict_value es)) gone

  -- And the owner with it.
  dropped :
      drop_node (int_value (pos own)) (str_value mk) (dict_value (one_owner own mk mb))
      ≡ ok (dict_value end)
  unfolding drop_node dict_for as_dict hashable truthy
  dropped =
      let id = int_value (pos own) in
      let es = one_owner own mk mb in
      ap (drop_found id (str_value mk) es) own_entry
      ∙ ap (λ r. r >>= put_left id es) (nothing_left mk refl)
      ∙ ap (λ left. ok (dict_value left)) own_removed

  delete_block_alone :
      (tools : FileTools) (file : List ℕ) (b : BlockFile)
      → open_file tools.crc file true ≡ ok b
      → b.writable ≡ true
      → b.accounting ≡ plain (dict_value (one_owner own mk mb))
      → delete_block tools mk own file ≡ ok none
  unfolding delete_block plain del_node empty_nodes
  delete_block_alone tools file b opened writes acc =
      let there = ap (has_node (int_value (pos own))) acc ∙ own_there in
      let gone = ap (drop_node (int_value (pos own)) (str_value mk)) acc ∙ dropped in
      let deleted : del_node b (int_value (pos own)) (str_value mk)
          ≡ ok (record b { accounting = dict_value end }) =
        rw (del_node, writes, gone) refl in
      let (b', closed) = close_empty tools.crc (record b { accounting = dict_value end }) refl in
      rw (delete_block, opened, there, deleted, closed) refl

-- A block of 8192 bytes at least comes with metadata and is stored under its right key, which is
-- not that of a tarball, where no file has that key, the owner has no tarball, and the accounting
-- is a Python value that `fencode` encodes: it is stored, and a request of its owner to delete it
-- with the key of that metadata succeeds and leaves the directory as it was before.
pub delete-store :
    (tools : FileTools) (form : Form) (filekey payload mk mb text bytes : List ℕ) (own : ℕ)
    (owner : List ℕ) (disk : Disk)
    → form.filename ≡ some payload
    → form.metakey ≡ some mk
    → form.meta ≡ some mb
    → fencode false (int_value (pos (tools.hash payload))) ≡ ok filekey
    → ends_with tar_suffix filekey ≡ false
    → ends_with (tar_suffix ++ gz_suffix) filekey ≡ false
    → 8192 ≤ length payload
    → length payload < 2 ^ 64
    → IsGood (dict_value (one_owner own mk mb))
    → fencode false (dict_value (one_owner own mk mb)) ≡ ok text
    → utf8_encode text ≡ ok bytes
    → get filekey disk ≡ none
    → tarballs owner disk ≡ []
    → (disk' : Disk) × (store tools form filekey own owner disk ≡ (disk', ok stored))
      × (delete tools filekey mk own owner disk' ≡ (disk, ok (file_answer 200 done)))
unfolding delete
delete-store tools form filekey payload mk mb text bytes own owner disk has_payload has_key has_meta
      key_right no_tar no_gz big small good is_text is_bytes new untarred =
    let (file, made, (b, opened, holds, acc, at)) =
      convert-open tools.crc payload text bytes
        (some (int_value (pos own), dict_value (entry (str_value mk) (bytes_value mb) end)))
        (one_owner own mk mb) true small (first_one own mk mb) good is_text is_bytes in
    let writes : b.writable ≡ true = (opens tools.crc file true b opened).1 in
    let alone = delete_block_alone tools.crc own mk mb tools file b opened writes acc in
    (
      put filekey file disk,
      stores tools form filekey payload mk mb text bytes own has_payload has_key has_meta key_right
          no_tar no_gz big small good is_text is_bytes owner disk disk file new
          (untarred_nowhere tools form filekey owner disk untarred) made,
      rw (delete, stands filekey file disk, alone)
          (ap (λ d. (d, ok (file_answer 200 done))) (remove-put filekey file disk new)),
    )
