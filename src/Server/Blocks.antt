-- ===== src/Server/Blocks.antt =====
-- flud/protocol/AiohttpServer.py: what becomes of a block that is stored in a file of its own.
use flud.Prelude.{
  ℕ, ◌<◌, ◌≤◌, ◌^◌, ◌≡◌, refl, ap, ◌∙◌, true, false, Option, none, some, List, [], ◌++◌, ok, get,
  put, length, ltb, arith, get-put, beq_self,
}
use flud.Prelude.Int.{pos}
use flud.Fencode.Values.{
  Value, int_value, str_value, bytes_value, dict_value, Entries, entry, end, same_text, text_eq,
  IsGood, same_key,
}
use flud.Fencode.Encode.{fencode}
use flud.Fencode.Utf8.{utf8_encode}
use flud.BlockFile.{BlockFile, convert, first_accounting}
use flud.Tarball.{ends_with}
use flud.Server.Files.{Disk, FileTools, tar_suffix, gz_suffix, tarballs}
use flud.Server.Store.{
  Form, stored, store, store_block, store_file, store_new, find_tarred, meta_dict,
}

-- The accounting of one owner with one piece of metadata.
abbrev pub one_owner : ℕ → List ℕ → List ℕ → Entries
one_owner own mk mb =
    entry (int_value (pos own)) (dict_value (entry (str_value mk) (bytes_value mb) end)) end

pub first_one :
    (own : ℕ) (mk mb : List ℕ)
    → first_accounting
        (some (int_value (pos own), dict_value (entry (str_value mk) (bytes_value mb) end)))
      ≡ ok (one_owner own mk mb)
unfolding first_accounting
first_one own mk mb = refl

abbrev pub own_meta : List ℕ → List ℕ → Value
own_meta mk mb = dict_value (entry (str_value mk) (bytes_value mb) end)

-- What a node asks of the metadata: all of it, or the entry of its key.
pub data Asks (mk : List ℕ) : Option (List ℕ) → Type 0 where
  all_of_it : Asks mk none
  its_key : Asks mk (some mk)

pub same_key_self : (mk : List ℕ) → same_key (str_value mk) (str_value mk) ≡ true
unfolding same_key
same_key_self mk = beq_self text_eq mk

-- An owner without a tarball has the file in none.
pub untarred_nowhere :
    (tools : FileTools) (form : Form) (filekey owner : List ℕ) (disk : Disk)
    → tarballs owner disk ≡ []
    → find_tarred tools form filekey owner (tarballs owner disk) disk ≡ (disk, false)
unfolding find_tarred
untarred_nowhere tools form filekey owner disk untarred =
    ap (λ l. find_tarred tools form filekey owner l disk) untarred

pub stands : (key file : List ℕ) (disk : Disk) → get key (put key file disk) ≡ some file
stands key file disk =
    get-put key key file disk
    ∙ (let self : same_text key key ≡ true = beq_self text_eq key in rw self refl)

module _ (tools : FileTools) where
  module _ (form : Form) (filekey payload mk mb text bytes : List ℕ) (own : ℕ)
      (has_payload : form.filename ≡ some payload) (has_key : form.metakey ≡ some mk)
      (has_meta : form.meta ≡ some mb)
      (key_right : fencode false (int_value (pos (tools.hash payload))) ≡ ok filekey)
      (no_tar : ends_with tar_suffix filekey ≡ false)
      (no_gz : ends_with (tar_suffix ++ gz_suffix) filekey ≡ false) (big : 8192 ≤ length payload)
      (small : length payload < 2 ^ 64) (good : IsGood (dict_value (one_owner own mk mb)))
      (is_text : fencode false (dict_value (one_owner own mk mb)) ≡ ok text)
      (is_bytes : utf8_encode text ≡ ok bytes) where
    form_meta : meta_dict form ≡ own_meta mk mb
    form_meta = rw (has_key, has_meta) refl

    -- A block that is new, and not in a tarball, is converted.
    pub stores :
        (owner : List ℕ) (disk disk' : Disk) (file : List ℕ)
        → get filekey disk ≡ none
        → find_tarred tools form filekey owner (tarballs owner disk) disk ≡ (disk', false)
        → convert payload (some (int_value (pos own), own_meta mk mb)) ≡ ok file
        → store tools form filekey own owner disk ≡ (put filekey file disk', ok stored)
    unfolding store store_block store_file store_new
    stores owner disk disk' file new not_there made =
        let self : same_text filekey filekey ≡ true = beq_self text_eq filekey in
        let long : ltb (length payload) 8192 ≡ false = ground (arith, big) in
        rw
          (
            store, has_payload, no_tar, no_gz, store_block, key_right, self, store_file, new,
            not_there, long, store_new, form_meta, made,
          )
          refl
