-- ===== src/Server/Verified.antt =====
-- flud/protocol/AiohttpServer.py: the proof of storage that a stored block gives.
use flud.Prelude.{
  ℕ, ◌+◌, ◌-◌, ◌<◌, ◌≤◌, ◌^◌, ◌≡◌, refl, ap, true, false, none, some, List, [], ◌++◌, ok, get, put,
  length, arith, take, Bool-cases, inl, inr, drop, length-append,
}
use flud.Prelude.Int.{pos, ◌+ℤ◌}
use flud.Fencode.Values.{Value, int_value, dict_value, IsGood, text_eq}
use flud.Fencode.Encode.{fencode}
use flud.Fencode.Utf8.{utf8_encode}
use flud.BlockFile.{BlockFile, open_file, close, seek, tell}
use flud.BlockFile.Bytes.{pack}
use flud.BlockFile.Data.{Holds, read-Holds, seek-Holds, moved}
use flud.BlockFile.Convert.{convert-open}
use flud.BlockFile.Opens.{opens}
use flud.Tarball.{ends_with}
use flud.Server.Files.{
  Disk, FileTools, FileAnswer, file_answer, digest, tar_suffix, gz_suffix, tarballs,
}
use flud.Server.Store.{Form, stored, store}
use flud.Server.Probe.{VerifyTools, Probe, out_of_range}
use flud.Server.Verify.{verify_block, verify_file, new_owner}
use flud.Server.Blocks.{one_owner, first_one, own_meta, stands, untarred_nowhere, stores}

abbrev pub probe_at : ℕ → ℕ → Probe
probe_at o n = record { offset = pos o; span = pos n; meta = none }

in_range : (o n size : ℕ) → o + n ≤ size → out_of_range (probe_at o n) size ≡ false
unfolding out_of_range ◌+ℤ◌
in_range o n size h = ground arith

close_shut :
    (crc : Value → ℕ) (b : BlockFile)
    → b.writable ≡ false
    → close crc b ≡ ok (record b { closed = true })
unfolding close
close_shut crc b h = elim (Bool-cases b.closed) [
  | inl shut ↦ rw (close, h, shut) refl
  | inr not_shut ↦ rw (close, h, not_shut) refl
]

module _ (tools : FileTools) (verify : VerifyTools) where
  abbrev proof_of : ℕ → ℕ → List ℕ → FileAnswer
  proof_of o n body = file_answer 200 (digest (verify.hash_text (take n (drop o body))))

  -- A file whose data is `body` gives the hash of the part that is asked for.
  proves :
      (file body : List ℕ) (b : BlockFile) (own o n : ℕ)
      → open_file tools.crc file false ≡ ok b
      → Holds b body
      → o + n ≤ length body
      → (left : List ℕ) × (verify_block tools verify (probe_at o n) own file
          ≡ ok (left, proof_of o n body))
  unfolding verify_block new_owner close
  proves file body b own o n opened holds inside =
      let (same, shut) = opens tools.crc file false b opened in
      let long : length body ≤ length file = omega (
        arith,
        ap length same,
        ap length holds.whole,
        length-append (pack 8 (length body)) (body ++ holds.rest),
        length-append body holds.rest,
      ) in
      let (kept, at) = seek-Holds b body (pos o) holds in
      let place : (seek b (pos o)).place - 8 ≡ o =
        unfold tell in omega (arith, at, holds.size, inside) in
      let q = take n (drop ((seek b (pos o)).place - 8) body) in
      let got : q ≡ take n (drop o body) = ap (λ p. take n (drop p body)) place in
      let b' = moved (seek b (pos o)) q in
      let still : b'.writable ≡ false = unfold seek in shut in
      (
        b'.file,
        rw
            (
              verify_block,
              opened,
              in_range o n (length file) (omega (arith, inside, long)),
              read-Holds (seek b (pos o)) body (some (pos n)) kept,
              close_shut tools.crc b' still,
            )
            (ap (λ l. ok (b'.file, file_answer 200 (digest (verify.hash_text l)))) got),
      )

  module _ (form : Form) (filekey payload mk mb text bytes : List ℕ) (own : ℕ)
      (has_payload : form.filename ≡ some payload) (has_key : form.metakey ≡ some mk)
      (has_meta : form.meta ≡ some mb)
      (key_right : fencode false (int_value (pos (tools.hash payload))) ≡ ok filekey)
      (no_tar : ends_with tar_suffix filekey ≡ false)
      (no_gz : ends_with (tar_suffix ++ gz_suffix) filekey ≡ false) (big : 8192 ≤ length payload)
      (small : length payload < 2 ^ 64) (good : IsGood (dict_value (one_owner own mk mb)))
      (is_text : fencode false (dict_value (one_owner own mk mb)) ≡ ok text)
      (is_bytes : utf8_encode text ≡ ok bytes) where
    -- A block of 8192 bytes at least comes with metadata and is stored under its right key, which is
    -- not that of a tarball, where no file has that key, the owner has no tarball, and the accounting
    -- is a Python value that `fencode` encodes: it is stored. A later request of any node to verify
    -- it, with a place and a length that are not negative and end inside the block, and without
    -- metadata, responds with the hash of exactly those bytes of the block, and leaves the directory
    -- as it is.
    pub verify-store :
        (owner : List ℕ) (disk : Disk) (asking : ℕ) (asker : List ℕ) (o n : ℕ)
        → get filekey disk ≡ none
        → tarballs owner disk ≡ []
        → o + n ≤ length payload
        → (disk' : Disk) × (store tools form filekey own owner disk ≡ (disk', ok stored))
          × (verify_file tools verify filekey (probe_at o n) asking asker disk'
              ≡ (disk', ok (proof_of o n payload)))
    unfolding verify_file
    verify-store owner disk asking asker o n new untarred inside =
        let (file, made, (b, opened, holds, acc, at)) =
          convert-open tools.crc payload text bytes (some (int_value (pos own), own_meta mk mb))
            (one_owner own mk mb) false small (first_one own mk mb) good is_text is_bytes in
        let nowhere = untarred_nowhere tools form filekey owner disk untarred in
        let (left, proved) = proves file payload b asking o n opened holds inside in
        let disk' = put filekey file disk in
        (
          disk',
          stores tools form filekey payload mk mb text bytes own has_payload has_key has_meta
              key_right no_tar no_gz big small good is_text is_bytes owner disk disk file new
              nowhere made,
          rw (verify_file, stands filekey file disk, proved) refl,
        )
