-- ===== src/BlockFile/Data.antt =====
-- flud/protocol/BlockFile.py: what the methods of a block file do to its data.
use flud.Prelude.{
  ℕ, zero, suc, ◌+◌, ◌-◌, ◌^◌, ◌≤◌, ◌<◌, ◌≡◌, refl, ap, sym, ◌∙◌, true, false, List, [], ◌∷◌, ◌++◌,
  arith, length, take, drop, max, ok, ltb, leb, inl, inr, Bool-cases, ltb→lt, if◌then◌else◌, Option,
  none, some, ◌==◌, min, length-drop,
}
use flud.Prelude.Int.{ℤ, pos, negsuc, pos_part}
use flud.BlockFile.{BlockFile, write, read, read_file, seek, tell}
use flud.BlockFile.Bytes.{pack, overwrite, length-pack, pack_u64_fits}
use flud.BlockFile.Overwrite.{overwrite-append, length-overwrite, overwrite_behind, overwrite_front}

-- An open file whose header holds the length of its data, with the place inside the data, and the
-- bytes behind the data.
pub record Holds (b : BlockFile) (body : List ℕ) : Type 0 where
  pub rest : List ℕ
  pub whole : b.file ≡ pack 8 (length body) ++ (body ++ rest)
  pub size : b.size ≡ length body
  pub dataend : b.dataend ≡ 8 + length body
  pub low : 8 ≤ b.place
  pub high : b.place ≤ b.dataend

pub written :
    (header body rest bytes : List ℕ) (place q : ℕ)
    → length header ≡ 8
    → place ≡ 8 + q
    → q ≤ length body
    → overwrite place bytes (header ++ (body ++ rest))
      ≡ header ++ (overwrite q bytes body ++ drop (q + length bytes - length body) rest)
written header body rest bytes place q eight at inside =
    ap (λ n. overwrite n bytes (header ++ (body ++ rest))) (omega arith)
    ∙ overwrite_behind header bytes (body ++ rest) q
    ∙ ap (λ l. header ++ l) (overwrite-append q bytes body rest inside)

module _ (b : BlockFile) (body bytes : List ℕ) (h : Holds b body) where
  abbrev new : List ℕ
  new = overwrite (b.place - 8) bytes body

  abbrev behind : List ℕ
  behind = drop (b.place - 8 + length bytes - length body) h.rest

  length-new : length new ≡ max (length body) (b.place - 8 + length bytes)
  length-new = length-overwrite (b.place - 8) bytes body (omega (arith, h.high, h.dataend))

  file_after : overwrite b.place bytes b.file ≡ pack 8 (length body) ++ (new ++ behind)
  file_after =
      ap (overwrite b.place bytes) h.whole
      ∙ written (pack 8 (length body)) body h.rest bytes b.place (b.place - 8)
          (length-pack 8 (length body)) (omega (arith, h.low)) (omega (arith, h.high, h.dataend))

  -- The header, where the data grew.
  header_after :
      (n : ℕ)
      → n ≡ length new
      → overwrite 0 (pack 8 n) (overwrite b.place bytes b.file)
        ≡ pack 8 (length new) ++ (new ++ behind)
  header_after n e =
      ap (overwrite 0 (pack 8 n)) file_after
      ∙ overwrite_front (pack 8 n) (pack 8 (length body)) (new ++ behind)
          (omega (arith, length-pack 8 n, length-pack 8 (length body)))
      ∙ ap (λ m. pack 8 m ++ (new ++ behind)) e

-- `write` of bytes to a writable block file that holds `body`, where the place behind them stays
-- below 2 ^ 64: it does not raise. The block file then holds `body` with the bytes written over
-- it from the place on, and the place moves behind them; it is marked as changed, and the
-- accounting stays.
pub write-Holds :
    (b : BlockFile) (body bytes : List ℕ)
    → Holds b body
    → b.writable ≡ true
    → b.place + length bytes < 2 ^ 64
    → (b' : BlockFile) × (write b bytes ≡ ok b')
      × Holds b' (overwrite (b.place - 8) bytes body)
      × (b'.place ≡ b.place + length bytes)
      × (b'.changed ≡ true)
      × (b'.accounting ≡ b.accounting)
unfolding write
write-Holds b body bytes h w small =
    let end = b.place + length bytes in
    let long = length-new b body bytes h in
    elim (Bool-cases (ltb b.dataend end)) [
      | inl past ↦
          let n = b.size + (end - b.dataend) in
          let far : b.dataend < end = ltb→lt b.dataend end past in
          let grown : n ≡ length (new b body bytes h) =
            omega (arith, long, h.size, h.dataend, h.low, far) in
          let packed = pack_u64_fits n (omega (arith, h.size, h.dataend, far)) in
          (
            record b {
              file = overwrite 0 (pack 8 n) (overwrite b.place bytes b.file);
              place = end;
              dataend = end;
              size = n;
              changed = true;
            },
            rw (w, past, packed),
            record {
              rest = behind b body bytes h;
              whole = header_after b body bytes h n grown;
              size = grown;
              dataend = omega (arith, long, h.size, h.dataend, h.low, far);
              low = omega (arith, h.low);
              high = omega arith;
            },
            refl,
            refl,
            refl,
          )
      | inr within ↦
          let near : end ≤ b.dataend = ground (arith, within) in
          let same : length body ≡ length (new b body bytes h) =
            omega (arith, long, h.dataend, h.low, near) in
          (
            record b { file = overwrite b.place bytes b.file; place = end; changed = true },
            rw (w, within),
            record {
              rest = behind b body bytes h;
              whole =
                  file_after b body bytes h
                  ∙ ap (λ m. pack 8 m ++ (new b body bytes h ++ behind b body bytes h)) same;
              size = h.size ∙ same;
              dataend = omega (arith, same, h.dataend);
              low = omega (arith, h.low);
              high = near;
            },
            refl,
            refl,
            refl,
          )
    ]

pub take-append : (xs ys : List ℕ) (n : ℕ) → n ≤ length xs → take n (xs ++ ys) ≡ take n xs
take-append xs ys zero h = refl
take-append [] ys (suc n) h = absurd (omega arith)
take-append (x ∷ xs) ys (suc n) h = ap (◌∷◌ x) (take-append xs ys n (omega arith))

drop-append_left : (xs ys : List ℕ) (n : ℕ) → n ≤ length xs → drop n (xs ++ ys) ≡ drop n xs ++ ys
drop-append_left xs ys zero h = refl
drop-append_left [] ys (suc n) h = absurd (omega arith)
drop-append_left (x ∷ xs) ys (suc n) h = drop-append_left xs ys n (omega arith)

pub drop-append_behind : (xs ys : List ℕ) (n : ℕ) → drop (length xs + n) (xs ++ ys) ≡ drop n ys
drop-append_behind [] ys n = let e : 0 + n ≡ n = omega arith in rw e
drop-append_behind (x ∷ xs) ys n =
    let e : suc (length xs) + n ≡ suc (length xs + n) = omega arith in
    rw e (drop-append_behind xs ys n)

pub take_all : (xs : List ℕ) (n : ℕ) → length xs ≤ n → take n xs ≡ xs
take_all [] zero h = refl
take_all [] (suc n) h = refl
take_all (x ∷ xs) zero h = absurd (omega arith)
take_all (x ∷ xs) (suc n) h = ap (◌∷◌ x) (take_all xs n (omega arith))

-- What the bytes of the file from the place on are, within the data.
window :
    (b : BlockFile) (body : List ℕ) (m : ℕ)
    → Holds b body
    → m ≤ b.dataend - b.place
    → take m (drop b.place b.file) ≡ take m (drop (b.place - 8) body)
window b body m h few =
    let header = pack 8 (length body) in
    let q = b.place - 8 in
    let at : b.place ≡ length header + q = omega (arith, length-pack 8 (length body), h.low) in
    ap (λ n. take m (drop n b.file)) at
    ∙ ap (λ l. take m (drop (length header + q) l)) h.whole
    ∙ ap (take m) (drop-append_behind header (body ++ h.rest) q)
    ∙ ap (take m) (drop-append_left body h.rest q (omega (arith, h.high, h.dataend)))
    ∙ take-append (drop q body) h.rest m (omega (arith, length-drop q body, h.dataend, h.low, few))

-- The part of some bytes that a call asks for.
abbrev pub asked : Option ℤ → List ℕ → List ℕ
asked none bytes = bytes
asked (some (pos n)) bytes = take n bytes
asked (some (negsuc n)) bytes = []

-- The block file after `bytes` were read.
abbrev pub moved : BlockFile → List ℕ → BlockFile
moved b bytes = record b { place = b.place + length bytes }

unmoved : (b : BlockFile) → moved b [] ≡ b
unmoved b = let same : b.place + 0 ≡ b.place = omega arith in ap (λ p. record b { place = p }) same

-- A read of at most what is left of the data.
read_within :
    (b : BlockFile) (body : List ℕ) (m : ℕ)
    → Holds b body
    → m ≤ b.dataend - b.place
    → (if m == 0 then (b, []) else read_file b m)
      ≡ (moved b (take m (drop (b.place - 8) body)), take m (drop (b.place - 8) body))
unfolding read_file
read_within b body zero h few = ap (λ c. (c, [])) (sym (unmoved b))
read_within b body (suc m) h few =
    let some_left : (suc m == 0) ≡ false = ground arith in
    rw (some_left, window b body (suc m) h few)

-- `read` of a block file that holds `body`, for every argument: without a length it returns the
-- data from the place on, with one at most that many bytes of it, and for a negative length
-- nothing. The place moves behind what was read.
pub read-Holds :
    (b : BlockFile) (body : List ℕ) (len : Option ℤ)
    → Holds b body
    → read b len
      ≡ (moved b (asked len (drop (b.place - 8) body)), asked len (drop (b.place - 8) body))
unfolding read read_file
read-Holds b body none h =
    let left = drop (b.place - 8) body in
    let size : length left ≡ b.dataend - b.place =
      omega (arith, length-drop (b.place - 8) body, h.dataend, h.low) in
    let got =
      window b body (b.dataend - b.place) h (omega arith)
      ∙ take_all left (b.dataend - b.place) (omega (arith, size)) in
    let inside : leb b.place b.dataend ≡ true = ground (arith, h.high) in rw (inside, got)
read-Holds b body (some (negsuc n)) h = ap (λ c. (c, [])) (sym (unmoved b))
read-Holds b body (some (pos n)) h =
    let left = drop (b.place - 8) body in
    let size : length left ≡ b.dataend - b.place =
      omega (arith, length-drop (b.place - 8) body, h.dataend, h.low) in
    elim (Bool-cases (ltb b.dataend (b.place + n))) [
      | inl past ↦
          let far = ltb→lt b.dataend (b.place + n) past in
          let all : take (b.dataend - b.place) left ≡ take n left =
            take_all left (b.dataend - b.place) (omega (arith, size))
            ∙ sym (take_all left n (omega (arith, size, far))) in
          rw past (
            read_within b body (b.dataend - b.place) h (omega arith) ∙ ap (λ l. (moved b l, l)) all)
      | inr within ↦
          let near : b.place + n ≤ b.dataend = ground (arith, within) in
          rw within (read_within b body n h (omega (arith, near)))
    ]

-- `seek` on a block file that holds `body`, for every argument: the block file still holds
-- `body`, and `tell` is then the argument, but zero for a negative one, and at most the size.
pub seek-Holds :
    (b : BlockFile) (body : List ℕ) (p : ℤ)
    → Holds b body
    → Holds (seek b p) body × (tell (seek b p) ≡ min (pos_part p) b.size)
unfolding seek tell
seek-Holds b body (negsuc n) h = (
  record {
    rest = h.rest;
    whole = h.whole;
    size = h.size;
    dataend = h.dataend;
    low = omega arith;
    high = omega (arith, h.dataend);
  },
  omega arith,
)
seek-Holds b body (pos n) h =
    let limit = if ltb (b.dataend - 8) n then b.dataend - 8 else n in
    let bound : limit ≡ min n b.size = ground (arith, h.dataend, h.size) in
    (
      record {
        rest = h.rest;
        whole = h.whole;
        size = h.size;
        dataend = h.dataend;
        low = omega arith;
        high = omega (arith, h.dataend, h.size, bound);
      },
      omega (arith, bound),
    )
