-- ===== src/Fencode/Utf8.antt =====
-- flud/fencode.py: `d.encode("utf-8")` and `.decode("utf-8")` as the code uses them, over lists of code
-- points and of bytes. Both are the strict codec: it refuses surrogates, and the decoder refuses
-- sequences that are too long, cut short, or past the last code point.
use flud.Prelude.{
  ℕ, zero, suc, ◌+◌, ◌-◌, ◌*◌, ◌/◌, ◌%◌, ◌<◌, ◌≡◌, refl, Bool, true, false, ◌&&◌, List, [], ◌∷◌,
  ◌++◌, arith, Result, ok, raise, unicode_error, ltb, leb, ◌>>=◌, >>=-eq-ok, not, Bool-cases, inl,
  inr, ap, ◌∙◌, All-append, if◌then◌else◌, All, not,
}
use flud.Fencode.Base64.{IsByte}

unfoldable pub surrogate : ℕ → Bool
surrogate c = leb 55296 c && ltb c 57344

-- The bytes of a code point that has a number of its own.
unfoldable pub utf8_bytes : ℕ → List ℕ
utf8_bytes c =
    if ltb c 128
    then c ∷ []
    else (if ltb c 2048
        then (192 + c / 64) ∷ (128 + c % 64) ∷ []
        else (if ltb c 65536
            then (224 + c / 4096) ∷ (128 + c / 64 % 64) ∷ (128 + c % 64) ∷ []
            else (240 + c / 262144)
              ∷ (128 + c / 4096 % 64)
              ∷ (128 + c / 64 % 64)
              ∷ (128 + c % 64)
              ∷ []))

unfoldable pub utf8_encode : List ℕ → Result (List ℕ)
utf8_encode [] = ok []
utf8_encode (c ∷ s) = elim (surrogate c) [
  | true ↦ raise unicode_error
  | false ↦ do rest ← utf8_encode s; ok (utf8_bytes c ++ rest)
]

-- The first byte of a sequence: how many follow, its bits, and the least code point of that length.
unfoldable pub lead : ℕ → Result (ℕ × ℕ × ℕ)
lead b =
    if ltb b 128
    then ok (0, b, 0)
    else (if leb 194 b && ltb b 224
        then ok (1, b - 192, 128)
        else (if leb 224 b && ltb b 240
            then ok (2, b - 224, 2048)
            else (if leb 240 b && ltb b 245 then ok (3, b - 240, 65536) else raise unicode_error)))

-- Whether a sequence may stand for the code point.
unfoldable pub admitted : ℕ → ℕ → Bool
unfolding surrogate
admitted least c = leb least c && (ltb c 1114112 && not (surrogate c))

-- The decoder between two bytes: how many are to follow, the bits so far, and the least code point.
unfoldable pub utf8_scan : ℕ → ℕ → ℕ → List ℕ → Result (List ℕ)
utf8_scan zero acc least [] = ok []
utf8_scan (suc more) acc least [] = raise unicode_error
utf8_scan zero acc least (b ∷ s) = elim (lead b) [
  | raise e ↦ raise e
  | ok (zero, bits, low) ↦ do rest ← utf8_scan 0 0 0 s; ok (bits ∷ rest)
  | ok (suc more, bits, low) ↦ utf8_scan (suc more) bits low s
]
utf8_scan (suc zero) acc least (b ∷ s) =
    elim (leb 128 b && (ltb b 192 && admitted least (acc * 64 + (b - 128)))) [
      | true ↦ do rest ← utf8_scan 0 0 0 s; ok ((acc * 64 + (b - 128)) ∷ rest)
      | false ↦ raise unicode_error
    ]
utf8_scan (suc (suc more)) acc least (b ∷ s) = elim (leb 128 b && ltb b 192) [
  | true ↦ utf8_scan (suc more) (acc * 64 + (b - 128)) least s
  | false ↦ raise unicode_error
]

unfoldable pub utf8_decode : List ℕ → Result (List ℕ)
unfolding utf8_scan lead admitted
utf8_decode s = utf8_scan 0 0 0 s

-- A code point of Unicode.
abbrev pub IsChar : ℕ → Type 0
IsChar c = c < 1114112

-- The moves of the decoder.
scan_single :
    (b : ℕ) (s : List ℕ)
    → b < 128
    → utf8_scan 0 0 0 (b ∷ s) ≡ (utf8_scan 0 0 0 s >>= λ rest. ok (b ∷ rest))
unfolding utf8_scan lead
scan_single b s h = ground arith

scan_lead :
    (b more bits low : ℕ) (s : List ℕ)
    → lead b ≡ ok (suc more, bits, low)
    → utf8_scan 0 0 0 (b ∷ s) ≡ utf8_scan (suc more) bits low s
unfolding utf8_scan
scan_lead b more bits low s h = rw (h, utf8_scan)

scan_more :
    (more acc low v : ℕ) (s : List ℕ)
    → v < 64
    → utf8_scan (suc (suc more)) acc low ((128 + v) ∷ s) ≡ utf8_scan (suc more) (acc * 64 + v) low s
unfolding utf8_scan
scan_more more acc low v s h =
    let e : 128 + v - 128 ≡ v = omega arith in
    let within : (leb 128 (128 + v) && ltb (128 + v) 192) ≡ true = ground arith in
    ground (arith, within, e)

scan_last :
    (acc low v c : ℕ) (s : List ℕ)
    → v < 64
    → acc * 64 + v ≡ c
    → admitted low c ≡ true
    → utf8_scan 1 acc low ((128 + v) ∷ s) ≡ (utf8_scan 0 0 0 s >>= λ rest. ok (c ∷ rest))
unfolding utf8_scan
scan_last acc low v c s h sum fine =
    let e : acc * 64 + (128 + v - 128) ≡ c = omega arith in
    let within : (leb 128 (128 + v) && ltb (128 + v) 192) ≡ true = ground arith in
    rw (e, utf8_scan) (ground (arith, within, fine))

-- The bytes of one code point are read back as it, whatever follows.
utf8_scan-utf8_bytes :
    (c : ℕ) (s : List ℕ)
    → IsChar c
    → surrogate c ≡ false
    → utf8_scan 0 0 0 (utf8_bytes c ++ s) ≡ (utf8_scan 0 0 0 s >>= λ rest. ok (c ∷ rest))
unfolding utf8_bytes
utf8_scan-utf8_bytes c s h n = elim (Bool-cases (ltb c 128)) [
  | inl one ↦ rw one (scan_single c s (ground arith))
  | inr past ↦ elim (Bool-cases (ltb c 2048)) [
    | inl two ↦
        rw (past, two)
          (scan_lead (192 + c / 64) 0 (c / 64) 128 _ (unfold lead in ground arith)
            ∙ scan_last (c / 64) 128 (c % 64) c s (omega arith) (omega arith)
                (unfold admitted in ground arith))
    | inr past_two ↦ elim (Bool-cases (ltb c 65536)) [
      | inl three ↦
          rw (past, past_two, three)
            (scan_lead (224 + c / 4096) 1 (c / 4096) 2048 _ (unfold lead in ground arith)
              ∙ scan_more 0 (c / 4096) 2048 (c / 64 % 64) _ (omega arith)
              ∙ scan_last (c / 4096 * 64 + c / 64 % 64) 2048 (c % 64) c s (omega arith)
                  (omega arith) (unfold admitted in ground arith))
      | inr four ↦
          rw (past, past_two, four)
            (scan_lead (240 + c / 262144) 2 (c / 262144) 65536 _ (unfold lead in ground arith)
              ∙ scan_more 1 (c / 262144) 65536 (c / 4096 % 64) _ (omega arith)
              ∙ scan_more 0 (c / 262144 * 64 + c / 4096 % 64) 65536 (c / 64 % 64) _ (omega arith)
              ∙ scan_last ((c / 262144 * 64 + c / 4096 % 64) * 64 + c / 64 % 64) 65536 (c % 64) c s
                  (omega arith) (omega arith) (unfold admitted in ground arith))
    ]
  ]
]

-- An encoded text is its first code point and the rest.
utf8_encode_first :
    (c : ℕ) (s bs : List ℕ)
    → utf8_encode (c ∷ s) ≡ ok bs
    → (surrogate c ≡ false)
      × ((rest : List ℕ) × (utf8_encode s ≡ ok rest) × (bs ≡ utf8_bytes c ++ rest))
unfolding utf8_encode
utf8_encode_first c s bs e = elim (Bool-cases (surrogate c)) [
  | inl bad ↦ absurd (ground (arith, e, bad))
  | inr fine ↦
      let chain : (utf8_encode s >>= λ r. ok (utf8_bytes c ++ r)) ≡ ok bs =
        ground (arith, e, fine) in
      let (rest, done, last) = >>=-eq-ok (utf8_encode s) (λ r. ok (utf8_bytes c ++ r)) chain in
      (fine, (rest, done, cc))
]

-- For code points in range: if a text is encoded without an exception, then decoding gives it
-- back.
pub utf8_decode-utf8_encode :
    (s bs : List ℕ) → All IsChar s → utf8_encode s ≡ ok bs → utf8_decode bs ≡ ok s
unfolding utf8_decode
utf8_decode-utf8_encode [] bs h e =
    let empty : bs ≡ [] = unfold utf8_encode in cc in rw empty (unfold utf8_scan in refl)
utf8_decode-utf8_encode (c ∷ s) bs h e =
    let (fine, (rest, done, parts)) = utf8_encode_first c s bs e in
    rw (parts, utf8_scan-utf8_bytes c rest h.0 fine)
      (ap (λ m. m >>= λ r. ok (c ∷ r)) (utf8_decode-utf8_encode s rest h.1 done))

IsByte-utf8_bytes : (c : ℕ) → IsChar c → All IsByte (utf8_bytes c)
unfolding utf8_bytes
IsByte-utf8_bytes c h = ground arith

pub IsByte-utf8_encode : (s bs : List ℕ) → All IsChar s → utf8_encode s ≡ ok bs → All IsByte bs
IsByte-utf8_encode [] bs h e = let empty : bs ≡ [] = unfold utf8_encode in cc in rw empty tt
IsByte-utf8_encode (c ∷ s) bs h e =
    let (fine, (rest, done, parts)) = utf8_encode_first c s bs e in
    rw parts (
      All-append IsByte (utf8_bytes c) rest (IsByte-utf8_bytes c h.0)
        (IsByte-utf8_encode s rest h.1 done))
