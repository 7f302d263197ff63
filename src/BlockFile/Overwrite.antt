-- ===== src/BlockFile/Overwrite.antt =====
-- flud/protocol/BlockFile.py: writes into the parts of a file.
use flud.Prelude.{
  ℕ, zero, suc, ◌+◌, ◌-◌, ◌≤◌, ◌≡◌, refl, ap, ◌∙◌, List, [], ◌∷◌, ◌++◌, arith, length, drop, max,
}
use flud.BlockFile.Bytes.{overlay, overwrite}

pub overlay-nil : (ds : List ℕ) → overlay ds [] ≡ ds
unfolding overlay
overlay-nil [] = refl
overlay-nil (d ∷ ds) = ap (◌∷◌ d) (overlay-nil ds)

drop-nil : (n : ℕ) → drop {A = ℕ} n [] ≡ []
drop-nil zero = refl
drop-nil (suc n) = refl

overlay-drop : (ds bs : List ℕ) → overlay ds bs ≡ ds ++ drop (length ds) bs
unfolding overlay
overlay-drop [] bs = refl
overlay-drop (d ∷ ds) [] =
    ap (◌∷◌ d) (overlay-drop ds [] ∙ ap (λ r. ds ++ r) (drop-nil (length ds)))
overlay-drop (d ∷ ds) (b ∷ bs) = ap (◌∷◌ d) (overlay-drop ds bs)

overlay-append :
    (ds xs rest : List ℕ)
    → overlay ds (xs ++ rest) ≡ overlay ds xs ++ drop (length ds - length xs) rest
unfolding overlay
overlay-append [] xs rest = let none : 0 - length xs ≡ 0 = omega arith in rw none
overlay-append (d ∷ ds) [] rest =
    let whole : suc (length ds) - 0 ≡ suc (length ds) = omega arith in
    rw (overlay-drop (d ∷ ds) rest, overlay-nil ds, whole)
overlay-append (d ∷ ds) (x ∷ xs) rest =
    let less : suc (length ds) - suc (length xs) ≡ length ds - length xs = omega arith in
    rw less (ap (◌∷◌ d) (overlay-append ds xs rest))

-- A write that starts in the data goes on over what is behind the data.
pub overwrite-append :
    (q : ℕ) (ds xs rest : List ℕ)
    → q ≤ length xs
    → overwrite q ds (xs ++ rest) ≡ overwrite q ds xs ++ drop (q + length ds - length xs) rest
unfolding overwrite
overwrite-append zero ds xs rest h =
    let e : 0 + length ds ≡ length ds = omega arith in rw e (overlay-append ds xs rest)
overwrite-append (suc q) ds [] rest h = absurd (omega arith)
overwrite-append (suc q) ds (x ∷ xs) rest h =
    let less : suc q + length ds - suc (length xs) ≡ q + length ds - length xs = omega arith in
    rw less (ap (◌∷◌ x) (overwrite-append q ds xs rest (omega arith)))

length-overlay : (ds xs : List ℕ) → length (overlay ds xs) ≡ max (length xs) (length ds)
unfolding overlay
length-overlay [] xs = omega arith
length-overlay (d ∷ ds) [] = omega (arith, length-overlay ds [])
length-overlay (d ∷ ds) (x ∷ xs) = omega (arith, length-overlay ds xs)

pub length-overwrite :
    (q : ℕ) (ds xs : List ℕ)
    → q ≤ length xs
    → length (overwrite q ds xs) ≡ max (length xs) (q + length ds)
unfolding overwrite
length-overwrite zero ds xs h = omega (arith, length-overlay ds xs)
length-overwrite (suc q) ds [] h = absurd (omega arith)
length-overwrite (suc q) ds (x ∷ xs) h = omega (arith, length-overwrite q ds xs (omega arith))

-- A header keeps what is written behind it, and is itself replaced by one of its length.
pub overwrite_behind :
    (xs ds bs : List ℕ) (q : ℕ) → overwrite (length xs + q) ds (xs ++ bs) ≡ xs ++ overwrite q ds bs
unfolding overwrite
overwrite_behind [] ds bs q = let e : 0 + q ≡ q = omega arith in rw e
overwrite_behind (x ∷ xs) ds bs q =
    let e : suc (length xs) + q ≡ suc (length xs + q) = omega arith in
    rw e (ap (◌∷◌ x) (overwrite_behind xs ds bs q))

pub overwrite_front :
    (ds xs bs : List ℕ) → length ds ≡ length xs → overwrite 0 ds (xs ++ bs) ≡ ds ++ bs
unfolding overwrite overlay
overwrite_front [] [] bs h = refl
overwrite_front [] (x ∷ xs) bs h = absurd (omega arith)
overwrite_front (d ∷ ds) [] bs h = absurd (omega arith)
overwrite_front (d ∷ ds) (x ∷ xs) bs h = ap (◌∷◌ d) (overwrite_front ds xs bs (omega arith))
