-- ===== src/Prelude/Text.antt =====
-- Python's methods of texts and bytes, over lists of character codes.
use Prim.Native.Nat.{ℕ, ◌+◌}
use mathlib.Core.Bool.{Bool, true, false, ◌&&◌, ◌||◌}
use mathlib.Core.List.{List, [], ◌∷◌}
use mathlib.Core.Option.{Option, none, some}
use flud.Prelude.Tests.{leb, ◌==◌, if◌then◌else◌}

-- `isspace` of a character
unfoldable pub is_space : ℕ → Bool
is_space c =
    (leb 9 c && leb c 13)
    || ((leb 28 c && leb c 32)
        || ((c == 133 || c == 160)
            || (c == 5760
                || ((leb 8192 c && leb c 8202)
                    || ((c == 8232 || c == 8233) || (c == 8239 || (c == 8287 || c == 12288)))))))

unfoldable pub lstrip : List ℕ → List ℕ
unfolding is_space
lstrip [] = []
lstrip (c ∷ s) = let rest = lstrip s in if is_space c then rest else c ∷ s

-- A character before the rest that is left of a text.
unfoldable pub unless_last_space : ℕ → List ℕ → List ℕ
unfolding is_space
unless_last_space c [] = if is_space c then [] else c ∷ []
unless_last_space c (d ∷ s) = c ∷ d ∷ s

unfoldable pub rstrip : List ℕ → List ℕ
unfolding unless_last_space
rstrip [] = []
rstrip (c ∷ s) = unless_last_space c (rstrip s)

unfoldable pub strip : List ℕ → List ℕ
unfolding lstrip rstrip
strip s = rstrip (lstrip s)

-- `lower` of an ASCII character
unfoldable pub lower : ℕ → ℕ
lower c = if leb 65 c && leb c 90 then c + 32 else c

-- `s.lower().startswith(prefix)`
unfoldable pub starts_lower : List ℕ → List ℕ → Bool
unfolding lower
starts_lower [] s = true
starts_lower (a ∷ p) [] = false
starts_lower (a ∷ p) (c ∷ s) = lower c == a && starts_lower p s

-- `s.split(mark, 1)` where the mark is there, else nothing
unfoldable pub cut : ℕ → List ℕ → Option (List ℕ × List ℕ)
cut mark [] = none
cut mark (c ∷ s) =
    let rest = cut mark s in
    if c == mark
    then some ([], s)
    else elim rest [ none ↦ none | some (before, after) ↦ some (c ∷ before, after) ]

-- `s.split(mark)` of one character
unfoldable pub split_char : ℕ → List ℕ → List (List ℕ)
split_char mark [] = [] ∷ []
split_char mark (c ∷ s) =
    let rest = split_char mark s in
    if c == mark
    then [] ∷ rest
    else elim rest [ [] ↦ (c ∷ []) ∷ [] | first ∷ others ↦ (c ∷ first) ∷ others ]
