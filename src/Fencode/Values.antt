-- ===== src/Fencode/Values.antt =====
-- flud/fencode.py: the Python values that `fencode` takes, and Python's `==` and `hash` on them.
use flud.Prelude.{
  Eq, ℕ, suc, ◌≡◌, refl, Bool, true, false, ◌&&◌, List, [], ◌∷◌, ◌==◌, max, All, ◌↔◌, arith,
}
use flud.Prelude.Int.{ℤ, pos, negsuc}
use flud.Fencode.Base64.{IsByte}
use flud.Fencode.Utf8.{IsChar}

-- A `str` is its code points, a `bytes` its bytes; a `Fencoded` holds a `str`. A dict is its pairs in
-- the order of insertion.
mutual
  pub data Value : Type 0 where
    none_value : Value
    bool_value : Bool → Value
    int_value : ℤ → Value
    bytes_value str_value fencoded_value : List ℕ → Value
    list_value tuple_value : Values → Value
    dict_value : Entries → Value

  pub data Values : Type 0 where
    nil : Values
    cons : Value → Values → Values

  pub data Entries : Type 0 where
    end : Entries
    entry : Value → Value → Entries → Entries

unfoldable pub same_text : List ℕ → List ℕ → Bool
same_text [] [] = true
same_text [] (b ∷ t) = false
same_text (a ∷ s) [] = false
same_text (a ∷ s) (b ∷ t) = a == b && same_text s t

pub same_text_iff : (s t : List ℕ) → (same_text s t ≡ true) ↔ (s ≡ t)
unfolding same_text
same_text_iff [] [] = (λ h. refl, λ h. refl)
same_text_iff [] (b ∷ t) = (λ h. cc, λ h. cc)
same_text_iff (a ∷ s) [] = (λ h. cc, λ h. cc)
same_text_iff (a ∷ s) (b ∷ t) = ground (arith, same_text_iff s t)

instance abbrev pub text_eq : Eq (List ℕ)
text_eq = record { beq = same_text; beq_iff = same_text_iff }

unfoldable pub same_int : ℤ → ℤ → Bool
same_int (pos m) (pos n) = m == n
same_int (negsuc m) (negsuc n) = m == n
same_int (pos m) (negsuc n) = false
same_int (negsuc m) (pos n) = false

-- `int(d)` of a bool
unfoldable pub int_of : Bool → ℤ
int_of true = pos 1
int_of false = pos 0

-- `==` on the values that can be keys: a bool equals its number. Lists, dicts and `Fencoded` are not
-- compared, since they have no hash.
unfoldable mutual
  unfolding same_text same_int int_of

  pub same_key : Value → Value → Bool
  same_key none_value none_value = true
  same_key (bool_value a) (bool_value b) = same_int (int_of a) (int_of b)
  same_key (bool_value a) (int_value n) = same_int (int_of a) n
  same_key (int_value m) (bool_value b) = same_int m (int_of b)
  same_key (int_value m) (int_value n) = same_int m n
  same_key (bytes_value s) (bytes_value t) = same_text s t
  same_key (str_value s) (str_value t) = same_text s t
  same_key (tuple_value xs) (tuple_value ys) = same_keys xs ys
  same_key _ _ = false

  pub same_keys : Values → Values → Bool
  same_keys nil nil = true
  same_keys (cons x xs) (cons y ys) = same_key x y && same_keys xs ys
  same_keys _ _ = false

-- Whether `hash` accepts the value.
unfoldable mutual
  pub hashable : Value → Bool
  hashable none_value = true
  hashable (bool_value b) = true
  hashable (int_value n) = true
  hashable (bytes_value s) = true
  hashable (str_value s) = true
  hashable (fencoded_value s) = false
  hashable (list_value xs) = false
  hashable (tuple_value xs) = all_hashable xs
  hashable (dict_value es) = false

  pub all_hashable : Values → Bool
  all_hashable nil = true
  all_hashable (cons x xs) = hashable x && all_hashable xs

-- What a value is decoded as: a bool as its number.
unfoldable mutual
  unfolding int_of

  pub plain : Value → Value
  plain none_value = none_value
  plain (bool_value b) = int_value (int_of b)
  plain (int_value n) = int_value n
  plain (bytes_value s) = bytes_value s
  plain (str_value s) = str_value s
  plain (fencoded_value s) = fencoded_value s
  plain (list_value xs) = list_value (plain_values xs)
  plain (tuple_value xs) = tuple_value (plain_values xs)
  plain (dict_value es) = dict_value (plain_entries es)

  pub plain_values : Values → Values
  plain_values nil = nil
  plain_values (cons x xs) = cons (plain x) (plain_values xs)

  pub plain_entries : Entries → Entries
  plain_entries end = end
  plain_entries (entry k v es) = entry (plain k) (plain v) (plain_entries es)

-- No later pair of the dict has the key.
abbrev pub Missing : Value → Entries → Type 0
Missing a end = Unit
Missing a (entry k v es) = (same_key a (plain k) ≡ false) × Missing a es

-- A value that Python can hold: bytes and code points are in range, and the keys of a dict have a
-- hash and differ.
unfoldable mutual
  unfolding plain

  pub IsGood : Value → Type 0
  IsGood none_value = Unit
  IsGood (bool_value b) = Unit
  IsGood (int_value n) = Unit
  IsGood (bytes_value s) = All IsByte s
  IsGood (str_value s) = All IsChar s
  IsGood (fencoded_value s) = All IsChar s
  IsGood (list_value xs) = AreGood xs
  IsGood (tuple_value xs) = AreGood xs
  IsGood (dict_value es) = IsGoodDict es

  pub AreGood : Values → Type 0
  AreGood nil = Unit
  AreGood (cons x xs) = IsGood x × AreGood xs

  pub IsGoodDict : Entries → Type 0
  IsGoodDict end = Unit
  IsGoodDict (entry k v es) =
      (hashable (plain k) ≡ true) × Missing (plain k) es × IsGood k × IsGood v × IsGoodDict es

-- How deep a value is nested.
unfoldable mutual
  pub height : Value → ℕ
  height (list_value xs) = suc (heights xs)
  height (tuple_value xs) = suc (heights xs)
  height (dict_value es) = suc (height_entries es)
  height _ = 0

  pub heights : Values → ℕ
  heights nil = 0
  heights (cons x xs) = max (height x) (heights xs)

  pub height_entries : Entries → ℕ
  height_entries end = 0
  height_entries (entry k v es) = max (max (height k) (height v)) (height_entries es)
