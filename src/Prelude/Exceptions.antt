-- ===== src/Prelude/Exceptions.antt =====
-- Python's exceptions as values, with `do`.
use mathlib.Core.Path.{◌≡◌, refl}

-- One constructor for each class of exception that the modelled code raises or lets through.
-- `recursion_error` is Python's: the modelled recursion ran out of its fuel.
pub data Exc : Type 0 where
  bucket_full value_error key_error index_error type_error io_error : Exc
  attribute_error lookup_error runtime_error socket_error binascii_error : Exc
  unicode_error id_too_large not_found recursion_error struct_error : Exc
  imposter_error cas_key_error bad_request : Exc

pub data Result {ℓ} (A : Type ℓ) : Type ℓ where
  ok : A → Result A
  raise : Exc → Result A

infixl 5 ◌>>=◌
abbrev pub ◌>>=◌ {ℓ κ} : {A : Type ℓ} {B : Type κ} → Result A → (A → Result B) → Result B
ok value >>= next = next value
raise exc >>= next = raise exc

-- What a chain that returned went through.
pub >>=-eq-ok {ℓ κ} :
    {A : Type ℓ} {B : Type κ} (first : Result A) (next : A → Result B) {b : B}
    → (first >>= next) ≡ ok b
    → (a : A) × (first ≡ ok a) × (next a ≡ ok b)
>>=-eq-ok (ok value) next h = (value, refl, h)
>>=-eq-ok (raise exc) next h = cc
