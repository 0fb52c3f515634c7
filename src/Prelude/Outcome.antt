-- ===== src/Prelude/Outcome.antt =====
-- Results of operations that throw. A message is not modelled: an exception is its C++ type.
use mathlib.Core.Bool.{Bool, true, false}
use mathlib.Core.Path.{◌≡◌, refl}
use mathlib.Core.Logic.{◌⊎◌, inl, inr}

-- `nstl_exception` is nstl::exception; the others are the std exceptions that the sources name.
pub data Exception : Type 0 where
  nstl_exception length_error bad_alloc runtime_error out_of_range invalid_argument : Exception

-- The throw stands first: most proofs meet it before the value.
pub data Result {ℓ} (X : Type ℓ) : Type ℓ where
  err : (thrown : Exception) → Result X
  ok : (value : X) → Result X

-- NSTL2_THROW_EXCEPTION_IF and the other throwing tests.
abbrev pub throw_if : Bool → Exception → Result (Unit {0})
throw_if false thrown = ok tt
throw_if true thrown = err thrown

-- What runs next sees a value only: a throw passes it by.
infixl 5 ◌>>◌ ◌>>=◌
abbrev pub ◌>>=◌ {κ ℓ} : {X : Type κ} {Y : Type ℓ} → Result X → (X → Result Y) → Result Y
err thrown >>= next = err thrown
ok value >>= next = next value

abbrev pub ◌>>◌ {κ} : {Y : Type κ} → Result (Unit {0}) → Result Y → Result Y
first >> second = first >>= λ done. second

-- A split on a computed result, and what stands behind a chain that returned.
pub Result-cases {κ} :
    {X : Type κ} (r : Result X) → ((x : X) × (r ≡ ok x)) ⊎ ((thrown : Exception) × (r ≡ err thrown))
Result-cases (err thrown) = inr (thrown, refl)
Result-cases (ok x) = inl (x, refl)

pub >>=-eq-ok {κ ℓ} :
    {X : Type κ} {Y : Type ℓ} (r : Result X) (next : X → Result Y) {y : Y}
    → (r >>= next) ≡ ok y
    → (x : X) × (r ≡ ok x) × (next x ≡ ok y)
>>=-eq-ok (err thrown) next returned = cc
>>=-eq-ok (ok x) next returned = (x, refl, returned)
