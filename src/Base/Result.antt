-- ===== src/Base/Result.antt =====
-- Python code that may raise: the value it returns, or the exception.
use Prim.Native.String.{String}
use mathlib.Core.Path.{◌≡◌, refl}
use mathlib.Core.Logic.{◌⊎◌, inl, inr}
use mathlib.Core.Option.{Option, none, some}

-- The exceptions that the code meets.
pub data Error : Type 0 where
  key_error : String → Error
  type_error value_error index_error rpc_error : Error

pub data Result {ℓ} (V : Type ℓ) : Type ℓ where
  err : Error → Result V
  ok : V → Result V

-- `None` met where a value is needed.
abbrev pub from_option {ℓ} : {V : Type ℓ} → Error → Option V → Result V
from_option e none = err e
from_option e (some v) = ok v

infixl 5 ◌>>=◌
abbrev pub ◌>>=◌ {κ ℓ} : {V : Type κ} {W : Type ℓ} → Result V → (V → Result W) → Result W
err raised >>= next = err raised
ok v >>= next = next v

pub Result-cases {ℓ} :
    {V : Type ℓ} (r : Result V) → ((raised : Error) × (r ≡ err raised)) ⊎ ((v : V) × (r ≡ ok v))
Result-cases (err raised) = inl (raised, refl)
Result-cases (ok v) = inr (v, refl)

pub ok-injective {ℓ} : {A : Type ℓ} {a b : A} → ok a ≡ ok b → a ≡ b
ok-injective h = cc

-- What a successful chain went through.
pub >>=-eq-ok {κ ℓ} :
    {V : Type κ} {W : Type ℓ} {w : W} (first : Result V) (then_do : V → Result W)
    → (first >>= then_do) ≡ ok w
    → (v : V) × (first ≡ ok v) × (then_do v ≡ ok w)
>>=-eq-ok (err raised) then_do e = cc
>>=-eq-ok (ok v) then_do e = (v, refl, e)
