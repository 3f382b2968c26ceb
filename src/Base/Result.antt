-- ===== src/Base/Result.antt =====
-- Code that may raise: its value, or the error that it raises.
use mathlib.Core.Path.{◌≡◌, refl}
use mathlib.Core.Bool.{Bool, true, false}

pub data Result {ℓ κ} (Error : Type κ) (Value : Type ℓ) : Type (ℓ ⊔ κ) where
  err : Error → Result Error Value
  ok : Value → Result Error Value

-- `if test: raise e`
abbrev pub raise_if {κ} : {Error : Type κ} → Bool → Error → Result Error (Unit {0})
raise_if false raised = ok tt
raise_if true raised = err raised

infixl 5 ◌>>=◌
abbrev pub ◌>>=◌ {κ ℓ μ} :
    {Error : Type κ} {First : Type ℓ} {Next : Type μ}
    → Result Error First
    → (First → Result Error Next)
    → Result Error Next
err raised >>= next = err raised
ok value >>= next = next value

infixl 5 ◌>>◌
abbrev pub ◌>>◌ {κ μ} :
    {Error : Type κ} {Next : Type μ}
    → Result Error (Unit {0})
    → Result Error Next
    → Result Error Next
err raised >> next = err raised
ok done >> next = next

pub >>=-eq-ok {κ ℓ μ} :
    {Error : Type κ} {First : Type ℓ} {Next : Type μ} (run : Result Error First)
    (next : First → Result Error Next) {last : Next}
    → (run >>= next) ≡ ok last
    → (value : First) × (run ≡ ok value) × (next value ≡ ok last)
>>=-eq-ok (err raised) next h = cc
>>=-eq-ok (ok value) next h = (value, refl, h)
