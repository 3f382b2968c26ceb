-- ===== src/Base/Sealed.antt =====
-- The bind of `Base.Result` once more, shut: long blocks of checks are taken apart by its rules.
use mathlib.Core.Path.{◌≡◌, refl, subst}
use native.Mathlib.Omega.{arith}
use mathlib.Core.Bool.{Bool, true, false}
use sc_adat_appliance.Base.Result.{Result, ok, err}

infixl 5 ◌>>=◌ ◌>>◌
unfoldable pub ◌>>=◌ {ℓ κ μ} :
    {E : Type κ} {A : Type ℓ} {B : Type μ} → Result E A → (A → Result E B) → Result E B
ok a >>= f = f a
err e >>= f = err e

unfoldable pub ◌>>◌ {ℓ κ} :
    {E : Type κ} {B : Type ℓ} → Result E (Unit {0}) → Result E B → Result E B
ok u >> k = k
err e >> k = err e

-- `if test: raise e`
unfoldable pub raise_if {κ} : {E : Type κ} → Bool → E → Result E (Unit {0})
raise_if true e = err e
raise_if false e = ok tt

pub bind-eq-ok {ℓ κ μ} :
    {E : Type κ} {A : Type ℓ} {B : Type μ} (m : Result E A) (f : A → Result E B) {b : B}
    → (m >>= f) ≡ ok b
    → (a : A) × (m ≡ ok a) × (f a ≡ ok b)
unfolding ◌>>=◌
bind-eq-ok (ok a) f h = (a, refl, h)
bind-eq-ok (err e) f h = cc

pub guard-eq-ok {ℓ κ} :
    {E : Type κ} {B : Type ℓ} (b : Bool) (e : E) (m : Result E B) {x : B}
    → (raise_if b e >> m) ≡ ok x
    → (b ≡ false) × (m ≡ ok x)
unfolding ◌>>◌ raise_if
guard-eq-ok true e m h = cc
guard-eq-ok false e m h = (refl, h)

-- Whatever a block returns satisfies `P`. The rules walk the block.
pub record Ensures {ℓ κ μ} {E : Type κ} {A : Type ℓ} (P : A → Type μ) (out : Result E A)
    : Type (ℓ ⊔ κ ⊔ μ) where
  pub at : (a : A) → out ≡ ok a → P a

module _ {ℓ κ μ} {E : Type κ} {B : Type ℓ} {P : B → Type μ} where
  pub Ensures-bind {ν} :
      {A : Type ν} {m : Result E A} {f : A → Result E B}
      → ((a : A) → m ≡ ok a → Ensures P (f a))
      → Ensures P (m >>= f)
  Ensures-bind {m = m} {f = f} k = record {
    at = λ b h. let (a, e, r) = bind-eq-ok m f h in (k a e).at b r;
  }

  pub Ensures-guard :
      {b : Bool} (e : E) {m : Result E B}
      → (b ≡ false → Ensures P m)
      → Ensures P (raise_if b e >> m)
  Ensures-guard {b = b} e {m = m} k = record {
    at = λ x h. let (passed, r) = guard-eq-ok b e m h in (k passed).at x r;
  }

  pub Ensures-ok : {a : B} → P a → Ensures {E = E} P (ok a)
  Ensures-ok {a} p = record { at = λ b h. subst P (ground (arith, h)) p }

-- Running a block whose steps are known.
pub bind_ok {ℓ κ μ} :
    {E : Type κ} {A : Type ℓ} {B : Type μ} {m : Result E A} (f : A → Result E B) {a : A}
    {out : Result E B}
    → m ≡ ok a
    → f a ≡ out
    → (m >>= f) ≡ out
unfolding ◌>>=◌
bind_ok f e r = rw e r

pub guard_ok {ℓ κ} :
    {E : Type κ} {B : Type ℓ} {b : Bool} (e : E) {m out : Result E B}
    → b ≡ false
    → m ≡ out
    → (raise_if b e >> m) ≡ out
unfolding ◌>>◌ raise_if
guard_ok e p r = rw p r
