-- ===== src/Base/Bytes.antt =====
-- Byte strings as lists of numbers below 256: sums, comparison, big- and little-endian fields.
use Prim.Native.Nat.{ℕ, ◌^◌, ◌<◌, zero, suc, ◌+◌, ◌*◌, ◌/◌, ◌%◌, ◌<◌, ◌-◌, zero, suc}
use mathlib.Core.Path.{◌≡◌, refl, ◌∙◌}
use native.Mathlib.Nat.{pow-suc}
use mathlib.Core.Logic.{◌↔◌}
use mathlib.Core.Bool.{Bool, true, false, ◌&&◌}
use mathlib.Core.List.{List, [], ◌∷◌, ◌++◌}
use native.Mathlib.Omega.{arith}
use sc_adat_appliance.Base.Tests.{◌==◌}
use sc_adat_appliance.Base.Lists.{All, length, length-append}

abbrev pub IsByte : ℕ → Type 0
IsByte b = b < 256

abbrev pub AllBytes : List ℕ → Type 0
AllBytes = All IsByte

-- Python's `sum(data)`.
unfoldable pub sum : List ℕ → ℕ
sum [] = 0
sum (x ∷ xs) = x + sum xs

pub sum-append : (xs ys : List ℕ) → sum (xs ++ ys) ≡ sum xs + sum ys
unfolding sum
sum-append [] ys = omega arith
sum-append (x ∷ xs) ys = omega (arith, sum-append xs ys)

-- Python's `==` on byte strings and on texts given by their code points.
unfoldable pub same : List ℕ → List ℕ → Bool
same [] [] = true
same [] (y ∷ ys) = false
same (x ∷ xs) [] = false
same (x ∷ xs) (y ∷ ys) = x == y && same xs ys

pub same_iff : (xs ys : List ℕ) → (same xs ys ≡ true) ↔ (xs ≡ ys)
unfolding same
same_iff [] [] = (λ _. refl, λ _. refl)
same_iff [] (y ∷ ys) = (λ h. cc, λ h. cc)
same_iff (x ∷ xs) [] = (λ h. cc, λ h. cc)
same_iff (x ∷ xs) (y ∷ ys) =
    let ih = same_iff xs ys in (λ h. ground (arith, ih), λ h. ground (arith, ih))

pub same_refl : (xs : List ℕ) → same xs xs ≡ true
same_refl xs = (same_iff xs xs).1 refl

-- `(~x) & 0xFFFF`: Python's `~x` is -x - 1, so the low 16 bits are those of 0xFFFF - x.
unfoldable pub complement16 : ℕ → ℕ
complement16 x = 0xFFFF - x % 0x10000

-- `int.from_bytes(data, "big")` from an accumulator.
unfoldable pub from_big : ℕ → List ℕ → ℕ
from_big acc [] = acc
from_big acc (b ∷ bs) = from_big (acc * 256 + b) bs

-- `n.to_bytes(k, "big")` for an n that fits.
unfoldable pub to_big : ℕ → ℕ → List ℕ
to_big zero n = []
to_big (suc k) n = to_big k (n / 256) ++ n % 256 ∷ []

from_big-append :
    (acc : ℕ) (xs ys : List ℕ) → from_big acc (xs ++ ys) ≡ from_big (from_big acc xs) ys
unfolding from_big
from_big-append acc [] ys = refl
from_big-append acc (x ∷ xs) ys = from_big-append (acc * 256 + x) xs ys

-- Encoding a number that fits and decoding it gives the number.
pub from_big-to_big : (k n : ℕ) → n < 256 ^ k → from_big 0 (to_big k n) ≡ n
unfolding to_big
from_big-to_big zero n h = unfold from_big in (omega arith)
from_big-to_big (suc k) n h =
    let p : 256 ^ suc k ≡ 256 ^ k * 256 = pow-suc 256 k in
    let ih = from_big-to_big k (n / 256) (omega arith) in
    from_big-append 0 (to_big k (n / 256)) (n % 256 ∷ [])
    ∙ last (from_big 0 (to_big k (n / 256))) ih
  where
    last : (m : ℕ) → m ≡ n / 256 → from_big m (n % 256 ∷ []) ≡ n
    last m e = unfold from_big in (omega arith)

pub length-to_big : (k n : ℕ) → length (to_big k n) ≡ k
unfolding to_big
length-to_big zero n = refl
length-to_big (suc k) n =
    omega (arith, length-append (to_big k (n / 256)) (n % 256 ∷ []), length-to_big k (n / 256))
