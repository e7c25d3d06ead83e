-- ===== src/Prelude/Bits.antt =====
-- Setting bits by `|` and testing them by `&`, at every width: what the doorkeeper's words need.
use Prim.Native.Nat.{
  ℕ, zero, suc, ◌+◌, ◌*◌, ◌/◌, ◌%◌, ◌≤◌, min, max, digits, bitwise, bit_and, bit_or,
  bit_and-bitwise, bit_or-bitwise,
}
use mathlib.Core.Path.{◌≡◌, refl, ap}
use native.Mathlib.Omega.{arith}

-- Fuel beyond the number itself changes nothing.
module _ (rest : ℕ → ℕ) (join : ℕ → ℕ → ℕ) where
  digits_enough : (m k x y : ℕ) → x ≤ m → x ≤ k → digits rest join m x y ≡ digits rest join k x y
  digits_enough (suc m) (suc k) (suc x) y p q =
      ap (λ t. t * 2 + join (suc x % 2) (y % 2))
        (digits_enough m k (suc x / 2) (y / 2) (omega arith) (omega arith))
  digits_enough zero zero zero y p q = refl
  digits_enough zero (suc k) zero y p q = refl
  digits_enough (suc m) zero zero y p q = refl
  digits_enough (suc m) (suc k) zero y p q = refl
  digits_enough zero k (suc x) y p q = absurd (omega arith)
  digits_enough (suc m) zero (suc x) y p q = absurd (omega arith)

  -- The lowest digit, and the digits above it.
  lowest :
      (x y : ℕ)
      → bitwise rest join (suc x) y
        ≡ bitwise rest join (suc x / 2) (y / 2) * 2 + join (suc x % 2) (y % 2)
  lowest x y =
      ap (λ t. t * 2 + join (suc x % 2) (y % 2))
        (digits_enough x (suc x / 2) (suc x / 2) (y / 2) (omega arith) (omega arith))

or_lowest : (x y : ℕ) → bit_or x y ≡ bit_or (x / 2) (y / 2) * 2 + max (x % 2) (y % 2)
or_lowest zero y = simp bit_or-bitwise (omega arith)
or_lowest (suc x) y = simp bit_or-bitwise (lowest (λ t. t) max x y)

and_lowest : (x y : ℕ) → bit_and x y ≡ bit_and (x / 2) (y / 2) * 2 + min (x % 2) (y % 2)
and_lowest zero y = simp bit_and-bitwise (omega arith)
and_lowest (suc x) y = simp bit_and-bitwise (lowest (λ t. 0) min x y)

and_none : (n x : ℕ) → x ≤ n → bit_and x 0 ≡ 0
and_none n zero h = simp bit_and-bitwise refl
and_none zero (suc x) h = absurd (omega arith)
and_none (suc n) (suc x) h =
    omega (arith, and_lowest (suc x) 0, and_none n (suc x / 2) (omega arith))

set_bits_fuel : (n x a : ℕ) → a ≤ n → bit_and (bit_or x a) a ≡ a
set_bits_fuel n x zero h = and_none (bit_or x 0) (bit_or x 0) (omega arith)
set_bits_fuel zero x (suc a) h = absurd (omega arith)
set_bits_fuel (suc n) x (suc a) h =
    let up : bit_or x (suc a) / 2 ≡ bit_or (x / 2) (suc a / 2) =
      omega (arith, or_lowest x (suc a)) in
    let rec = set_bits_fuel n (x / 2) (suc a / 2) (omega arith) in
    omega (
      arith,
      and_lowest (bit_or x (suc a)) (suc a),
      or_lowest x (suc a),
      ap (λ (t : ℕ). bit_and t (suc a / 2)) up,
    )

-- The bits that are set are found set.
pub bit_and-bit_or_self : (x a : ℕ) → bit_and (bit_or x a) a ≡ a
bit_and-bit_or_self x a = set_bits_fuel a x a (omega arith)

kept_bits_fuel : (n x b a : ℕ) → a ≤ n → bit_and x a ≤ bit_and (bit_or x b) a
kept_bits_fuel n x b zero h = omega (arith, and_none x x (omega arith))
kept_bits_fuel zero x b (suc a) h = absurd (omega arith)
kept_bits_fuel (suc n) x b (suc a) h =
    let up : bit_or x b / 2 ≡ bit_or (x / 2) (b / 2) = omega (arith, or_lowest x b) in
    let rec = kept_bits_fuel n (x / 2) (b / 2) (suc a / 2) (omega arith) in
    omega (
      arith,
      and_lowest x (suc a),
      and_lowest (bit_or x b) (suc a),
      or_lowest x b,
      ap (λ (t : ℕ). bit_and t (suc a / 2)) up,
    )

-- Setting more bits unsets none.
pub bit_and-bit_or-le : (x b a : ℕ) → bit_and x a ≤ bit_and (bit_or x b) a
bit_and-bit_or-le x b a = kept_bits_fuel a x b a (omega arith)
