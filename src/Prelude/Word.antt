-- ===== src/Prelude/Word.antt =====
-- Machine words as native numbers below a power of two, and their little-endian bytes. A signed
-- word is kept as its bit pattern.
use Prim.Native.Nat.{ℕ, ◌+◌, ◌-◌, ◌/◌, ◌%◌, ◌^◌}
use mathlib.Core.Bool.{Bool}
use mathlib.Core.List.{List, [], ◌∷◌}
use advinced_cache.Prelude.Tests.{leb}

abbrev pub u32_mod : ℕ
u32_mod = 2 ^ 32

abbrev pub u64_mod : ℕ
u64_mod = 2 ^ 64

-- `a + b` and `a - b` on `int64` or `uint64`, by the bit pattern.
abbrev pub add64 : ℕ → ℕ → ℕ
add64 a b = (a + b) % u64_mod

abbrev pub sub64 : ℕ → ℕ → ℕ
sub64 a b = (a + (u64_mod - b % u64_mod)) % u64_mod

-- `a <= b` on `int64`.
abbrev pub le_i64 : ℕ → ℕ → Bool
le_i64 a b = leb (add64 a (2 ^ 63)) (add64 b (2 ^ 63))

-- `binary.LittleEndian.PutUint32` and `PutUint64` of a number, which the conversion to the word
-- type cuts off first.
abbrev pub put_u32 : ℕ → List ℕ
put_u32 n = n % 256 ∷ n / 2 ^ 8 % 256 ∷ n / 2 ^ 16 % 256 ∷ n / 2 ^ 24 % 256 ∷ []

abbrev pub put_u64 : ℕ → List ℕ
put_u64 n =
    n % 256
    ∷ n / 2 ^ 8 % 256
    ∷ n / 2 ^ 16 % 256
    ∷ n / 2 ^ 24 % 256
    ∷ n / 2 ^ 32 % 256
    ∷ n / 2 ^ 40 % 256
    ∷ n / 2 ^ 48 % 256
    ∷ n / 2 ^ 56 % 256
    ∷ []
