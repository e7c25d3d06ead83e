-- ===== src/Prelude/Cursor.antt =====
-- Reading a byte buffer with an offset that only moves forward. The offset is kept as the part of
-- the buffer from it on. A read past the end is the run-time panic of a Go slice expression.
use advinced_cache.Prelude.Tests.{leb, if◌then◌else◌}
use advinced_cache.Prelude.Lists.{length, take, drop, take-append, drop-append, length-append}
use advinced_cache.Prelude.Outcome.{Outcome, ok, panic, ◌>>=◌}
use advinced_cache.Prelude.Word.{put_u32, put_u64}
use Prim.Native.Nat.{ℕ, ◌+◌, ◌*◌, ◌^◌, ◌<◌}
use mathlib.Core.Path.{◌≡◌}
use mathlib.Core.List.{List, ◌∷◌, ◌++◌}
use native.Mathlib.Omega.{arith}

-- `binary.LittleEndian.Uint32(buf[offset:])` and `offset += 4`.
unfoldable pub take_u32 : List ℕ → Outcome (ℕ × List ℕ)
take_u32 (a ∷ b ∷ c ∷ d ∷ rest) = ok (a + b * 2 ^ 8 + c * 2 ^ 16 + d * 2 ^ 24, rest)
take_u32 _ = panic

-- `binary.LittleEndian.Uint64(buf[offset:])` and `offset += 8`.
unfoldable pub take_u64 : List ℕ → Outcome (ℕ × List ℕ)
unfolding take_u32
take_u64 buf = do (lo, buf) ← take_u32 buf; (hi, buf) ← take_u32 buf; ok (lo + hi * 2 ^ 32, buf)

-- `buf[offset:offset+n]` and `offset += n`.
unfoldable pub take_bytes : ℕ → List ℕ → Outcome (List ℕ × List ℕ)
take_bytes n buf = if leb n (length buf) then ok (take n buf, drop n buf) else panic

pub take_u32-put_u32 :
    (n : ℕ) (rest : List ℕ) → n < 2 ^ 32 → take_u32 (put_u32 n ++ rest) ≡ ok (n, rest)
unfolding take_u32
take_u32-put_u32 n rest h = ground arith

pub take_u64-put_u64 :
    (n : ℕ) (rest : List ℕ) → n < 2 ^ 64 → take_u64 (put_u64 n ++ rest) ≡ ok (n, rest)
unfolding take_u64
take_u64-put_u64 n rest h = ground arith

pub take_bytes-append : (a rest : List ℕ) → take_bytes (length a) (a ++ rest) ≡ ok (a, rest)
unfolding take_bytes
take_bytes-append a rest =
    ground (arith, length-append a rest, take-append a rest, drop-append a rest)
