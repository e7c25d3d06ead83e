-- ===== src/KeyValue.antt =====
-- pkg/sort/key_value.go: the byte-wise comparison and the insertion sort of the key-value pairs
-- that make up a cache key. A `[]byte` is a list of numbers, a `[2][]byte` a `Pair`.
use advinced_cache.Prelude.{
  ℕ, zero, suc, ◌-◌, min, Bool, true, false, List, [], ◌∷◌, length, ltb, if◌then◌else◌,
}
pub mod Order
pub mod Insertion
pub mod Sorted
pub mod Canonical

abbrev pub Bytes : Type 0
Bytes = List ℕ

pub record Pair : Type 0 where
  pub key : Bytes
  pub value : Bytes

-- The `for` of `less` over the first `m` bytes; `shorter` is the test behind the loop.
unfoldable pub less_loop : ℕ → Bytes → Bytes → Bool → Bool
less_loop zero a b shorter = shorter
less_loop (suc m) (x ∷ a) (y ∷ b) shorter =
    let rest = less_loop m a b shorter in if ltb x y then true else if ltb y x then false else rest
less_loop (suc m) _ _ shorter = shorter

unfoldable pub less : Bytes → Bytes → Bool
unfolding less_loop
less a b =
    let m = if ltb (length b) (length a) then length b else length a in
    less_loop m a b (ltb (length a) (length b))

-- `kv[j], kv[j-1] = kv[j-1], kv[j]`, at `i = j - 1`.
unfoldable pub swap_at : ℕ → List Pair → List Pair
swap_at zero (a ∷ b ∷ kv) = b ∷ a ∷ kv
swap_at (suc i) (a ∷ kv) = a ∷ swap_at i kv
swap_at _ kv = kv

-- `less(kv[j][0], kv[j-1][0])`, at `i = j - 1`.
unfoldable pub less_at : ℕ → List Pair → Bool
unfolding less
less_at zero (a ∷ b ∷ kv) = less b.key a.key
less_at (suc i) (a ∷ kv) = less_at i kv
less_at _ kv = false

-- The inner loop, from `j` downwards.
unfoldable pub sift : ℕ → List Pair → List Pair
unfolding swap_at less_at
sift zero kv = kv
sift (suc i) kv = let rest = sift i (swap_at i kv) in if less_at i kv then rest else kv

-- The outer loop: `rounds` are left, the next one is at `i`.
unfoldable pub kv_rounds : ℕ → ℕ → List Pair → List Pair
kv_rounds zero i kv = kv
kv_rounds (suc rounds) i kv = kv_rounds rounds (suc i) (sift i kv)

unfoldable pub kv_slice : List Pair → List Pair
unfolding sift kv_rounds
kv_slice kv = kv_rounds (length kv - 1) 1 kv
