-- ===== src/Sharded/Total.antt =====
-- What `RealMem` of pkg/storage/map/map.go sums up.
use advinced_cache.Prelude.{
  ℕ, suc, ◌+◌, ◌%◌, ◌^◌, ◌<◌, ◌≡◌, refl, List, [], ◌∷◌, arith, length, get_or,
}
use advinced_cache.Sharded.{Shard, Map, new_shard, sum_mem, real_mem}
use advinced_cache.Sharded.Count.{total, IsCounted}
use advinced_cache.Sharded.Placed.{IsPlaced}

module _ {V : Type 0} (weight : V → ℕ) where
  -- The weight of everything that the shards hold.
  unfoldable pub total_shards : List (Shard V) → ℕ
  total_shards [] = 0
  total_shards (s ∷ ss) = total weight s.items + total_shards ss

  sum_mem-total_shards :
      (ss : List (Shard V)) (d : ℕ → Shard V)
      → ((i : ℕ) → i < length ss → IsCounted weight (get_or ss i (d i)))
      → sum_mem ss ≡ total_shards ss % 2 ^ 64
  unfolding sum_mem total_shards
  sum_mem-total_shards [] d h = refl
  sum_mem-total_shards (s ∷ ss) d h =
      let ih = sum_mem-total_shards ss (λ i. d (suc i)) (λ i lt. h (suc i) (omega arith)) in
      let here = (h 0 (omega arith)).mem in omega arith

  -- In a map that is in order, the memory that `RealMem` reports and stores is the weight of all the
  -- values in all the shards, as a 64-bit number.
  pub real_mem-total_shards :
      (m : Map V)
      → IsPlaced weight m
      → ((real_mem m).1 ≡ total_shards m.shards % 2 ^ 64) × ((real_mem m).0.mem ≡ (real_mem m).1)
  unfolding real_mem
  real_mem-total_shards m p = (
    sum_mem-total_shards m.shards new_shard (λ i lt. p.counted i (let s = p.size in omega arith)),
    refl,
  )
