-- ===== src/Balance.antt =====
-- pkg/storage/lru/balancer.go: the list of the shards, which eviction takes from its front. The value
-- of an element is the index of its shard; `weights i` is what `Shard.Weight` of shard `i` says, the
-- same through one call of `Rebalance`. Comparing signed words is the list's business.
pub mod Ranked
use advinced_cache.Prelude.{ℕ, Option, none, some, List, [], ◌∷◌}
use advinced_cache.Ring.{Ring, new_ring, push_back, next_at}
use advinced_cache.Ring.Sort.{desc, sort}

-- The field `memList` of `Balance`.
pub record Balance : Type 0 where
  pub mem_list : Ring ℕ

abbrev pub new_balancer : Balance
new_balancer = record { mem_list = new_ring }

-- The shard that an element holds, and its weight.
abbrev pub node_at : Balance → ℕ → ℕ
node_at b el = elim (b.mem_list.value el) [ none ↦ 0 | some i ↦ i ]

abbrev pub node_weight : (ℕ → ℕ) → Balance → ℕ → ℕ
node_weight weights b el = weights (node_at b el)

unfoldable pub register : ℕ → Balance → Balance
register i b = record { mem_list = (push_back i b.mem_list).0 }

unfoldable pub rebalance : (ℕ → ℕ) → Balance → Balance
rebalance weights b = record { mem_list = sort (node_weight weights b) desc b.mem_list }

unfoldable pub most_loaded : ℕ → Balance → Option ℕ
most_loaded offset b = elim (next_at offset b.mem_list) [
  | none ↦ none
  | some el ↦ b.mem_list.value el
]
