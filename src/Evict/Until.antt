-- ===== src/Evict/Until.antt =====
-- `evictUntilWithinLimit` of pkg/storage/lru/evictor.go: the outer loop, which goes through the shards
-- from the front of the balancer's list. `fat` is the field `fatShardsPercentage`, which the
-- constructor computes with floating-point numbers. The loop runs on fuel: nothing bounds it.
use advinced_cache.Prelude.{ℕ, zero, suc, ◌+◌, not, Option, none, some, leb, ◌==◌, if◌then◌else◌}
use advinced_cache.Prelude.Outcome.{Outcome, ok, err, panic}
use advinced_cache.Sharded.{shard_at}
use advinced_cache.Storage.{Storage}
use advinced_cache.Balance.{Balance, rebalance, most_loaded}
use advinced_cache.Evict.{Eviction, refresh_mem, should_evict_right_now, evict_shard}

-- The evictor inside the loop.
pub record Evictor : Type 0 where
  pub balance : Balance
  pub eviction : Eviction
  pub shard_offset : ℕ

pub data Turn : Type 0 where
  done : Evictor → Turn
  more : Option (Outcome Evictor) → Turn

-- What `Shard.Weight` says of the shards.
abbrev pub shard_weights : Storage → ℕ → ℕ
shard_weights s i = (shard_at s.sharded_map i).mem

-- `shardOffset++` and what follows it.
unfoldable pub advance : ℕ → Evictor → Evictor
advance fat st =
    let offset = st.shard_offset + 1 in
    if leb fat offset
    then record st {
      balance = rebalance (shard_weights st.eviction.storage) st.balance;
      shard_offset = 0;
    }
    else record st { shard_offset = offset }

-- The shard at the offset, unless its list is empty. None is for an inner loop whose fuel is spent,
-- and no inner loop spends it.
unfoldable pub evict_most_loaded : Evictor → Option (Outcome Evictor)
evict_most_loaded st = elim (most_loaded st.shard_offset st.balance) [
  | none ↦ some (ok st)
  | some i ↦
      if (st.eviction.storage.rings i).len == 0
      then some (ok st)
      else elim (evict_shard i st.eviction) [
        | none ↦ none
        | some (ok ev) ↦ some (ok (record st { eviction = ev }))
        | some (err e) ↦ some (err e)
        | some panic ↦ some panic
      ]
]

unfoldable pub visit : ℕ → Evictor → Turn
visit fat st =
    let full = should_evict_right_now st.eviction.storage in
    let st = record st {
      eviction = record st.eviction { storage = refresh_mem st.eviction.storage };
    } in
    if not full then done st else more (evict_most_loaded (advance fat st))

-- The loop: none where the turns are used up, and `some none` where an inner loop has no result.
unfoldable pub evict_until : ℕ → ℕ → Evictor → Option (Option (Outcome Evictor))
evict_until zero fat st = none
evict_until (suc fuel) fat st = elim (visit fat st) [
  | done st ↦ some (some (ok st))
  | more (some (ok st)) ↦ evict_until fuel fat st
  | more (some (err e)) ↦ some (some (err e))
  | more (some panic) ↦ some (some panic)
  | more none ↦ some none
]
