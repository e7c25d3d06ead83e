-- ===== src/Evict.antt =====
-- pkg/storage/lru/evictor.go: the inner loop of `evictUntilWithinLimit`, over the storage and the
-- list of one shard. It runs on fuel, one more than the list has elements.
pub mod Ends
pub mod Until
pub mod Spins
pub mod Progress
use advinced_cache.Prelude.{
  ℕ, zero, suc, ◌+◌, ◌≡◌, Bool, true, false, not, Option, none, some, if◌then◌else◌,
}
use advinced_cache.Prelude.Outcome.{Outcome, ok, panic}
use advinced_cache.Prelude.Word.{add64, le_i64}
use advinced_cache.Sharded.{real_mem}
use advinced_cache.Ring.{Ring, next_at}
use advinced_cache.Storage.{Storage, remove_entry}

-- The storage with what `evictUntilWithinLimit` counts.
pub record Eviction : Type 0 where
  pub storage : Storage
  pub items : ℕ
  pub mem : ℕ

-- One round of the loop; `Remove` of a nil entry is a run-time panic.
pub data Round : Type 0 where
  over : Eviction → Round
  again : Eviction → Round
  crashed : Round

-- `RealMem`, which also refreshes the counter of the map.
unfoldable pub refresh_mem : Storage → Storage
refresh_mem s = record s { sharded_map = (real_mem s.sharded_map).0 }

-- `shouldEvictRightNow`.
unfoldable pub should_evict_right_now : Storage → Bool
should_evict_right_now s = le_i64 s.memory_threshold (real_mem s.sharded_map).1

-- The value of the element at the offset; an element without a value has the nil pointer.
unfoldable pub value_at : ℕ → Ring ℕ → Option (Option ℕ)
value_at offset l = elim (next_at offset l) [ none ↦ none | some el ↦ some (l.value el) ]

unfoldable pub evict_one : ℕ → Eviction → Eviction
evict_one p ev =
    let (s, freed, hit) = remove_entry p ev.storage in
    record {
      storage = s;
      items = if hit then ev.items + 1 else ev.items;
      mem = if hit then add64 ev.mem freed else ev.mem;
    }

unfoldable pub evict_round : ℕ → ℕ → Eviction → Round
evict_round i offset ev =
    let full = should_evict_right_now ev.storage in
    let ev = record ev { storage = refresh_mem ev.storage } in
    if not full then over ev else elim (value_at offset (ev.storage.rings i)) [
      | none ↦ over ev
      | some none ↦ crashed
      | some (some p) ↦ again (evict_one p ev)
    ]

-- The loop over the list of shard `i`, and none where the fuel is spent.
unfoldable pub evict_loop : ℕ → ℕ → ℕ → Eviction → Option (Outcome Eviction)
evict_loop zero i offset ev = none
evict_loop (suc fuel) i offset ev = elim (evict_round i offset ev) [
  | over ev ↦ some (ok ev)
  | again ev ↦ evict_loop fuel i (offset + 1) ev
  | crashed ↦ some panic
]

unfoldable pub evict_shard : ℕ → Eviction → Option (Outcome Eviction)
evict_shard i ev = evict_loop (suc (ev.storage.rings i).len) i 0 ev
