-- ===== src/Tests/Stores.antt =====
-- Runs of pkg/storage/map and pkg/storage/lru, and their theorems at concrete entries.
use advinced_cache.Prelude.{
  ℕ, ◌+◌, ◌%◌, ◌^◌, ◌≡◌, ◌≢◌, refl, true, Option, none, some, List, [], ◌∷◌, ◌++◌, arith, length,
  bytes_eq, replicate, ◌==◌, ==_refl, if◌then◌else◌,
}
use advinced_cache.KeyValue.{Bytes}
use advinced_cache.Entry.{active_shards, num_of_shards, map_shard_key, is_same_fingerprint}
use advinced_cache.Sharded.{
  Map, new_shards, new_map, shard_of, get, get_shard, set_shard, set_map, get_rand, rnd,
}
use advinced_cache.Sharded.Table.{find, put}
use advinced_cache.Sharded.Placed.{
  IsPlaced, get-set_map, set_map-IsPlaced, rnd_misses, new_map-IsPlaced,
}
use advinced_cache.Sharded.{real_mem}
use advinced_cache.Sharded.Total.{total_shards, real_mem-total_shards}
use advinced_cache.Prelude.{◌%◌, ◌^◌}
use advinced_cache.Ring.{new_ring}
use advinced_cache.Lfu.{new_sketch, new_doorkeeper}
use advinced_cache.Storage.{Storage, sampled, should_evict, admit_and_insert, set_entry}
use advinced_cache.Storage.Updates.{set_entry_overlooks}
use advinced_cache.Storage.Held.{Holds, set_entry-Holds}
use advinced_cache.Tests.Requests.{hasher, stored}

abbrev weigh : ℕ → ℕ
weigh v = v + 80

abbrev table : Map ℕ
table = set_map weigh 2048 0 new_map

size : length (new_map {V = ℕ}).shards ≡ num_of_shards
size = (new_map-IsPlaced weigh).size

table-IsPlaced : IsPlaced weigh table
table-IsPlaced = set_map-IsPlaced weigh 2048 0 new_map (new_map-IsPlaced weigh)

pub found_0 : get table 2048 ≡ some 0
found_0 = get-set_map weigh 2048 2048 0 new_map size

get-set_map_example :
    get (set_map weigh 2048 0 new_map) 2048 ≡ (if 2048 == 2048 then some 0 else get new_map 2048)
get-set_map_example = get-set_map weigh 2048 2048 0 new_map (new_map-IsPlaced weigh).size

set_map-IsPlaced_example : IsPlaced weigh (set_map weigh 2048 0 new_map)
set_map-IsPlaced_example = set_map-IsPlaced weigh 2048 0 new_map (new_map-IsPlaced weigh)

-- What the iteration of a map yields first.
abbrev first : List (ℕ × ℕ) → Option ℕ
first [] = none
first ((k, v) ∷ m) = some v

none-some : (w : ℕ) → none ≡ some w → ⊥
none-some w e = ground arith

first_found : (l : List (ℕ × ℕ)) (w : ℕ) → first l ≡ some w → (k : ℕ) × (find k l ≡ some w)
unfolding find
first_found [] w e = absurd (none-some w e)
first_found ((k, v) ∷ m) w e = (k, rw (==_refl k) e)

rnd_misses_example : (k : ℕ) × (get table k ≡ some 0) × (k % active_shards ≢ 0)
unfolding rnd get_rand new_map new_shards set_map set_shard shard_of find put map_shard_key
rnd_misses_example = rnd_misses weigh first 1 0 table first_found table-IsPlaced (omega arith) refl

abbrev pub storage : Storage
storage = record {
  entries = λ p. if p == 1 then record stored { payload = some (9 ∷ []) } else stored;
  sharded_map = new_map;
  rings = λ i. new_ring;
  tiny_lfu = record {
    curr = new_sketch (λ i. i);
    prev = new_sketch (λ i. i);
    door = new_doorkeeper 128 1 2;
  };
  memory_threshold = 2 ^ 40;
}

kept : (set_entry hasher 9 1 storage).1 ≡ true
unfolding set_entry admit_and_insert should_evict get get_shard new_map new_shards shard_of find
    map_shard_key
kept = refl

set_entry-Holds_example : Holds hasher (set_entry hasher 9 1 storage).0 2048 (storage.entries 1)
set_entry-Holds_example = set_entry-Holds hasher 9 1 storage size kept

abbrev pub loaded : Storage
loaded = record storage { sharded_map = table }

-- Two pages that differ in one byte.
abbrev page : ℕ → Bytes
page b = replicate 10 0 ++ b ∷ replicate 21 0

abbrev pages : Storage
pages = record loaded { entries = λ p. record stored { payload = some (page p) } }

set_entry_overlooks_example :
    ((set_entry hasher 9 1 pages).1 ≡ true)
    × ((set_entry hasher 9 1 pages).0.entries ≡ pages.entries)
    × ((set_entry hasher 9 1 pages).0.sharded_map ≡ table)
unfolding sampled is_same_fingerprint bytes_eq
set_entry_overlooks_example =
    set_entry_overlooks hasher 9 1 0 pages found_0 refl refl (omega arith) refl

real_mem-total_shards_example :
    ((real_mem table).1 ≡ total_shards weigh table.shards % 2 ^ 64)
    × ((real_mem table).0.mem ≡ (real_mem table).1)
real_mem-total_shards_example = real_mem-total_shards weigh table table-IsPlaced
