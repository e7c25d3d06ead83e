-- ===== src/Sharded.antt =====
-- pkg/storage/map/shard.go and map.go: the sharded map and its counters. Every operation holds a
-- lock or is one atomic step, and a model operation is one undisturbed call. A Go map is an
-- association list without duplicate keys; `weight` is the method of the stored values. Counters are
-- `int64` bit patterns.
pub mod Table
pub mod Count
pub mod Placed
pub mod Total
use advinced_cache.Prelude.{
  ℕ, zero, suc, ◌+◌, ◌%◌, ◌^◌, map, Bool, true, false, Option, none, some, List, [], ◌∷◌, length,
  get_or, set, replicate, if◌then◌else◌, ltb,
}
use advinced_cache.Prelude.Word.{add64, sub64}
use advinced_cache.Entry.{active_shards, num_of_shards, map_shard_key}
use Table.{find, put, delete}

pub record Shard (V : Type 0) : Type 0 where
  pub items : List (ℕ × V)
  pub id : ℕ
  pub mem : ℕ
  pub len : ℕ

abbrev pub new_shard : {V : Type 0} → ℕ → Shard V
new_shard id = record { items = []; id = id; mem = 0; len = 0 }

module _ {V : Type 0} where
  unfoldable pub clear_shard : Shard V → Shard V
  clear_shard s = record s { items = []; mem = 0; len = 0 }

  unfoldable pub get_shard : Shard V → ℕ → Option V
  get_shard s key = find key s.items

  unfoldable pub set_shard : (V → ℕ) → ℕ → V → Shard V → Shard V
  set_shard weight key new s = elim (find key s.items) [
    | some old ↦ record s {
      items = put key new s.items;
      mem = add64 s.mem (sub64 (weight new) (weight old));
    }
    | none ↦ record s {
      items = put key new s.items;
      len = add64 s.len 1;
      mem = add64 s.mem (weight new);
    }
  ]

  -- The shard, and `(freedBytes, hit)`.
  unfoldable pub remove_shard : (V → ℕ) → ℕ → Shard V → Shard V × ℕ × Bool
  remove_shard weight key s = elim (find key s.items) [
    | some entry ↦ (
      record s {
        items = delete key s.items;
        len = sub64 s.len 1;
        mem = sub64 s.mem (weight entry);
      },
      weight entry,
      true,
    )
    | none ↦ (s, 0, false)
  ]

-- `Map`, with the counters that the background refresher copies.
pub record Map (V : Type 0) : Type 0 where
  pub shards : List (Shard V)
  pub mem : ℕ
  pub len : ℕ

-- The shards from `id` on, `n` of them.
unfoldable pub new_shards : {V : Type 0} → ℕ → ℕ → List (Shard V)
new_shards zero id = []
new_shards (suc n) id = new_shard id ∷ new_shards n (id + 1)

module _ {V : Type 0} where
  unfoldable pub new_map : Map V
  unfolding new_shards
  new_map = record { shards = new_shards num_of_shards 0; mem = 0; len = 0 }

  abbrev pub shard_at : Map V → ℕ → Shard V
  shard_at m i = get_or m.shards i (new_shard i)

  unfoldable pub shard_of : Map V → ℕ → Shard V
  shard_of m key = shard_at m (map_shard_key key)

  unfoldable pub get : Map V → ℕ → Option V
  get m key = get_shard (shard_of m key) key

  unfoldable pub set_map : (V → ℕ) → ℕ → V → Map V → Map V
  set_map weight key value m = record m {
    shards = set m.shards (map_shard_key key) (set_shard weight key value (shard_of m key));
  }

  unfoldable pub remove_map : (V → ℕ) → ℕ → Map V → Map V × ℕ × Bool
  remove_map weight key m =
      let (s, freed, hit) = remove_shard weight key (shard_of m key) in
      (record m { shards = set m.shards (map_shard_key key) s }, freed, hit)

  -- `Clear` of the storage, over `WalkShards`.
  unfoldable pub clear_map : Map V → Map V
  unfolding clear_shard
  clear_map m = record m { shards = map clear_shard m.shards }

  unfoldable pub sum_mem : List (Shard V) → ℕ
  sum_mem [] = 0
  sum_mem (s ∷ ss) = add64 s.mem (sum_mem ss)

  unfoldable pub sum_len : List (Shard V) → ℕ
  sum_len [] = 0
  sum_len (s ∷ ss) = add64 s.len (sum_len ss)

  -- The result, and the map with the refreshed counter.
  unfoldable pub real_mem : Map V → Map V × ℕ
  unfolding sum_mem
  real_mem m = (record m { mem = sum_mem m.shards }, sum_mem m.shards)

  unfoldable pub real_len : Map V → Map V × ℕ
  unfolding sum_len
  real_len m = (record m { len = sum_len m.shards }, sum_len m.shards)

  -- One tick of the memory refresher.
  unfoldable pub refresh_counters : Map V → Map V
  unfolding sum_mem sum_len
  refresh_counters m = record m { mem = sum_mem m.shards; len = sum_len m.shards }

  -- `GetRand`, where `pick` is what the map iteration yields first.
  unfoldable pub get_rand : (List (ℕ × V) → Option V) → Shard V → Option V
  get_rand pick s = pick s.items

  -- `Rnd`, where `r` is what `rand.Intn(int(ActiveShards))` yields.
  unfoldable pub rnd : (List (ℕ × V) → Option V) → ℕ → Map V → Option V
  rnd pick r m = get_rand pick (shard_at m r)
