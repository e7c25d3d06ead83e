-- ===== src/Storage.antt =====
-- pkg/storage/lru/storage.go and balancer.go: the storage of entries, the LRU list of every shard and
-- the admission. An entry is a pointer into `entries`, which the map, the lists and the callers share;
-- `rings i` is the list of shard `i`, whose elements carry pointers. Locks make every call of a
-- component one undisturbed step, and an operation is a run of such calls.
pub mod Updates
pub mod Stale
pub mod Held
pub mod Linked
use Prim.Native.Nat.{bit_xor}
use advinced_cache.Prelude.{
  ℕ, zero, suc, ◌+◌, ◌-◌, ◌*◌, ◌/◌, ◌%◌, ◌<◌, ◌≡◌, Bool, true, false, not, ◌&&◌, ◌||◌, Option, none,
  some, List, [], ◌∷◌, length, take, drop, ltb, leb, ◌==◌, bytes_eq, if◌then◌else◌,
}
use advinced_cache.Prelude.Word.{add64, le_i64}
use advinced_cache.KeyValue.{Bytes}
use advinced_cache.Entry.{
  Hasher, Entry, active_shards, num_of_shards, payload_bytes, weight, is_same_fingerprint,
  swap_payloads, touch_updated_at,
}
use advinced_cache.Sharded.{Map, get, set_map, remove_map, clear_map}
use advinced_cache.Ring.{Ring, push_front, back, remove, move_to_front}
use advinced_cache.Lfu.{TinyLfu, count_access, admit}

pub record Storage : Type 0 where
  pub entries : ℕ → Entry
  pub sharded_map : Map ℕ
  pub rings : ℕ → Ring ℕ
  pub tiny_lfu : TinyLfu
  pub memory_threshold : ℕ

-- `*p = v`, and the same for the list of a shard.
abbrev pub write : {A : Type 0} → ℕ → A → (ℕ → A) → ℕ → A
write p v f a = if a == p then v else f a

-- The samples of a payload of at least 32 bytes: `a[:8]`, eight bytes from the middle, the last
-- eight.
unfoldable pub sampled : Hasher → Bytes → ℕ
sampled h a =
    bit_xor (bit_xor (h.sum64 (take 8 a)) (h.sum64 (take 8 (drop (length a / 2) a))))
      (h.sum64 (drop (length a - 8) a))

-- `isPayloadsAreEquals`.
unfoldable pub payloads_are_equals : Hasher → Bytes → Bytes → Bool
payloads_are_equals h a b =
    if not (length a == length b)
    then false
    else if ltb (length a) 32
    then bytes_eq a b
    else sampled h a == sampled h b

abbrev pub is_same_payload : Hasher → Entry → Entry → Bool
is_same_payload h e another = payloads_are_equals h (payload_bytes e) (payload_bytes another)

-- `Balance.Push`, `Balance.Update` and `Balance.Remove`.
unfoldable pub push : ℕ → Storage → Storage
push p s =
    let e = s.entries p in
    let (ring, el) = push_front p (s.rings e.shard) in
    record s {
      entries = write p (record e { lru_list_elem = some el }) s.entries;
      rings = write e.shard ring s.rings;
    }

unfoldable pub touch : ℕ → Storage → Storage
touch p s =
    let e = s.entries p in
    elim e.lru_list_elem [
      | none ↦ s
      | some el ↦ record s { rings = write e.shard (move_to_front el (s.rings e.shard)) s.rings }
    ]

unfoldable pub unlink : ℕ → Storage → Storage
unlink p s =
    let e = s.entries p in
    elim e.lru_list_elem [
      | none ↦ s
      | some el ↦ record s { rings = write e.shard (remove el (s.rings e.shard)) s.rings }
    ]

-- The value of the last element of a shard's list.
unfoldable pub last_value : Storage → ℕ → Option ℕ
last_value s i = elim (back (s.rings i)) [ none ↦ none | some el ↦ (s.rings i).value el ]

-- `FindVictim`; `shardKeyInt64-1 > 0` leaves shard 0 out.
unfoldable pub find_victim : ℕ → Storage → Option ℕ
find_victim i s = elim (last_value s i) [
  | some v ↦ some v
  | none ↦ elim (if ltb (i + 1) num_of_shards then last_value s (i + 1) else none) [
    | some v ↦ some v
    | none ↦ if ltb 1 i then last_value s (i - 1) else none
  ]
]

-- `Balance.Mem`: the struct (two words for the context, the array, two pointers), the array's
-- pointers, those of the list of shards, and the shard nodes of three words.
abbrev pub balancer_mem : ℕ
balancer_mem =
    (16 + num_of_shards * 8 + 16) + num_of_shards * 8 + num_of_shards * 8 + 24 * num_of_shards

-- `s.Mem() >= s.memoryThreshold`, on signed words.
unfoldable pub should_evict : Storage → Bool
should_evict s = le_i64 s.memory_threshold (add64 s.sharded_map.mem balancer_mem)

-- The weight of a stored pointer.
abbrev pub weight_at : Storage → ℕ → ℕ
weight_at s p = weight (s.entries p)

-- `Get`, for the request entry `req`.
unfoldable pub get_entry : Entry → Storage → Storage × Option ℕ
get_entry req s = elim (get s.sharded_map req.key) [
  | none ↦ (s, none)
  | some p ↦
      if is_same_fingerprint (s.entries p) req.fingerprint then (touch p s, some p) else (s, none)
]

-- `Remove`: the storage, and `(freedBytes, hit)`.
unfoldable pub remove_entry : ℕ → Storage → Storage × ℕ × Bool
remove_entry p s =
    let s = unlink p s in
    let (m, freed, hit) = remove_map (weight_at s) (s.entries p).key s.sharded_map in
    (record s { sharded_map = m }, freed, hit)

-- `update`, at the time `now`.
unfoldable pub update : ℕ → ℕ → ℕ → Storage → Storage
update now existing new s =
    let (e, n) = swap_payloads (s.entries existing) (s.entries new) in
    let s = record s { entries = write new n (write existing e s.entries) } in
    let s = record s {
      entries = write existing (touch_updated_at now (s.entries existing)) s.entries;
    } in
    touch existing s

-- The map and the list of the shard take the entry in.
unfoldable pub insert : ℕ → Storage → Storage
insert p s =
    push p (record s { sharded_map = set_map (weight_at s) (s.entries p).key p s.sharded_map })

-- The last part of `Set`: the admission and the insertion.
unfoldable pub admit_and_insert : ℕ → Storage → Storage × Bool
admit_and_insert p s =
    if not (should_evict s) then (insert p s, true) else elim (find_victim (s.entries p).shard s) [
      | none ↦ (s, false)
      | some victim ↦
          let (t, admitted) = admit (s.entries p).key (s.entries victim).key s.tiny_lfu in
          let s = record s { tiny_lfu = t } in if admitted then (insert p s, true) else (s, false)
    ]

unfoldable pub set_entry : Hasher → ℕ → ℕ → Storage → Storage × Bool
set_entry h now p s =
    let s = record s { tiny_lfu = count_access (s.entries p).key s.tiny_lfu } in
    elim (get s.sharded_map (s.entries p).key) [
      | none ↦ admit_and_insert p s
      | some old ↦
          if is_same_fingerprint (s.entries old) (s.entries p).fingerprint
          then (
            (if is_same_payload h (s.entries old) (s.entries p)
                then touch old s
                else update now old p s),
            true,
          )
          else admit_and_insert p (remove_entry old s).0
    ]

-- `Clear`: the shards, and neither the lists nor the admission.
unfoldable pub clear : Storage → Storage
clear s = record s { sharded_map = clear_map s.sharded_map }
