-- ===== src/Tests/Linked.antt =====
-- Runs of pkg/list, pkg/storage/lru/balancer.go and evictor.go on linked lists, and their theorems at
-- concrete lists and storages.
use mathlib.Core.List.{Perm}
use advinced_cache.Prelude.{ℕ, ◌≡◌, ◌<◌, refl, true, none, some, List, [], ◌∷◌, arith}
use advinced_cache.Prelude.Outcome.{ok}
use advinced_cache.Entry.{map_shard_key, weight}
use advinced_cache.Sharded.{shard_of, new_map, new_shards, real_mem, set_map, set_shard}
use advinced_cache.Sharded.Table.{find}
use advinced_cache.Sharded.Placed.{get-new_map}
use advinced_cache.Ring.{Ring, new_ring, push_back, new_element, next_at, push_front}
use advinced_cache.Ring.Links.{IsRing}
use advinced_cache.Ring.Laws.{push_back-IsRing}
use advinced_cache.Ring.Sort.{
  asc, desc, sort, find_half, two_on, precedes, merge_behind, append_rest, join,
}
use advinced_cache.Ring.Sort.Ordered.{IsOrdered}
use advinced_cache.Ring.Sort.Closing.{sort-IsRing}
use advinced_cache.Balance.{Balance, new_balancer, register, rebalance}
use advinced_cache.Balance.Ranked.{IsBalance, register-IsBalance, rebalance-IsBalance}
use advinced_cache.Storage.{Storage, set_entry, insert, push}
use advinced_cache.Storage.Linked.Inserted.{insert-IsLinked, extended}
use advinced_cache.Storage.Linked.Runs.{Links, start, next, set_call, Runs-Links, start-Links}
use advinced_cache.Evict.{Eviction, should_evict_right_now, evict_shard}
use advinced_cache.Evict.Until.{Evictor, evict_until}
use advinced_cache.Evict.Spins.{IsStuck, evict_until_spins}
use advinced_cache.Evict.Progress.{evict_shard-Links}
use advinced_cache.Tests.Requests.{hasher}
use advinced_cache.Tests.Stores.{storage}

-- Three elements of the weights 1, 2 and 3.
abbrev three : Ring ℕ
three = (push_back 9 (push_back 8 (push_back 7 new_ring).0).0).0

new-IsRing : IsRing {V = ℕ} new_ring []
new-IsRing = record {
  links = (refl, refl);
  apart = tt;
  inner = tt;
  given = tt;
  mine = tt;
  positive = omega arith;
  counted = refl;
}

three-IsRing : IsRing three (1 ∷ 2 ∷ 3 ∷ [])
unfolding push_back new_element
three-IsRing =
    (push_back-IsRing 9 (push_back 8 (push_back 7 new_ring).0).0 (1 ∷ 2 ∷ [])
      (push_back-IsRing 8 (push_back 7 new_ring).0 (1 ∷ [])
        (push_back-IsRing 7 new_ring [] new-IsRing).0).0).0

sort-IsRing_example :
    (ys : List ℕ) × IsRing (sort (λ e. e) desc three) ys
    × Perm ys (1 ∷ 2 ∷ 3 ∷ [])
    × IsOrdered (λ e. e) desc ys
sort-IsRing_example = sort-IsRing (λ e. e) desc three (1 ∷ 2 ∷ 3 ∷ []) three-IsRing

heaviest_first : next_at 0 (sort (λ e. e) desc three) ≡ some 3
unfolding next_at sort push_back new_element find_half two_on precedes merge_behind append_rest join
heaviest_first = refl

lightest_first : next_at 0 (sort (λ e. e) asc three) ≡ some 1
unfolding next_at sort push_back new_element find_half two_on precedes merge_behind append_rest join
lightest_first = refl

new-IsBalance : IsBalance new_balancer []
new-IsBalance = record { elements = []; ring = new-IsRing; nodes = tt; shards = refl }

abbrev two_shards : Balance
two_shards = register 1 (register 0 new_balancer)

two_shards-IsBalance : IsBalance two_shards (0 ∷ 1 ∷ [])
two_shards-IsBalance =
    register-IsBalance (register 0 new_balancer) (0 ∷ []) 1
      (register-IsBalance new_balancer [] 0 new-IsBalance)

rebalance-IsBalance_example :
    (ids : List ℕ) × IsBalance (rebalance (λ i. i) two_shards) ids
    × Perm ids (0 ∷ 1 ∷ [])
    × IsOrdered (λ i. i) desc ids
rebalance-IsBalance_example =
    rebalance-IsBalance (λ i. i) two_shards (0 ∷ 1 ∷ []) two_shards-IsBalance

Runs-Links_example : Links (set_entry hasher 9 1 storage).0
Runs-Links_example = Runs-Links (
    next (start storage.entries storage.tiny_lfu storage.memory_threshold)
      (set_call hasher 9 1 storage))

-- One entry is stored, and no memory is allowed.
abbrev full_storage : Storage
full_storage = insert 0 (record storage { memory_threshold = 0 })

full_storage-Links : Links full_storage
full_storage-Links =
    let (lists, h) = start-Links storage.entries storage.tiny_lfu 0 in
    let free = get-new_map (λ p. 0) 2048 in
    (
      extended 0 (record storage { memory_threshold = 0 }) lists h free,
      insert-IsLinked 0 (record storage { memory_threshold = 0 }) lists h free,
    )

abbrev begun : Storage → Eviction
begun s = record { storage = s; items = 0; mem = 0 }

full : should_evict_right_now full_storage ≡ true
unfolding should_evict_right_now real_mem insert push set_map set_shard shard_of new_map new_shards
    map_shard_key find weight
full = refl

evict_shard-Links_example :
    (ev' : Eviction) × (evict_shard 1 (begun full_storage) ≡ some (ok ev'))
    × Links ev'.storage
    × (0 < ev'.items)
unfolding insert push push_front
evict_shard-Links_example =
    evict_shard-Links 1 (begun full_storage) full_storage-Links full (omega arith)

-- Nothing is stored, and no memory is allowed.
abbrev spinning : Evictor
spinning = record {
  balance = two_shards;
  eviction = begun (record storage { memory_threshold = 0 });
  shard_offset = 0;
}

stuck : IsStuck spinning.eviction.storage
unfolding should_evict_right_now real_mem new_map new_shards
stuck = record { full = refl; empty = λ i. refl }

evict_until_spins_example : evict_until 100 350 spinning ≡ none
evict_until_spins_example = evict_until_spins 100 350 spinning stuck
