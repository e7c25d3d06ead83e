-- ===== src/Sharded/Placed.antt =====
-- The whole map of pkg/storage/map/map.go: where its keys lie, and the map as one table.
use mathlib.Core.Path.{subst⁻¹}
use advinced_cache.Prelude.{
  ℕ, zero, suc, ◌+◌, ◌%◌, ◌^◌, ◌<◌, ◌≡◌, ◌≢◌, refl, ap, ◌∙◌, sym, true, Option, none, some, List,
  [], arith, length, get_or, set, get_or-set, length-set, ◌==◌, ==_refl, ==_iff, if◌then◌else◌,
  Bool-cases, inl, inr,
}
use advinced_cache.Entry.{active_shards, num_of_shards, map_shard_key}
use advinced_cache.Entry.Keys.{map_shard_key_bounds}
use advinced_cache.Sharded.{
  Shard, Map, new_shard, new_shards, new_map, shard_at, shard_of, get_shard, set_shard,
  remove_shard, get, set_map, remove_map, get_rand, rnd,
}
use advinced_cache.Sharded.Table.{Distinct, find}
use advinced_cache.Sharded.Count.{
  total, IsCounted, set_shard-IsCounted, remove_shard-IsCounted, get_shard-set_shard,
  get_shard-remove_shard,
}

length-new_shards : (V : Type 0) (n id : ℕ) → length (new_shards {V = V} n id) ≡ n
unfolding new_shards
length-new_shards V zero id = refl
length-new_shards V (suc n) id = ap suc (length-new_shards V n (id + 1))

new_shards_empty :
    {V : Type 0} (n id i j : ℕ)
    → let s : Shard V = get_or (new_shards n id) i (new_shard j) in
      (s.items ≡ []) × (s.mem ≡ 0) × (s.len ≡ 0)
unfolding new_shards
new_shards_empty zero id i j = (refl, refl, refl)
new_shards_empty (suc n) id zero j = (refl, refl, refl)
new_shards_empty (suc n) id (suc i) j = new_shards_empty n (id + 1) i j

module _ {V : Type 0} (weight : V → ℕ) where
  -- Every shard is counted right and holds only keys of its own, and there are as many as the array
  -- has.
  pub record IsPlaced (m : Map V) : Type 0 where
    pub size : length m.shards ≡ num_of_shards
    pub counted : (i : ℕ) → i < num_of_shards → IsCounted weight (shard_at m i)
    pub placed :
        (i key : ℕ)
        → i < num_of_shards
        → get_shard (shard_at m i) key ≢ none
        → map_shard_key key ≡ i

  shard_at-set :
      (m : Map V) (i j : ℕ) (s : Shard V)
      → i < length m.shards
      → shard_at (record m { shards = set m.shards i s }) j ≡ (if i == j then s else shard_at m j)
  shard_at-set m i j s h = get_or-set m.shards i j s (new_shard j) h

  key_in_range : (key : ℕ) → map_shard_key key < num_of_shards
  key_in_range key = (map_shard_key_bounds key).1

  shard_at-set_map :
      (key i : ℕ) (v : V) (m : Map V)
      → length m.shards ≡ num_of_shards
      → shard_at (set_map weight key v m) i
        ≡ (if map_shard_key key == i then set_shard weight key v (shard_of m key) else shard_at m i)
  unfolding set_map
  shard_at-set_map key i v m p =
      shard_at-set m (map_shard_key key) i (set_shard weight key v (shard_of m key))
        (rw p (key_in_range key))

  same_shard :
      (key other : ℕ) → (key == other) ≡ true → (map_shard_key key == map_shard_key other) ≡ true
  same_shard key other e =
      let e' : key ≡ other = ground arith in rw e' (==_refl (map_shard_key other))

  -- A sharded map with all its shards is one table: a value is found under its own key, and every other key is left
  -- alone, also those of the same shard.
  pub get-set_map :
      (key other : ℕ) (v : V) (m : Map V)
      → length m.shards ≡ num_of_shards
      → get (set_map weight key v m) other ≡ (if key == other then some v else get m other)
  unfolding get shard_of
  get-set_map key other v m p =
      rw (shard_at-set_map key (map_shard_key other) v m p)
        (elim (Bool-cases (map_shard_key key == map_shard_key other)) [
          | inl e ↦
              let e' : map_shard_key key ≡ map_shard_key other = ground arith in
              rw (e, get_shard-set_shard weight key other v (shard_at m (map_shard_key key)))
                (rw e')
          | inr e ↦ ground (arith, e, same_shard key other)
        ])

  -- One shard may be replaced by another that is counted right and holds keys of its own.
  replace-IsPlaced :
      (m : Map V) (i : ℕ) (s : Shard V)
      → IsPlaced m
      → i < num_of_shards
      → IsCounted weight s
      → ((k : ℕ) → get_shard s k ≢ none → map_shard_key k ≡ i)
      → IsPlaced (record m { shards = set m.shards i s })
  replace-IsPlaced m i s p h c own = record {
    size = length-set m.shards i s ∙ p.size;
    counted = λ j hj.
        rw (shard_at-set m i j s (rw p.size h))
          (elim (Bool-cases (i == j)) [ inl e ↦ rw e c | inr e ↦ rw e (p.counted j hj) ]);
    placed = λ j k hj. rw (shard_at-set m i j s (rw p.size h)) (elim (Bool-cases (i == j)) [
      | inl e ↦ rw e (λ f. own k f ∙ (==_iff i j).0 e)
      | inr e ↦ rw e (p.placed j k hj)
    ]);
  }

  -- Setting a key keeps the whole map in order: the counters of every shard stay right, and every
  -- key stays in its own shard.
  pub set_map-IsPlaced :
      (key : ℕ) (v : V) (m : Map V) → IsPlaced m → IsPlaced (set_map weight key v m)
  unfolding set_map shard_of
  set_map-IsPlaced key v m p =
      let i = map_shard_key key in
      replace-IsPlaced m i (set_shard weight key v (shard_at m i)) p (key_in_range key)
        (set_shard-IsCounted weight key v (shard_at m i) (p.counted i (key_in_range key)))
        λ k. rw (get_shard-set_shard weight key k v (shard_at m i)) (elim (Bool-cases (key == k)) [
          | inl e ↦ rw e (λ _. ap map_shard_key (sym ((==_iff key k).0 e)))
          | inr e ↦ rw e (p.placed i k (key_in_range key))
        ])

  remove_shard-fst :
      (key : ℕ) (m : Map V)
      → (remove_map weight key m).0 ≡ record m {
        shards = set m.shards (map_shard_key key) (remove_shard weight key (shard_of m key)).0;
      }
  unfolding remove_map
  remove_shard-fst key m = refl

  -- So does removing a key.
  pub remove_map-IsPlaced :
      (key : ℕ) (m : Map V) → IsPlaced m → IsPlaced (remove_map weight key m).0
  unfolding shard_of
  remove_map-IsPlaced key m p =
      let i = map_shard_key key in
      rw (remove_shard-fst key m) (
        replace-IsPlaced m i (remove_shard weight key (shard_at m i)).0 p (key_in_range key)
          (remove_shard-IsCounted weight key (shard_at m i) (p.counted i (key_in_range key)))
          λ k.
            rw (get_shard-remove_shard weight key k (shard_at m i)) (elim (Bool-cases (key == k)) [
              | inl e ↦ rw e (λ f. absurd (f refl))
              | inr e ↦ rw e (p.placed i k (key_in_range key))
            ]))

  -- A removed key is found no more, and every other key is left alone.
  pub get-remove_map :
      (key other : ℕ) (m : Map V)
      → length m.shards ≡ num_of_shards
      → get (remove_map weight key m).0 other ≡ (if key == other then none else get m other)
  unfolding get shard_of
  get-remove_map key other m p =
      let i = map_shard_key key in
      rw (remove_shard-fst key m) (
        rw
          (shard_at-set m i (map_shard_key other) (remove_shard weight key (shard_at m i)).0
            (rw p (key_in_range key)))
          (elim (Bool-cases (map_shard_key key == map_shard_key other)) [
            | inl e ↦
                let e' : map_shard_key key ≡ map_shard_key other = ground arith in
                rw (e, get_shard-remove_shard weight key other (shard_at m (map_shard_key key)))
                  (rw e')
            | inr e ↦ ground (arith, e, same_shard key other)
          ]))

  not_last : (k : ℕ) → map_shard_key k < active_shards → k % active_shards ≢ 0
  unfolding map_shard_key
  not_last k h = ground arith

  -- `Rnd` draws a shard below `ActiveShards`: whatever the map iteration picks there, a sampled value
  -- is one of the map, under a key that is no multiple of 2047. The values of the shard of the
  -- multiples are never sampled.
  pub rnd_misses :
      (pick : List (ℕ × V) → Option V) (r : ℕ) (v : V) (m : Map V)
      → ((l : List (ℕ × V)) (w : V) → pick l ≡ some w → (k : ℕ) × (find k l ≡ some w))
      → IsPlaced m
      → r < active_shards
      → rnd pick r m ≡ some v
      → (k : ℕ) × (get m k ≡ some v) × (k % active_shards ≢ 0)
  unfolding rnd get_rand get get_shard shard_of
  rnd_misses pick r v m law p h e =
      let (k, found) = law (shard_at m r).items v e in
      let here : map_shard_key k ≡ r = p.placed r k (omega arith) (λ n. cc (found, n)) in
      (k, rw here found, not_last k (omega (arith, here)))

  empty-IsCounted : (s : Shard V) → s.items ≡ [] → s.mem ≡ 0 → s.len ≡ 0 → IsCounted weight s
  unfolding total
  empty-IsCounted s items mem len = record {
    distinct = subst⁻¹ Distinct items tt;
    mem = mem ∙ ap (λ l. total weight l % 2 ^ 64) (sym items);
    len = len ∙ ap (λ (l : List (ℕ × V)). length l % 2 ^ 64) (sym items);
  }

  not_in_empty : (key : ℕ) (items : List (ℕ × V)) → items ≡ [] → find key items ≡ none
  unfolding find
  not_in_empty key items e = ap (find key) e

  pub get-new_map : (key : ℕ) → get (new_map {V = V}) key ≡ none
  unfolding get get_shard shard_of new_map
  get-new_map key =
      let i = map_shard_key key in
      not_in_empty key (shard_at new_map i).items (new_shards_empty num_of_shards 0 i i).0

  -- The map that `NewMap` builds is in order.
  pub new_map-IsPlaced : IsPlaced new_map
  unfolding new_map get_shard
  new_map-IsPlaced = record {
    size = length-new_shards V num_of_shards 0;
    counted = λ i h.
        (let (items, mem, len) = new_shards_empty num_of_shards 0 i i in
          empty-IsCounted (shard_at new_map i) items mem len);
    placed = λ i key h found.
        (let (items, mem, len) = new_shards_empty num_of_shards 0 i i in
          absurd (found (not_in_empty key (shard_at new_map i).items items)));
  }
