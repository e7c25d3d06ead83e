-- ===== src/Sharded/Count.antt =====
-- The counters of a shard of pkg/storage/map/shard.go, against what the shard holds.
use advinced_cache.Prelude.{
  ℕ, ◌+◌, ◌%◌, ◌^◌, ◌≡◌, ◌⊎◌, refl, true, false, none, some, List, [], ◌∷◌, arith, length, ◌==◌,
  ==_iff, if◌then◌else◌, Option-cases, inl, inr,
}
use advinced_cache.Sharded.{Shard, clear_shard, get_shard, set_shard, remove_shard}
use advinced_cache.Sharded.Table.{
  find, put, delete, find-put, find-delete, Distinct, put-Distinct, delete-Distinct, delete_absent,
}

module _ {V : Type 0} (weight : V → ℕ) where
  -- The weight of all values.
  unfoldable pub total : List (ℕ × V) → ℕ
  total [] = 0
  total ((k, v) ∷ m) = weight v + total m

  total-put_new :
      (k : ℕ) (v : V) (m : List (ℕ × V))
      → find k m ≡ none
      → (total (put k v m) ≡ total m + weight v) × (length (put k v m) ≡ length m + 1)
  unfolding total find put
  total-put_new k v [] h = (omega arith, omega arith)
  total-put_new k v ((j, w) ∷ m) h = ground (arith, total-put_new k v m)

  total-put_old :
      (k : ℕ) (v old : V) (m : List (ℕ × V))
      → find k m ≡ some old
      → (total (put k v m) + weight old ≡ total m + weight v) × (length (put k v m) ≡ length m)
  unfolding total find put
  total-put_old k v old [] h = absurd (ground arith)
  total-put_old k v old ((j, w) ∷ m) h = ground (arith, total-put_old k v old m)

  total-delete :
      (k : ℕ) (old : V) (m : List (ℕ × V))
      → Distinct m
      → find k m ≡ some old
      → (total (delete k m) + weight old ≡ total m) × (length (delete k m) + 1 ≡ length m)
  unfolding total find delete
  total-delete k old [] d h = absurd (ground arith)
  total-delete k old ((j, w) ∷ m) d h =
      ground (arith, ==_iff j k, delete_absent k m, total-delete k old m d.1)

  -- The two counters are the number and the weight of the stored values, as `int64` holds them.
  pub record IsCounted (s : Shard V) : Type 0 where
    pub distinct : Distinct s.items
    pub mem : s.mem ≡ total s.items % 2 ^ 64
    pub len : s.len ≡ length s.items % 2 ^ 64

  -- Inserting and replacing keep the counters right.
  pub set_shard-IsCounted :
      (key : ℕ) (new : V) (s : Shard V) → IsCounted s → IsCounted (set_shard weight key new s)
  unfolding set_shard
  set_shard-IsCounted key new s c = elim (Option-cases (find key s.items)) [
    | inl miss ↦
        let (t, n) = total-put_new key new s.items miss in
        rw (miss, set_shard)
          (record {
            distinct = put-Distinct key new s.items c.distinct;
            mem = omega (arith, c.mem);
            len = omega (arith, c.len);
          })
    | inr (old, hit) ↦
        let (t, n) = total-put_old key new old s.items hit in
        rw (hit, set_shard)
          (record {
            distinct = put-Distinct key new s.items c.distinct;
            mem = omega (arith, c.mem);
            len = omega (arith, c.len);
          })
  ]

  -- Removing keeps the counters right, and reports the weight of what it removed, or a miss.
  pub remove_shard-IsCounted :
      (key : ℕ) (s : Shard V) → IsCounted s → IsCounted (remove_shard weight key s).0
  unfolding remove_shard
  remove_shard-IsCounted key s c = elim (Option-cases (find key s.items)) [
    | inl miss ↦ rw (miss, remove_shard) c
    | inr (old, hit) ↦
        let (t, n) = total-delete key old s.items c.distinct hit in
        rw (hit, remove_shard)
          (record {
            distinct = delete-Distinct key s.items c.distinct;
            mem = omega (arith, c.mem);
            len = omega (arith, c.len);
          })
  ]

  pub clear_shard-IsCounted : (s : Shard V) → IsCounted (clear_shard s)
  unfolding clear_shard total
  clear_shard-IsCounted s = record { distinct = tt; mem = refl; len = refl }

  -- A shard behaves as a map: what a call stores is found under its key, what it removes is not, and
  -- every other key is left alone.
  pub get_shard-set_shard :
      (key other : ℕ) (new : V) (s : Shard V)
      → get_shard (set_shard weight key new s) other
        ≡ (if key == other then some new else get_shard s other)
  unfolding get_shard set_shard
  get_shard-set_shard key other new s = elim (Option-cases (find key s.items)) [
    | inl miss ↦ rw (miss, set_shard) (find-put key other new s.items)
    | inr (old, hit) ↦ rw (hit, set_shard) (find-put key other new s.items)
  ]

  pub get_shard-remove_shard :
      (key other : ℕ) (s : Shard V)
      → get_shard (remove_shard weight key s).0 other
        ≡ (if key == other then none else get_shard s other)
  unfolding get_shard remove_shard
  get_shard-remove_shard key other s = elim (Option-cases (find key s.items)) [
    | inl miss ↦ rw (miss, remove_shard) (ground arith)
    | inr (old, hit) ↦ rw (hit, remove_shard) (find-delete key other s.items)
  ]

  -- `Remove` answers with the weight of the removed value exactly if the key was there.
  pub remove_shard_result :
      (key : ℕ) (s : Shard V)
      → (get_shard s key ≡ none) × (remove_shard weight key s ≡ (s, 0, false))
        ⊎ ((v : V) × (get_shard s key ≡ some v)
            × ((remove_shard weight key s).1 ≡ weight v)
            × ((remove_shard weight key s).2 ≡ true))
  unfolding get_shard remove_shard
  remove_shard_result key s = elim (Option-cases (find key s.items)) [
    | inl miss ↦ inl (miss, rw (miss, remove_shard))
    | inr (old, hit) ↦ inr (old, hit, rw (hit, remove_shard), rw (hit, remove_shard))
  ]
