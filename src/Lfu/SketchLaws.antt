-- ===== src/Lfu/SketchLaws.antt =====
-- The counts of pkg/storage/lfu/count_min_sketch.go against a history of accesses.
use advinced_cache.Prelude.{
  ℕ, zero, suc, ◌+◌, ◌%◌, ◌≤◌, ◌<◌, ◌≡◌, refl, List, [], ◌∷◌, length, arith, ◌==◌, if◌then◌else◌,
}
use advinced_cache.Prelude.Word.{u32_mod}
use advinced_cache.Prelude.{◌-◌}
use advinced_cache.Lfu.{
  Sketch, new_sketch, cell, bump, increment, increment_rows, estimate, estimate_rows,
}

-- The sketch after counting the keys of a history, the latest first.
unfoldable pub count_all : (ℕ → ℕ) → List ℕ → Sketch
count_all seeds [] = new_sketch seeds
count_all seeds (k ∷ ks) = increment k (count_all seeds ks)

-- How often a key occurs.
unfoldable pub occurrences : ℕ → List ℕ → ℕ
occurrences key [] = 0
occurrences key (k ∷ ks) = let rest = occurrences key ks in if k == key then rest + 1 else rest

seeds-increment : (c : Sketch) (k : ℕ) → (increment k c).seeds ≡ c.seeds
unfolding increment increment_rows bump
seeds-increment c k = refl

cell-increment : (c : Sketch) (k i key : ℕ) → cell (increment k c) i key ≡ cell c i key
unfolding cell increment increment_rows bump
cell-increment c k i key = refl

cell-bump : (c : Sketch) (r x i key : ℕ) → cell (bump c r x) i key ≡ cell c i key
unfolding cell bump
cell-bump c r x i key = refl

table-increment :
    (c : Sketch) (k i j : ℕ)
    → i < 4
    → (increment k c).table i j
      ≡ (if j == cell c i k then (c.table i j + 1) % u32_mod else c.table i j)
unfolding increment increment_rows bump cell
table-increment c k zero j lt = refl
table-increment c k (suc zero) j lt = refl
table-increment c k (suc (suc zero)) j lt = refl
table-increment c k (suc (suc (suc zero))) j lt = refl
table-increment c k (suc (suc (suc (suc i)))) j lt = omega arith

table_bound :
    (seeds : ℕ → ℕ) (ks : List ℕ) (i j : ℕ)
    → i < 4
    → length ks < u32_mod
    → (count_all seeds ks).table i j ≤ length ks
unfolding count_all
table_bound seeds [] i j lt h = omega arith
table_bound seeds (k ∷ ks) i j lt h =
    let c = count_all seeds ks in
    let ih = table_bound seeds ks i j lt (omega arith) in
    rw (table-increment c k i j lt) (ground arith)

occurrences-table :
    (seeds : ℕ → ℕ) (ks : List ℕ) (key i : ℕ)
    → i < 4
    → length ks < u32_mod
    → occurrences key ks ≤ (count_all seeds ks).table i (cell (count_all seeds ks) i key)
unfolding count_all occurrences
occurrences-table seeds [] key i lt h = omega arith
occurrences-table seeds (k ∷ ks) key i lt h =
    let c = count_all seeds ks in
    let ih = occurrences-table seeds ks key i lt (omega arith) in
    let b = table_bound seeds ks i (cell c i key) lt (omega arith) in
    rw (cell-increment c k i key, table-increment c k i (cell c i key) lt) (ground arith)

estimate_floor :
    (c : Sketch) (key n : ℕ)
    → n ≤ u32_mod - 1
    → n ≤ c.table 0 (cell c 0 key)
    → n ≤ c.table 1 (cell c 1 key)
    → n ≤ c.table 2 (cell c 2 key)
    → n ≤ c.table 3 (cell c 3 key)
    → n ≤ estimate key c
unfolding estimate estimate_rows
estimate_floor c key n top a0 a1 a2 a3 = ground arith

occurrences-length : (key : ℕ) (ks : List ℕ) → occurrences key ks ≤ length ks
unfolding occurrences
occurrences-length key [] = omega arith
occurrences-length key (k ∷ ks) = let ih = occurrences-length key ks in ground arith

-- After fewer than 2 ^ 32 counted accesses to a fresh sketch, whatever its seeds, the estimate of a
-- key is at least the number of times it was counted.
pub estimate_floor_count :
    (seeds : ℕ → ℕ) (ks : List ℕ) (key : ℕ)
    → length ks < u32_mod
    → occurrences key ks ≤ estimate key (count_all seeds ks)
estimate_floor_count seeds ks key h =
    let o = occurrences-length key ks in
    estimate_floor (count_all seeds ks) key (occurrences key ks) (omega arith)
      (occurrences-table seeds ks key 0 (omega arith) h)
      (occurrences-table seeds ks key 1 (omega arith) h)
      (occurrences-table seeds ks key 2 (omega arith) h)
      (occurrences-table seeds ks key 3 (omega arith) h)
