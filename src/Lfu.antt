-- ===== src/Lfu.antt =====
-- pkg/storage/lfu: the count-min sketch, the doorkeeper filter and the TinyLFU admission built on
-- them. A table of the source is a function from its indices; random seeds come in as arguments.
-- `uint32` and `uint64` wrap.
pub mod DoorLaws
pub mod SketchLaws
pub mod Admission
use Prim.Native.Nat.{bit_and, bit_or, bit_xor}
use advinced_cache.Prelude.{
  ℕ, zero, suc, ◌+◌, ◌-◌, ◌*◌, ◌/◌, ◌%◌, ◌^◌, Bool, true, false, not, ◌&&◌, ltb, leb, ◌==◌,
  if◌then◌else◌,
}
use advinced_cache.Prelude.Word.{u32_mod, u64_mod}

abbrev pub sketch_depth : ℕ
sketch_depth = 4

abbrev pub sketch_width : ℕ
sketch_width = 2 ^ 17

unfoldable pub hash64 : ℕ → ℕ → ℕ
hash64 seed key =
    let x = bit_xor key seed in
    let x = bit_xor x (x / 2 ^ 33) in
    let x = x * 0xff51afd7ed558ccd % u64_mod in
    let x = bit_xor x (x / 2 ^ 33) in
    let x = x * 0xc4ceb9fe1a85ec53 % u64_mod in bit_xor x (x / 2 ^ 33)

pub record Sketch : Type 0 where
  pub table : ℕ → ℕ → ℕ
  pub seeds : ℕ → ℕ

abbrev pub new_sketch : (ℕ → ℕ) → Sketch
new_sketch seeds = record { table = λ i j. 0; seeds = seeds }

-- `hash64(c.seeds[i], key) % sketchWidth`.
unfoldable pub cell : Sketch → ℕ → ℕ → ℕ
unfolding hash64
cell c i key = hash64 (c.seeds i) key % sketch_width

unfoldable pub bump : Sketch → ℕ → ℕ → Sketch
bump c i idx = record c {
  table = λ r j. if (r == i) && (j == idx) then (c.table r j + 1) % u32_mod else c.table r j;
}

-- The loop of `Increment` from row `i`, with `n` rows left.
unfoldable pub increment_rows : ℕ → ℕ → ℕ → Sketch → Sketch
increment_rows zero i key c = c
increment_rows (suc n) i key c = increment_rows n (i + 1) key (bump c i (cell c i key))

unfoldable pub increment : ℕ → Sketch → Sketch
increment key c = increment_rows sketch_depth 0 key c

-- The loop of `estimate`.
unfoldable pub estimate_rows : ℕ → ℕ → ℕ → Sketch → ℕ → ℕ
estimate_rows zero i key c mins = mins
estimate_rows (suc n) i key c mins =
    let val = c.table i (cell c i key) in
    estimate_rows n (i + 1) key c (if ltb val mins then val else mins)

unfoldable pub estimate : ℕ → Sketch → ℕ
estimate key c = estimate_rows sketch_depth 0 key c (u32_mod - 1)

abbrev pub doorkeeper_capacity : ℕ
doorkeeper_capacity = 2 ^ 19

pub record Doorkeeper : Type 0 where
  pub bits : ℕ → ℕ
  pub seed0 : ℕ
  pub seed1 : ℕ
  pub mask : ℕ

abbrev pub new_doorkeeper : ℕ → ℕ → ℕ → Doorkeeper
new_doorkeeper capacity seed0 seed1 =
    let size = capacity / 64 in
    record { bits = λ i. 0; seed0 = seed0; seed1 = seed1; mask = size * 64 - 1 }

-- `(bits[h/64] & (1 << (h % 64))) != 0`.
unfoldable pub has_bit : Doorkeeper → ℕ → Bool
has_bit d h = not (bit_and (d.bits (h / 64)) (2 ^ (h % 64)) == 0)

-- `atomic.OrUint64(&bits[h/64], 1<<(h%64))`.
unfoldable pub set_bit : ℕ → Doorkeeper → Doorkeeper
set_bit h d = record d {
  bits = λ i. if i == h / 64 then bit_or (d.bits i) (2 ^ (h % 64)) else d.bits i;
}

unfoldable pub door_hash : Doorkeeper → ℕ → ℕ → ℕ
unfolding hash64
door_hash d seed key = bit_and (hash64 seed key) d.mask

unfoldable pub allow : ℕ → Doorkeeper → Doorkeeper × Bool
allow key d =
    let h1 = door_hash d d.seed0 key in
    let h2 = door_hash d d.seed1 key in
    if has_bit d h1 && has_bit d h2 then (d, true) else (set_bit h2 (set_bit h1 d), false)

pub record TinyLfu : Type 0 where
  pub curr : Sketch
  pub prev : Sketch
  pub door : Doorkeeper

unfoldable pub count_access : ℕ → TinyLfu → TinyLfu
count_access key t = record t { curr = increment key t.curr; door = (allow key t.door).0 }

unfoldable pub frequency : ℕ → TinyLfu → ℕ
frequency key t = (estimate key t.curr + estimate key t.prev) % u32_mod / 2

unfoldable pub admit : ℕ → ℕ → TinyLfu → TinyLfu × Bool
admit new_key old_key t =
    let (door, known) = allow new_key t.door in
    (
      record t { door = door },
      if not known then true else leb (frequency old_key t) (frequency new_key t),
    )

-- `Rotate`, with the seeds that the new sketch and the new doorkeeper draw.
unfoldable pub rotate : (ℕ → ℕ) → ℕ → ℕ → TinyLfu → TinyLfu
rotate seeds seed0 seed1 t = record {
  curr = new_sketch seeds;
  prev = t.curr;
  door = new_doorkeeper doorkeeper_capacity seed0 seed1;
}
