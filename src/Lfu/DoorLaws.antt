-- ===== src/Lfu/DoorLaws.antt =====
-- What the doorkeeper of pkg/storage/lfu/door_keeper.go remembers.
use native.Mathlib.Nat.{one-le-pow}
use advinced_cache.Prelude.{
  ℕ, ◌/◌, ◌%◌, ◌^◌, ◌≡◌, refl, Bool, true, ◌&&◌, arith, ==_refl, Bool-cases, inl, inr,
}
use advinced_cache.Prelude.Bits.{bit_and-bit_or_self, bit_and-bit_or-le}
use advinced_cache.Lfu.{Doorkeeper, has_bit, set_bit, door_hash, allow}

has_bit-set_bit : (d : Doorkeeper) (h : ℕ) → has_bit (set_bit h d) h ≡ true
unfolding has_bit set_bit
has_bit-set_bit d h =
    rw (==_refl (h / 64))
      (ground (arith, bit_and-bit_or_self (d.bits (h / 64)) (2 ^ (h % 64)), one-le-pow (h % 64) 2))

has_bit_stays : (d : Doorkeeper) (h g : ℕ) → has_bit d h ≡ true → has_bit (set_bit g d) h ≡ true
unfolding has_bit set_bit
has_bit_stays d h g e =
    ground (arith, bit_and-bit_or-le (d.bits (h / 64)) (2 ^ (g % 64)) (2 ^ (h % 64)))

left_holds : (a b : Bool) → (a && b) ≡ true → a ≡ true
left_holds a b e = ground arith

right_holds : (a b : Bool) → (a && b) ≡ true → b ≡ true
right_holds a b e = ground arith

-- Both bits of a key are set.
unfoldable pub is_known : ℕ → Doorkeeper → Bool
is_known key d = has_bit d (door_hash d d.seed0 key) && has_bit d (door_hash d d.seed1 key)

both_hold : {a b : Bool} → a ≡ true → b ≡ true → (a && b) ≡ true
both_hold p q = rw (p, q) refl

-- The hash of a key reads only the seed and the mask.
door_hash-set_bit :
    (d : Doorkeeper) (g s key : ℕ) → door_hash (set_bit g d) s key ≡ door_hash d s key
unfolding door_hash set_bit
door_hash-set_bit d g s key = refl

seed0-set_bit : (d : Doorkeeper) (g : ℕ) → (set_bit g d).seed0 ≡ d.seed0
unfolding set_bit
seed0-set_bit d g = refl

seed1-set_bit : (d : Doorkeeper) (g : ℕ) → (set_bit g d).seed1 ≡ d.seed1
unfolding set_bit
seed1-set_bit d g = refl

is_known-set_bit :
    (d : Doorkeeper) (key g : ℕ) → is_known key d ≡ true → is_known key (set_bit g d) ≡ true
unfolding is_known has_bit set_bit
is_known-set_bit d key g e =
    rw
      (
        seed0-set_bit d g,
        seed1-set_bit d g,
        door_hash-set_bit d g d.seed0 key,
        door_hash-set_bit d g d.seed1 key,
      )
      (both_hold (has_bit_stays d (door_hash d d.seed0 key) g (left_holds _ _ e))
        (has_bit_stays d (door_hash d d.seed1 key) g (right_holds _ _ e)))

set_both-is_known :
    (d : Doorkeeper) (key : ℕ)
    → is_known key (set_bit (door_hash d d.seed1 key) (set_bit (door_hash d d.seed0 key) d)) ≡ true
unfolding is_known has_bit set_bit
set_both-is_known d key =
    let h1 = door_hash d d.seed0 key in
    let h2 = door_hash d d.seed1 key in
    rw
      (
        seed0-set_bit (set_bit h1 d) h2,
        seed1-set_bit (set_bit h1 d) h2,
        seed0-set_bit d h1,
        seed1-set_bit d h1,
        door_hash-set_bit (set_bit h1 d) h2 d.seed0 key,
        door_hash-set_bit (set_bit h1 d) h2 d.seed1 key,
        door_hash-set_bit d h1 d.seed0 key,
        door_hash-set_bit d h1 d.seed1 key,
      )
      (both_hold (has_bit_stays (set_bit h1 d) h1 h2 (has_bit-set_bit d h1))
        (has_bit-set_bit (set_bit h1 d) h2))

is_known_of :
    {b : Bool} (d : Doorkeeper) (key : ℕ)
    → is_known key d ≡ b
    → (has_bit d (door_hash d d.seed0 key) && has_bit d (door_hash d d.seed1 key)) ≡ b
unfolding is_known
is_known_of d key e = e

-- A key that was let through once is known from then on.
pub allow-is_known : (d : Doorkeeper) (key : ℕ) → is_known key (allow key d).0 ≡ true
unfolding allow
allow-is_known d key = elim (Bool-cases (is_known key d)) [
  | inl e ↦ rw (is_known_of d key e) e
  | inr e ↦ rw (is_known_of d key e) (set_both-is_known d key)
]

-- A known key is reported so, and the filter stays as it is.
pub allow-known : (d : Doorkeeper) (key : ℕ) → is_known key d ≡ true → allow key d ≡ (d, true)
unfolding allow
allow-known d key e = rw (is_known_of d key e) refl
