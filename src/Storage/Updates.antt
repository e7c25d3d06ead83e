-- ===== src/Storage/Updates.antt =====
-- The branches of `Set` of pkg/storage/lru/storage.go, and what it does to an entry that is stored
-- already.
use mathlib.Core.Path.{subst}
use advinced_cache.Prelude.{
  ℕ, ◌/◌, ◌≤◌, ◌≡◌, refl, ◌∙◌, true, false, none, some, length, ltb, ◌==◌, ==_refl, ==_iff,
  bytes_eq_refl, Bool-cases, Option-cases, inl, inr, arith,
}
use advinced_cache.KeyValue.{Bytes}
use advinced_cache.Entry.{
  Hasher, Entry, payload_bytes, weight, is_same_fingerprint, swap_payloads, touch_updated_at,
}
use advinced_cache.Sharded.{get}
use advinced_cache.Lfu.{count_access}
use advinced_cache.Storage.{
  Storage, sampled, payloads_are_equals, is_same_payload, touch, remove_entry, update,
  admit_and_insert, set_entry,
}

payloads_are_equals_refl : (h : Hasher) (a : Bytes) → payloads_are_equals h a a ≡ true
unfolding payloads_are_equals
payloads_are_equals_refl h a = elim (Bool-cases (ltb (length a) 32)) [
  | inl e ↦ rw (==_refl (length a), e) (bytes_eq_refl a)
  | inr e ↦ rw (==_refl (length a), e) (==_refl _)
]

pub same_payload : (h : Hasher) (e f : Entry) → e.payload ≡ f.payload → is_same_payload h e f ≡ true
same_payload h e f q = rw q (payloads_are_equals_refl h (payload_bytes f))

pub entries-touch : (p : ℕ) (s : Storage) → (touch p s).entries ≡ s.entries
unfolding touch
entries-touch p s = elim (Option-cases (s.entries p).lru_list_elem) [
  | inl e ↦ rw (e, touch) refl
  | inr (el, e) ↦ rw (e, touch) refl
]

pub map-touch : (p : ℕ) (s : Storage) → (touch p s).sharded_map ≡ s.sharded_map
unfolding touch
map-touch p s = elim (Option-cases (s.entries p).lru_list_elem) [
  | inl e ↦ rw (e, touch) refl
  | inr (el, e) ↦ rw (e, touch) refl
]

pub map-update :
    (now old new : ℕ) (s : Storage) → (update now old new s).sharded_map ≡ s.sharded_map
unfolding update
map-update now old new s = rw (map-touch old _) refl

unfoldable pub counted : ℕ → Storage → Storage
counted p s = record s { tiny_lfu = count_access (s.entries p).key s.tiny_lfu }

pub set_missing :
    (h : Hasher) (now p : ℕ) (s : Storage)
    → get s.sharded_map (s.entries p).key ≡ none
    → set_entry h now p s ≡ admit_and_insert p (counted p s)
unfolding set_entry counted
set_missing h now p s found = rw (found, set_entry) refl

pub set_touches :
    (h : Hasher) (now p old : ℕ) (s : Storage)
    → get s.sharded_map (s.entries p).key ≡ some old
    → is_same_fingerprint (s.entries old) (s.entries p).fingerprint ≡ true
    → is_same_payload h (s.entries old) (s.entries p) ≡ true
    → set_entry h now p s ≡ (touch old (counted p s), true)
unfolding set_entry counted
set_touches h now p old s found same payload = rw (found, same, payload, set_entry) refl

pub set_swaps :
    (h : Hasher) (now p old : ℕ) (s : Storage)
    → get s.sharded_map (s.entries p).key ≡ some old
    → is_same_fingerprint (s.entries old) (s.entries p).fingerprint ≡ true
    → is_same_payload h (s.entries old) (s.entries p) ≡ false
    → set_entry h now p s ≡ (update now old p (counted p s), true)
unfolding set_entry counted
set_swaps h now p old s found same payload = rw (found, same, payload, set_entry) refl

pub set_replaces :
    (h : Hasher) (now p old : ℕ) (s : Storage)
    → get s.sharded_map (s.entries p).key ≡ some old
    → is_same_fingerprint (s.entries old) (s.entries p).fingerprint ≡ false
    → set_entry h now p s ≡ admit_and_insert p (remove_entry old (counted p s)).0
unfolding set_entry counted
set_replaces h now p old s found same = rw (found, same, set_entry) refl

entry-update_self :
    (now old : ℕ) (s : Storage)
    → (update now old old s).entries old
      ≡ record (s.entries old) { updated_at = now / 1_000_000_000 }
unfolding update swap_payloads touch_updated_at
entry-update_self now old s = rw (entries-touch old _, ==_refl old) refl

-- The entry that `update` leaves at the old pointer.
pub entry-update :
    (now old new : ℕ) (s : Storage)
    → (update now old new s).entries old ≡ record (s.entries old) {
      payload = (s.entries new).payload;
      updated_at = now / 1_000_000_000;
    }
unfolding update swap_payloads touch_updated_at
entry-update now old new s = elim (Bool-cases (old == new)) [
  | inl e ↦
      subst
        (λ k. (update now old k s).entries old ≡ record (s.entries old) {
          payload = (s.entries k).payload;
          updated_at = now / 1_000_000_000;
        })
        ((==_iff old new).0 e) (entry-update_self now old s)
  | inr e ↦ rw (entries-touch old _, ==_refl old, e) refl
]

map-counted : (p : ℕ) (s : Storage) → (counted p s).sharded_map ≡ s.sharded_map
unfolding counted
map-counted p s = refl

entries-counted : (p : ℕ) (s : Storage) → (counted p s).entries ≡ s.entries
unfolding counted
entries-counted p s = refl

updated_weight :
    (now old p : ℕ) (s : Storage)
    → weight ((update now old p (counted p s)).entries old) ≡ weight (s.entries p)
unfolding weight counted
updated_weight now old p s = rw (entry-update now old p (counted p s)) refl

-- Updating an entry that is already stored changes its payload and leaves the map with all its
-- counters as it was: the memory that the storage reports does not follow the new weight.
pub set_entry_updates :
    (h : Hasher) (now p old : ℕ) (s : Storage)
    → get s.sharded_map (s.entries p).key ≡ some old
    → is_same_fingerprint (s.entries old) (s.entries p).fingerprint ≡ true
    → is_same_payload h (s.entries old) (s.entries p) ≡ false
    → let (s', persisted) = set_entry h now p s in
      (persisted ≡ true)
      × (s'.sharded_map ≡ s.sharded_map)
      × (weight (s'.entries old) ≡ weight (s.entries p))
set_entry_updates h now p old s found same other =
    rw (set_swaps h now p old s found same other)
      (refl, map-update now old p (counted p s) ∙ map-counted p s, updated_weight now old p s)

overlooked :
    (h : Hasher) (a b : Bytes)
    → length a ≡ length b
    → 32 ≤ length a
    → sampled h a ≡ sampled h b
    → payloads_are_equals h a b ≡ true
unfolding payloads_are_equals
overlooked h a b size long same =
    let far : ltb (length b) 32 ≡ false =
      rw size at (let k : ltb (length a) 32 ≡ false = ground arith in k) in
    rw (size, ==_refl (length b), far, same) (==_refl (sampled h b))

-- A new payload of the same length, at least 32 bytes, that agrees with the stored one in the three
-- samples is dropped: `Set` answers that the entry was persisted, and no entry changes.
pub set_entry_overlooks :
    (h : Hasher) (now p old : ℕ) (s : Storage)
    → get s.sharded_map (s.entries p).key ≡ some old
    → is_same_fingerprint (s.entries old) (s.entries p).fingerprint ≡ true
    → length (payload_bytes (s.entries old)) ≡ length (payload_bytes (s.entries p))
    → 32 ≤ length (payload_bytes (s.entries old))
    → sampled h (payload_bytes (s.entries old)) ≡ sampled h (payload_bytes (s.entries p))
    → let (s', persisted) = set_entry h now p s in
      (persisted ≡ true) × (s'.entries ≡ s.entries) × (s'.sharded_map ≡ s.sharded_map)
set_entry_overlooks h now p old s found same size long samples =
    let q =
      overlooked h (payload_bytes (s.entries old)) (payload_bytes (s.entries p)) size long
        samples in
    rw (set_touches h now p old s found same q) (
      refl,
      entries-touch old (counted p s) ∙ entries-counted p s,
      map-touch old (counted p s) ∙ map-counted p s,
    )
