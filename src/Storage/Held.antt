-- ===== src/Storage/Held.antt =====
-- What `Set` of pkg/storage/lru/storage.go leaves in the storage when it keeps an entry.
use mathlib.Core.Path.{subst}
use advinced_cache.Prelude.{
  ℕ, ◌≡◌, refl, ap, ◌∙◌, true, false, some, length, length-set, ==_refl, eq_of_bytes_eq, Bool-cases,
  Option-cases, inl, inr, arith,
}
use advinced_cache.Entry.{Hasher, Entry, num_of_shards, is_same_fingerprint}
use advinced_cache.Sharded.{Map, get, remove_map}
use advinced_cache.Sharded.Placed.{get-set_map}
use advinced_cache.Lfu.{admit}
use advinced_cache.Storage.{
  Storage, is_same_payload, push, touch, unlink, find_victim, should_evict, weight_at, remove_entry,
  update, insert, admit_and_insert, set_entry,
}
use advinced_cache.Storage.Updates.{
  same_payload, entries-touch, map-touch, map-update, counted, set_missing, set_touches, set_swaps,
  set_replaces, entry-update,
}

-- The entry that the map holds under a key.
pub record Holds (h : Hasher) (s : Storage) (key : ℕ) (e : Entry) : Type 0 where
  pub pointer : ℕ
  pub found : get s.sharded_map key ≡ some pointer
  pub fingerprint : (s.entries pointer).fingerprint ≡ e.fingerprint
  pub payload : is_same_payload h (s.entries pointer) e ≡ true

-- A kept entry of `admit_and_insert`.
entries-insert : (p : ℕ) (s : Storage) → ((insert p s).entries p).payload ≡ (s.entries p).payload
unfolding insert push
entries-insert p s = rw (==_refl p) refl

fingerprint-insert :
    (p : ℕ) (s : Storage) → ((insert p s).entries p).fingerprint ≡ (s.entries p).fingerprint
unfolding insert push
fingerprint-insert p s = rw (==_refl p) refl

get-insert :
    (p : ℕ) (s : Storage)
    → length s.sharded_map.shards ≡ num_of_shards
    → get (insert p s).sharded_map (s.entries p).key ≡ some p
unfolding insert push
get-insert p s size =
    get-set_map (weight_at s) (s.entries p).key (s.entries p).key p s.sharded_map size
    ∙ rw (==_refl (s.entries p).key) refl

inserted-Holds :
    (h : Hasher) (p : ℕ) (s : Storage)
    → length s.sharded_map.shards ≡ num_of_shards
    → Holds h (insert p s) (s.entries p).key (s.entries p)
inserted-Holds h p s size = record {
  pointer = p;
  found = get-insert p s size;
  fingerprint = fingerprint-insert p s;
  payload = same_payload h ((insert p s).entries p) (s.entries p) (entries-insert p s);
}

false_kept : false ≡ true → ⊥
false_kept q = ground arith

-- Whatever the admission does, a kept entry is held.
admitted-Holds :
    (h : Hasher) (p : ℕ) (s : Storage)
    → length s.sharded_map.shards ≡ num_of_shards
    → (admit_and_insert p s).1 ≡ true
    → Holds h (admit_and_insert p s).0 (s.entries p).key (s.entries p)
unfolding admit_and_insert
admitted-Holds h p s size kept = elim (Bool-cases (should_evict s)) [
  | inr room ↦ rw (room, admit_and_insert) (inserted-Holds h p s size)
  | inl full ↦ elim (Option-cases (find_victim (s.entries p).shard s)) [
    | inl alone ↦ absurd (false_kept (rw (full, alone, admit_and_insert) at kept))
    | inr (victim, v) ↦
        let answer = admit (s.entries p).key (s.entries victim).key s.tiny_lfu in
        elim (Bool-cases answer.1) [
          | inl fits ↦
              rw (full, v, fits, admit_and_insert)
                (inserted-Holds h p (record s { tiny_lfu = answer.0 }) size)
          | inr refused ↦ absurd (false_kept (rw (full, v, refused, admit_and_insert) at kept))
        ]
  ]
]

same_print :
    (e f : Entry) → is_same_fingerprint e f.fingerprint ≡ true → e.fingerprint ≡ f.fingerprint
unfolding is_same_fingerprint
same_print e f q = eq_of_bytes_eq e.fingerprint f.fingerprint q

entries-unlink : (p : ℕ) (s : Storage) → (unlink p s).entries ≡ s.entries
unfolding unlink
entries-unlink p s = elim (Option-cases (s.entries p).lru_list_elem) [
  | inl e ↦ rw (e, unlink) refl
  | inr (el, e) ↦ rw (e, unlink) refl
]

map-unlink : (p : ℕ) (s : Storage) → (unlink p s).sharded_map ≡ s.sharded_map
unfolding unlink
map-unlink p s = elim (Option-cases (s.entries p).lru_list_elem) [
  | inl e ↦ rw (e, unlink) refl
  | inr (el, e) ↦ rw (e, unlink) refl
]

size-remove_map :
    (weigh : ℕ → ℕ) (key : ℕ) (m : Map ℕ)
    → length (remove_map weigh key m).0.shards ≡ length m.shards
unfolding remove_map
size-remove_map weigh key m = length-set m.shards _ _

entries-remove_entry : (p : ℕ) (s : Storage) → (remove_entry p s).0.entries ≡ s.entries
unfolding remove_entry
entries-remove_entry p s = entries-unlink p s

size-remove_entry :
    (p : ℕ) (s : Storage)
    → length (remove_entry p s).0.sharded_map.shards ≡ length s.sharded_map.shards
unfolding remove_entry
size-remove_entry p s =
    size-remove_map (weight_at (unlink p s)) ((unlink p s).entries p).key (unlink p s).sharded_map
    ∙ ap (λ m. length m.shards) (map-unlink p s)

touched-Holds :
    (h : Hasher) (p old : ℕ) (s : Storage)
    → get s.sharded_map (s.entries p).key ≡ some old
    → is_same_fingerprint (s.entries old) (s.entries p).fingerprint ≡ true
    → is_same_payload h (s.entries old) (s.entries p) ≡ true
    → Holds h (touch old (counted p s)) (s.entries p).key (s.entries p)
unfolding counted
touched-Holds h p old s found same payload = record {
  pointer = old;
  found = rw (map-touch old (counted p s)) found;
  fingerprint =
      rw (entries-touch old (counted p s)) (same_print (s.entries old) (s.entries p) same);
  payload = rw (entries-touch old (counted p s)) payload;
}

updated-Holds :
    (h : Hasher) (now p old : ℕ) (s : Storage)
    → get s.sharded_map (s.entries p).key ≡ some old
    → is_same_fingerprint (s.entries old) (s.entries p).fingerprint ≡ true
    → Holds h (update now old p (counted p s)) (s.entries p).key (s.entries p)
unfolding counted
updated-Holds h now p old s found same = record {
  pointer = old;
  found = rw (map-update now old p (counted p s)) found;
  fingerprint =
      ap (λ e. e.fingerprint) (entry-update now old p (counted p s))
      ∙ same_print (s.entries old) (s.entries p) same;
  payload =
      same_payload h ((update now old p (counted p s)).entries old) (s.entries p)
        (ap (λ e. e.payload) (entry-update now old p (counted p s)));
}

replaced-Holds :
    (h : Hasher) (p old : ℕ) (s : Storage)
    → length s.sharded_map.shards ≡ num_of_shards
    → (admit_and_insert p (remove_entry old (counted p s)).0).1 ≡ true
    → Holds h
        (admit_and_insert p (remove_entry old (counted p s)).0).0
        (s.entries p).key
        (s.entries p)
unfolding counted
replaced-Holds h p old s size kept =
    let r = (remove_entry old (counted p s)).0 in
    subst (λ f. Holds h (admit_and_insert p r).0 (f p).key (f p))
      (entries-remove_entry old (counted p s))
      (admitted-Holds h p r (size-remove_entry old (counted p s) ∙ size) kept)

-- When `Set` on a map with all its shards answers that the entry was persisted, the map holds under its key an entry with its
-- fingerprint whose payload passes for the same: whether it was inserted, replaced one of another
-- fingerprint, or met one of its own.
pub set_entry-Holds :
    (h : Hasher) (now p : ℕ) (s : Storage)
    → length s.sharded_map.shards ≡ num_of_shards
    → (set_entry h now p s).1 ≡ true
    → Holds h (set_entry h now p s).0 (s.entries p).key (s.entries p)
unfolding counted
set_entry-Holds h now p s size kept = elim (Option-cases (get s.sharded_map (s.entries p).key)) [
  | inl e ↦
      rw (set_missing h now p s e)
        (admitted-Holds h p (counted p s) size (rw (set_missing h now p s e) at kept))
  | inr (old, found) ↦
      elim (Bool-cases (is_same_fingerprint (s.entries old) (s.entries p).fingerprint)) [
        | inr other ↦
            rw (set_replaces h now p old s found other)
              (replaced-Holds h p old s size (rw (set_replaces h now p old s found other) at kept))
        | inl same ↦ elim (Bool-cases (is_same_payload h (s.entries old) (s.entries p))) [
          | inl q ↦
              rw (set_touches h now p old s found same q) (touched-Holds h p old s found same q)
          | inr q ↦
              rw (set_swaps h now p old s found same q) (updated-Holds h now p old s found same)
        ]
      ]
]
