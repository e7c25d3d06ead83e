-- ===== src/Evict/Progress.antt =====
-- What the loops of pkg/storage/lru/evictor.go remove from a storage whose lists and map agree.
use mathlib.Core.Path.{subst}
use advinced_cache.Prelude.{
  ℕ, zero, suc, ◌+◌, ◌≤◌, ◌<◌, ◌≡◌, refl, ap, sym, ◌∙◌, true, Option, none, some, List, [], ◌∷◌,
  length, get_elem?, arith, Bool-cases, Option-cases, inl, inr,
}
use advinced_cache.Prelude.Outcome.{ok}
use advinced_cache.Sharded.{Map, get, get_shard, shard_of, remove_shard, remove_map, real_mem}
use advinced_cache.Ring.{Ring, next_at}
use advinced_cache.Ring.Laws.{next_at-IsRing}
use advinced_cache.Storage.{Storage, weight_at, unlink, remove_entry}
use advinced_cache.Storage.Linked.{In}
use advinced_cache.Storage.Linked.Removed.{remove_entry-IsLinked}
use advinced_cache.Storage.Linked.Runs.{Links, entries-remove_entry}
use advinced_cache.Evict.{
  Eviction, refresh_mem, should_evict_right_now, value_at, evict_one, evict_loop, evict_shard,
}
use advinced_cache.Evict.Ends.{
  refreshed, round_free, round_past, round_evicts, loop_over, loop_again, inside, shrinks,
}

get_elem?-In : (xs : List ℕ) (i x : ℕ) → get_elem? xs i ≡ some x → In x xs
get_elem?-In [] i x e = absurd (ground arith)
get_elem?-In (y ∷ xs) zero x e = inl (ground arith)
get_elem?-In (y ∷ xs) (suc i) x e = inr (get_elem?-In xs i x e)

get_elem?-there : (xs : List ℕ) (i : ℕ) → i < length xs → (x : ℕ) × (get_elem? xs i ≡ some x)
get_elem?-there [] i h = elim h [ ]
get_elem?-there (x ∷ xs) zero h = (x, refl)
get_elem?-there (x ∷ xs) (suc i) h = get_elem?-there xs i (omega arith)

-- Removing a key that is there is a hit.
hit-remove_shard :
    (weight : ℕ → ℕ) (key p : ℕ) (m : Map ℕ)
    → get m key ≡ some p
    → (remove_map weight key m).2 ≡ true
unfolding remove_map remove_shard get get_shard
hit-remove_shard weight key p m e = rw (e, remove_shard) refl

map-unlink : (p : ℕ) (s : Storage) → (unlink p s).sharded_map ≡ s.sharded_map
unfolding unlink
map-unlink p s = elim (Option-cases (s.entries p).lru_list_elem) [
  | inl e ↦ rw (e, unlink) refl
  | inr (el, e) ↦ rw (e, unlink) refl
]

hit-remove_entry :
    (p : ℕ) (s : Storage)
    → get s.sharded_map (s.entries p).key ≡ some p
    → (remove_entry p s).2 ≡ true
unfolding remove_entry
hit-remove_entry p s e =
    hit-remove_shard (weight_at (unlink p s)) ((unlink p s).entries p).key p
      (unlink p s).sharded_map
      (ap (λ m. get m ((unlink p s).entries p).key) (map-unlink p s)
        ∙ ap (λ f. get s.sharded_map (f p).key) (entries-remove_entry p s)
        ∙ e)

-- The counter of the map is no part of the links.
refreshed-Links : (ev : Eviction) → Links ev.storage → Links (refreshed ev).storage
unfolding refreshed refresh_mem real_mem get shard_of
refreshed-Links ev (lists, h) = (
  lists,
  record {
    size = h.size;
    rings = h.rings;
    listed = λ key p e.
        (let l = h.listed key p e in
          record {
            own_key = l.own_key;
            element = l.element;
            pointer = l.pointer;
            inside = l.inside;
            value = l.value;
          });
    held = λ i el m.
        (let k = h.held i el m in
          record {
            entry = k.entry;
            value = k.value;
            found = k.found;
            home = k.home;
            pointer = k.pointer;
          });
  },
)

value_of :
    (offset el : ℕ) (l : Ring ℕ)
    → next_at offset l ≡ some el
    → value_at offset l ≡ some (l.value el)
unfolding value_at
value_of offset el l e = rw (e, value_at) refl

no_value : (offset : ℕ) (l : Ring ℕ) → next_at offset l ≡ none → value_at offset l ≡ none
unfolding value_at
no_value offset l e = rw (e, value_at) refl

-- What stands at an offset of a list is an entry that is stored.
stored_at :
    (i offset : ℕ) (v : Option ℕ) (s : Storage)
    → Links s
    → value_at offset (s.rings i) ≡ some v
    → (p : ℕ) × (v ≡ some p) × (get s.sharded_map (s.entries p).key ≡ some p)
stored_at i offset v s (lists, h) e = elim (Option-cases (next_at offset (s.rings i))) [
  | inl n ↦
      let no : none ≡ some v = sym (no_value offset (s.rings i) n) ∙ e in absurd (ground arith)
  | inr (el, n) ↦
      let there = sym (next_at-IsRing (s.rings i) (lists i) offset (h.rings i)) ∙ n in
      let k = h.held i el (get_elem?-In (lists i) offset el there) in
      let two : some (some k.entry) ≡ some v =
        ap some (sym k.value) ∙ sym (value_of offset el (s.rings i) n) ∙ e in
      (k.entry, ground arith, k.found)
]

predecessor : (n : ℕ) → 0 < n → (m : ℕ) × (n ≡ suc m)
predecessor zero h = absurd (omega arith)
predecessor (suc m) h = (m, refl)

evict_one-Links :
    (p : ℕ) (ev : Eviction)
    → Links ev.storage
    → get ev.storage.sharded_map (ev.storage.entries p).key ≡ some p
    → Links (evict_one p ev).storage × ((evict_one p ev).items ≡ ev.items + 1)
unfolding evict_one
evict_one-Links p ev (lists, h) found =
    let (left, done, gone) =
      remove_entry-IsLinked (ev.storage.entries p).key p ev.storage lists h found in
    ((left, done), rw (hit-remove_entry p ev.storage found) refl)

-- The links stay, and the count does not fall.
abbrev Keeps : Eviction → Eviction → Type 0
Keeps ev ev' = Links ev'.storage × (ev.items ≤ ev'.items)

round-Links :
    (i offset p : ℕ) (ev : Eviction)
    → Links ev.storage
    → value_at offset ((refreshed ev).storage.rings i) ≡ some (some p)
    → Links (evict_one p (refreshed ev)).storage
      × ((evict_one p (refreshed ev)).items ≡ ev.items + 1)
unfolding refreshed
round-Links i offset p ev h e =
    let h' = refreshed-Links ev h in
    let (q, same, found) = stored_at i offset (some p) (refreshed ev).storage h' e in
    let same' : q ≡ p = ground arith in
    evict_one-Links p (refreshed ev) h' (
      subst
        (λ k.
          get (refreshed ev).storage.sharded_map ((refreshed ev).storage.entries k).key ≡ some k)
        same' found)

-- A linked list has no element without a value.
valued :
    (i offset : ℕ) (ev : Eviction)
    → Links ev.storage
    → value_at offset ((refreshed ev).storage.rings i) ≡ some none
    → ⊥
valued i offset ev h e =
    let (p, same, found) =
      stored_at i offset none (refreshed ev).storage (refreshed-Links ev h) e in
    ground arith

-- The loop ends without a panic.
abbrev Runs : ℕ → ℕ → ℕ → Eviction → Type 0
Runs n i offset ev = (ev' : Eviction) × (evict_loop n i offset ev ≡ some (ok ev')) × Keeps ev ev'

round-Runs :
    (n i offset : ℕ) (ev : Eviction)
    → Links ev.storage
    → ((p : ℕ)
        → value_at offset ((refreshed ev).storage.rings i) ≡ some (some p)
        → Links (evict_one p (refreshed ev)).storage
        → Runs n i (offset + 1) (evict_one p (refreshed ev)))
    → Runs (suc n) i offset ev
unfolding refreshed
round-Runs n i offset ev h next = elim (Bool-cases (should_evict_right_now ev.storage)) [
  | inr f ↦ (
    refreshed ev,
    loop_over n i offset ev (refreshed ev) (round_free i offset ev f),
    (refreshed-Links ev h, omega arith),
  )
  | inl t ↦ elim (Option-cases (value_at offset ((refreshed ev).storage.rings i))) [
    | inl v ↦ (
      refreshed ev,
      loop_over n i offset ev (refreshed ev) (round_past i offset ev t v),
      (refreshed-Links ev h, omega arith),
    )
    | inr (none, v) ↦ absurd (valued i offset ev h v)
    | inr (some p, v) ↦
        let (h', one) = round-Links i offset p ev h v in
        let (ev', e, (rest, more)) = next p v h' in
        (
          ev',
          loop_again n i offset ev (evict_one p (refreshed ev)) (round_evicts i offset p ev t v)
              ∙ e,
          (rest, omega arith),
        )
  ]
]

evict_loop-Runs :
    (n i offset : ℕ) (ev : Eviction)
    → Links ev.storage
    → (ev.storage.rings i).len ≤ n + offset
    → Runs (suc n) i offset ev
evict_loop-Runs zero i offset ev h fits =
    round-Runs zero i offset ev h (λ p v h'. let s = inside i offset p ev v in absurd (omega arith))
evict_loop-Runs (suc n) i offset ev h fits = round-Runs (suc n) i offset ev h (λ p v h'.
    let k = shrinks i p ev in
    evict_loop-Runs n i (offset + 1) (evict_one p (refreshed ev)) h' (omega arith))

first_value :
    (i : ℕ) (s : Storage)
    → Links s
    → 0 < (s.rings i).len
    → (p : ℕ) × (value_at 0 (s.rings i) ≡ some (some p))
first_value i s (lists, h) some_left =
    let counted = (h.rings i).counted in
    let (el, e) = get_elem?-there (lists i) 0 (omega arith) in
    let k = h.held i el (get_elem?-In (lists i) 0 el e) in
    (
      k.entry,
      value_of 0 el (s.rings i) (next_at-IsRing (s.rings i) (lists i) 0 (h.rings i) ∙ e)
          ∙ ap some k.value,
    )

-- On a storage whose lists and map agree, while the memory is at the threshold, the inner loop over
-- a shard whose list is not empty ends without a panic and has evicted at least one entry; it leaves
-- lists and map that agree.
pub evict_shard-Links :
    (i : ℕ) (ev : Eviction)
    → Links ev.storage
    → should_evict_right_now ev.storage ≡ true
    → 0 < (ev.storage.rings i).len
    → (ev' : Eviction) × (evict_shard i ev ≡ some (ok ev'))
      × Links ev'.storage
      × (ev.items < ev'.items)
unfolding evict_shard refreshed refresh_mem
evict_shard-Links i ev h t some_left =
    let (p, v) = first_value i ev.storage h some_left in
    let (h', one) = round-Links i 0 p ev h v in
    let k = shrinks i p ev in
    let (m, size) = predecessor (ev.storage.rings i).len some_left in
    let (ev', e, (rest, more)) =
      evict_loop-Runs m i 1 (evict_one p (refreshed ev)) h' (omega arith) in
    (
      ev',
      ap (λ n. evict_loop (suc n) i 0 ev) size
          ∙ loop_again (suc m) i 0 ev (evict_one p (refreshed ev)) (round_evicts i 0 p ev t v)
          ∙ e,
      rest,
      omega arith,
    )
