-- ===== src/Storage/Linked/Runs.antt =====
-- Runs of pkg/storage/lru/storage.go from the empty storage: any sequence of calls.
use mathlib.Core.Path.{subst⁻¹}
use advinced_cache.Prelude.{
  ℕ, ◌≡◌, ◌≢◌, refl, ap, sym, ◌∙◌, true, false, some, none, List, [], inl, inr, Bool, Bool-cases,
  Option-cases, arith,
}
use advinced_cache.Entry.{Hasher, Entry, is_same_fingerprint}
use advinced_cache.Sharded.{new_map, get}
use advinced_cache.Sharded.Placed.{new_map-IsPlaced, get-new_map}
use advinced_cache.Ring.{new_ring}
use advinced_cache.Lfu.{TinyLfu, admit}
use advinced_cache.Storage.{
  Storage, is_same_payload, find_victim, write, should_evict, get_entry, touch, insert, unlink,
  remove_entry, admit_and_insert, set_entry,
}
use advinced_cache.Storage.Updates.{counted, set_missing, set_touches, set_swaps, set_replaces}
use advinced_cache.Storage.Linked.{In, IsLinked}
use advinced_cache.Storage.Linked.Touched.{touch-IsLinked, update-IsLinked}
use advinced_cache.Storage.Linked.Removed.{remove_entry-IsLinked}
use advinced_cache.Storage.Linked.Inserted.{insert-IsLinked, extended, write_other}

-- Some lists that the storage is linked with.
abbrev pub Links : Storage → Type 0
Links s = (lists : ℕ → List ℕ) × IsLinked s lists

-- The admission is no part of the links.
lfu_kept :
    (t : TinyLfu) (s : Storage) (lists : ℕ → List ℕ)
    → IsLinked s lists
    → IsLinked (record s { tiny_lfu = t }) lists
lfu_kept t s lists h = record {
  size = h.size;
  rings = h.rings;
  listed = λ key p e.
      (let l = h.listed key p e in
        record {
          own_key = l.own_key;
          element = l.element;
          pointer = l.pointer;
          inside = l.inside;
          value = l.value;
        });
  held = λ i el m.
      (let k = h.held i el m in
        record {
          entry = k.entry;
          value = k.value;
          found = k.found;
          home = k.home;
          pointer = k.pointer;
        });
}

get-none :
    (req : Entry) (s : Storage) → get s.sharded_map req.key ≡ none → get_entry req s ≡ (s, none)
unfolding get_entry
get-none req s e = rw (e, get_entry) refl

get_same :
    (req : Entry) (p : ℕ) (s : Storage)
    → get s.sharded_map req.key ≡ some p
    → is_same_fingerprint (s.entries p) req.fingerprint ≡ true
    → get_entry req s ≡ (touch p s, some p)
unfolding get_entry
get_same req p s e q = rw (e, q, get_entry) refl

get_other :
    (req : Entry) (p : ℕ) (s : Storage)
    → get s.sharded_map req.key ≡ some p
    → is_same_fingerprint (s.entries p) req.fingerprint ≡ false
    → get_entry req s ≡ (s, none)
unfolding get_entry
get_other req p s e q = rw (e, q, get_entry) refl

get_entry-Links : (req : Entry) (s : Storage) → Links s → Links (get_entry req s).0
get_entry-Links req s (lists, h) = elim (Option-cases (get s.sharded_map req.key)) [
  | inl e ↦ subst⁻¹ (λ r. Links r.0) (get-none req s e) (lists, h)
  | inr (p, e) ↦ elim (Bool-cases (is_same_fingerprint (s.entries p) req.fingerprint)) [
    | inl q ↦ subst⁻¹ (λ r. Links r.0) (get_same req p s e q) (touch-IsLinked req.key p s lists h e)
    | inr q ↦ subst⁻¹ (λ r. Links r.0) (get_other req p s e q) (lists, h)
  ]
]

-- The admission of `p`: the frequency and the verdict.
abbrev verdict : ℕ → ℕ → Storage → TinyLfu × Bool
verdict p v s = admit (s.entries p).key (s.entries v).key s.tiny_lfu

room : (p : ℕ) (s : Storage) → should_evict s ≡ false → admit_and_insert p s ≡ (insert p s, true)
unfolding admit_and_insert
room p s e = rw (e, admit_and_insert) refl

no_victim :
    (p : ℕ) (s : Storage)
    → should_evict s ≡ true
    → find_victim (s.entries p).shard s ≡ none
    → admit_and_insert p s ≡ (s, false)
unfolding admit_and_insert
no_victim p s e q = rw (e, q, admit_and_insert) refl

admitted :
    (p v : ℕ) (s : Storage)
    → should_evict s ≡ true
    → find_victim (s.entries p).shard s ≡ some v
    → (verdict p v s).1 ≡ true
    → admit_and_insert p s ≡ (insert p (record s { tiny_lfu = (verdict p v s).0 }), true)
unfolding admit_and_insert
admitted p v s e q r = rw (e, q, r, admit_and_insert) refl

declined :
    (p v : ℕ) (s : Storage)
    → should_evict s ≡ true
    → find_victim (s.entries p).shard s ≡ some v
    → (verdict p v s).1 ≡ false
    → admit_and_insert p s ≡ (record s { tiny_lfu = (verdict p v s).0 }, false)
unfolding admit_and_insert
declined p v s e q r = rw (e, q, r, admit_and_insert) refl

admit_and_insert-Links :
    (p : ℕ) (s : Storage)
    → get s.sharded_map (s.entries p).key ≡ none
    → Links s
    → Links (admit_and_insert p s).0
admit_and_insert-Links p s free (lists, h) = elim (Bool-cases (should_evict s)) [
  | inr e ↦
      subst⁻¹ (λ r. Links r.0) (room p s e)
        (extended p s lists h free, insert-IsLinked p s lists h free)
  | inl e ↦ elim (Option-cases (find_victim (s.entries p).shard s)) [
    | inl q ↦ subst⁻¹ (λ r. Links r.0) (no_victim p s e q) (lists, h)
    | inr (v, q) ↦
        let t = (verdict p v s).0 in
        let s' : Storage = record s { tiny_lfu = t } in
        let h' = lfu_kept t s lists h in
        elim (Bool-cases (verdict p v s).1) [
          | inl r ↦
              subst⁻¹ (λ r. Links r.0) (admitted p v s e q r)
                (extended p s' lists h' free, insert-IsLinked p s' lists h' free)
          | inr r ↦ subst⁻¹ (λ r. Links r.0) (declined p v s e q r) (lists, h')
        ]
  ]
]

pub entries-remove_entry : (p : ℕ) (s : Storage) → (remove_entry p s).0.entries ≡ s.entries
unfolding remove_entry unlink
entries-remove_entry p s = elim (Option-cases (s.entries p).lru_list_elem) [
  | inl e ↦ rw (e, remove_entry, unlink) refl
  | inr (el, e) ↦ rw (e, remove_entry, unlink) refl
]

set_entry-Links :
    (hasher : Hasher) (now p : ℕ) (s : Storage) → Links s → Links (set_entry hasher now p s).0
unfolding counted
set_entry-Links hasher now p s (lists, h) =
    let s1 = counted p s in
    let h1 = lfu_kept s1.tiny_lfu s lists h in
    elim (Option-cases (get s.sharded_map (s.entries p).key)) [
      | inl e ↦
          subst⁻¹ (λ r. Links r.0) (set_missing hasher now p s e)
            (admit_and_insert-Links p s1 e (lists, h1))
      | inr (old, e) ↦
          elim (Bool-cases (is_same_fingerprint (s.entries old) (s.entries p).fingerprint)) [
            | inl q ↦ elim (Bool-cases (is_same_payload hasher (s.entries old) (s.entries p))) [
              | inl r ↦
                  subst⁻¹ (λ r. Links r.0) (set_touches hasher now p old s e q r)
                    (touch-IsLinked (s.entries p).key old s1 lists h1 e)
              | inr r ↦
                  subst⁻¹ (λ r. Links r.0) (set_swaps hasher now p old s e q r)
                    (update-IsLinked now old p (s.entries p).key s1 lists h1 e)
            ]
            | inr q ↦
                let (left, done, gone) =
                  remove_entry-IsLinked (s.entries p).key old s1 lists h1 e in
                subst⁻¹ (λ r. Links r.0) (set_replaces hasher now p old s e q)
                  (admit_and_insert-Links p (remove_entry old s1).0
                    (subst⁻¹ (λ f. get (remove_entry old s1).0.sharded_map (f p).key ≡ none)
                      (entries-remove_entry old s1) gone)
                    (left, done))
          ]
    ]

-- A new entry at a pointer that is not stored.
made-Links :
    (p : ℕ) (e : Entry) (s : Storage)
    → ((key : ℕ) → get s.sharded_map key ≢ some p)
    → Links s
    → Links (record s { entries = write p e s.entries })
made-Links p e s free (lists, h) =
    let same : (key q : ℕ) → get s.sharded_map key ≡ some q → write p e s.entries q ≡ s.entries q =
      λ key q found.
        write_other p q e s.entries
          (λ r. free key (subst⁻¹ (λ z. get s.sharded_map key ≡ some z) r found)) in
    (
      lists,
      record {
        size = h.size;
        rings = h.rings;
        listed = λ key q found.
            (let l = h.listed key q found in
              let kept = same key q found in
              let home = ap (λ e. e.shard) kept in
              record {
                own_key = ap (λ e. e.key) kept ∙ l.own_key;
                element = l.element;
                pointer = ap (λ e. e.lru_list_elem) kept ∙ l.pointer;
                inside = subst⁻¹ (λ i. In l.element (lists i)) home l.inside;
                value = subst⁻¹ (λ i. (s.rings i).value l.element ≡ some q) home l.value;
              });
        held = λ i el m.
            (let k = h.held i el m in
              let kept = same (s.entries k.entry).key k.entry k.found in
              record {
                entry = k.entry;
                value = k.value;
                found = ap (λ e. get s.sharded_map e.key) kept ∙ k.found;
                home = ap (λ e. e.shard) kept ∙ k.home;
                pointer = ap (λ e. e.lru_list_elem) kept ∙ k.pointer;
              });
      },
    )

-- One call, or an entry that a caller makes at a pointer of its own.
pub data Call : Storage → Storage → Type 0 where
  make :
      (p : ℕ) (e : Entry) (s : Storage)
      → ((key : ℕ) → get s.sharded_map key ≢ some p)
      → Call s (record s { entries = write p e s.entries })
  get_call : (req : Entry) (s : Storage) → Call s (get_entry req s).0
  set_call : (hasher : Hasher) (now p : ℕ) (s : Storage) → Call s (set_entry hasher now p s).0
  remove_call :
      (key p : ℕ) (s : Storage) → get s.sharded_map key ≡ some p → Call s (remove_entry p s).0

-- The storage of `NewStorage`, with nothing in the map and the lists.
pub data Runs : Storage → Type 0 where
  start :
      (entries : ℕ → Entry) (t : TinyLfu) (threshold : ℕ)
      → Runs (record {
        entries = entries;
        sharded_map = new_map;
        rings = λ i. new_ring;
        tiny_lfu = t;
        memory_threshold = threshold;
      })
  next : {s s' : Storage} → Runs s → Call s s' → Runs s'

pub Call-Links : {s s' : Storage} → Call s s' → Links s → Links s'
Call-Links (make p e s free) h = made-Links p e s free h
Call-Links (get_call req s) h = get_entry-Links req s h
Call-Links (set_call hasher now p s) h = set_entry-Links hasher now p s h
Call-Links (remove_call key p s found) (lists, h) =
    let (left, done, gone) = remove_entry-IsLinked key p s lists h found in (left, done)

pub start-Links :
    (entries : ℕ → Entry) (t : TinyLfu) (threshold : ℕ)
    → Links (record {
      entries = entries;
      sharded_map = new_map;
      rings = λ i. new_ring;
      tiny_lfu = t;
      memory_threshold = threshold;
    })
start-Links entries t threshold = (
  λ i. [],
  record {
    size = (new_map-IsPlaced (λ p. 0)).size;
    rings = λ i. record {
      links = (refl, refl);
      apart = tt;
      inner = tt;
      given = tt;
      mine = tt;
      positive = omega arith;
      counted = refl;
    };
    listed = λ key p e.
        let no : none ≡ some p = sym (get-new_map (λ p. 0) key) ∙ e in absurd (ground arith);
    held = λ i el m. elim m [ ];
  },
)

-- After any sequence of `Get`, `Set` and `Remove` of stored entries, whatever entries the callers
-- make, the map and the LRU lists agree: each list is well formed; every entry that the map finds
-- stands under its own key and is held by the element it points to, which is in the list of its
-- shard; and every element of a list holds an entry of that shard that the map finds and that points
-- back to the element.
pub Runs-Links : {s : Storage} → Runs s → Links s
Runs-Links (start entries t threshold) = start-Links entries t threshold
Runs-Links (next r c) = Call-Links c (Runs-Links r)
