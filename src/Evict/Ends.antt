-- ===== src/Evict/Ends.antt =====
-- How long the inner loop of pkg/storage/lru/evictor.go runs.
use advinced_cache.Prelude.{
  ℕ, zero, suc, ◌+◌, ◌≤◌, ◌<◌, ◌≡◌, refl, sym, ◌∙◌, true, false, Option, none, some, leb, ◌==◌,
  arith, Bool-cases, Option-cases, inl, inr,
}
use advinced_cache.Prelude.Outcome.{Outcome, ok, panic}
use advinced_cache.Ring.{Ring, next_at, remove, detach}
use advinced_cache.Storage.{Storage, write, unlink, remove_entry}
use advinced_cache.Evict.{
  Eviction, over, again, crashed, refresh_mem, should_evict_right_now, value_at, evict_one,
  evict_round, evict_loop, evict_shard,
}

len-remove : (e : ℕ) (l : Ring ℕ) → (remove e l).len ≤ l.len
unfolding remove detach
len-remove e l = elim (Bool-cases (l.owned e)) [
  | inl o ↦ rw (o, remove) (omega arith)
  | inr o ↦ rw (o, remove) (omega arith)
]

len-write :
    (i j : ℕ) (l : Ring ℕ) (f : ℕ → Ring ℕ) → l.len ≤ (f i).len → (write i l f j).len ≤ (f j).len
len-write i j l f h = elim (Bool-cases (j == i)) [
  | inl e ↦ let q : j ≡ i = ground arith in rw (e, q) h
  | inr e ↦ rw e (omega arith)
]

len-unlink : (p i : ℕ) (s : Storage) → ((unlink p s).rings i).len ≤ (s.rings i).len
unfolding unlink
len-unlink p i s = elim (Option-cases (s.entries p).lru_list_elem) [
  | inl e ↦ rw (e, unlink) (omega arith)
  | inr (el, e) ↦
      rw (e, unlink)
        (len-write (s.entries p).shard i (remove el (s.rings (s.entries p).shard)) s.rings
          (len-remove el (s.rings (s.entries p).shard)))
]

-- Evicting an entry makes no list longer.
len-evict_one :
    (p i : ℕ) (ev : Eviction) → ((evict_one p ev).storage.rings i).len ≤ (ev.storage.rings i).len
unfolding evict_one remove_entry
len-evict_one p i ev = len-unlink p i ev.storage

-- There is a value only inside the list.
value_at-outside : (offset : ℕ) (l : Ring ℕ) → leb l.len offset ≡ true → value_at offset l ≡ none
unfolding value_at next_at
value_at-outside offset l past = rw (past, value_at, next_at) refl

value_at-inside :
    (offset : ℕ) (v : Option ℕ) (l : Ring ℕ) → value_at offset l ≡ some v → offset < l.len
value_at-inside offset v l h = elim (Bool-cases (leb l.len offset)) [
  | inl past ↦ let no : none ≡ some v = sym (value_at-outside offset l past) ∙ h in ground arith
  | inr inside ↦ ground arith
]

-- The state in which a round looks at the list.
unfoldable pub refreshed : Eviction → Eviction
refreshed ev = record ev { storage = refresh_mem ev.storage }

rings-refreshed : (ev : Eviction) → (refreshed ev).storage.rings ≡ ev.storage.rings
unfolding refreshed refresh_mem
rings-refreshed ev = refl

pub round_free :
    (i offset : ℕ) (ev : Eviction)
    → should_evict_right_now ev.storage ≡ false
    → evict_round i offset ev ≡ over (refreshed ev)
unfolding evict_round refreshed
round_free i offset ev f = rw (f, evict_round) refl

pub round_past :
    (i offset : ℕ) (ev : Eviction)
    → should_evict_right_now ev.storage ≡ true
    → value_at offset ((refreshed ev).storage.rings i) ≡ none
    → evict_round i offset ev ≡ over (refreshed ev)
unfolding evict_round refreshed
round_past i offset ev f v = rw (f, v, evict_round) refl

pub round_evicts :
    (i offset p : ℕ) (ev : Eviction)
    → should_evict_right_now ev.storage ≡ true
    → value_at offset ((refreshed ev).storage.rings i) ≡ some (some p)
    → evict_round i offset ev ≡ again (evict_one p (refreshed ev))
unfolding evict_round refreshed
round_evicts i offset p ev f v = rw (f, v, evict_round) refl

round_crashes :
    (i offset : ℕ) (ev : Eviction)
    → should_evict_right_now ev.storage ≡ true
    → value_at offset ((refreshed ev).storage.rings i) ≡ some none
    → evict_round i offset ev ≡ crashed
unfolding evict_round refreshed
round_crashes i offset ev f v = rw (f, v, evict_round) refl

pub loop_over :
    (n i offset : ℕ) (ev ev' : Eviction)
    → evict_round i offset ev ≡ over ev'
    → evict_loop (suc n) i offset ev ≡ some (ok ev')
unfolding evict_loop
loop_over n i offset ev ev' e = rw (e, evict_loop) refl

pub loop_again :
    (n i offset : ℕ) (ev ev' : Eviction)
    → evict_round i offset ev ≡ again ev'
    → evict_loop (suc n) i offset ev ≡ evict_loop n i (offset + 1) ev'
unfolding evict_loop
loop_again n i offset ev ev' e = rw (e, evict_loop) refl

loop_crashed :
    (n i offset : ℕ) (ev : Eviction)
    → evict_round i offset ev ≡ crashed
    → evict_loop (suc n) i offset ev ≡ some panic
unfolding evict_loop
loop_crashed n i offset ev e = rw (e, evict_loop) refl

-- A result that both amounts of fuel come to.
Ends : ℕ → ℕ → ℕ → ℕ → Eviction → Type 0
Ends n m i offset ev =
    (o : Outcome Eviction) × (evict_loop n i offset ev ≡ some o)
    × (evict_loop m i offset ev ≡ some o)

-- A loop ends if it ends after every round that goes on.
round-Ends :
    (n m i offset : ℕ) (ev : Eviction)
    → ((p : ℕ)
        → value_at offset ((refreshed ev).storage.rings i) ≡ some (some p)
        → Ends n m i (offset + 1) (evict_one p (refreshed ev)))
    → Ends (suc n) (suc m) i offset ev
unfolding Ends
round-Ends n m i offset ev rest = elim (Bool-cases (should_evict_right_now ev.storage)) [
  | inr f ↦
      let r = round_free i offset ev f in
      (
        ok (refreshed ev),
        loop_over n i offset ev (refreshed ev) r,
        loop_over m i offset ev (refreshed ev) r,
      )
  | inl t ↦ elim (Option-cases (value_at offset ((refreshed ev).storage.rings i))) [
    | inl v ↦
        let r = round_past i offset ev t v in
        (
          ok (refreshed ev),
          loop_over n i offset ev (refreshed ev) r,
          loop_over m i offset ev (refreshed ev) r,
        )
    | inr (none, v) ↦
        let r = round_crashes i offset ev t v in
        (panic, loop_crashed n i offset ev r, loop_crashed m i offset ev r)
    | inr (some p, v) ↦
        let r = round_evicts i offset p ev t v in
        let (o, short, long) = rest p v in
        (
          o,
          loop_again n i offset ev (evict_one p (refreshed ev)) r ∙ short,
          loop_again m i offset ev (evict_one p (refreshed ev)) r ∙ long,
        )
  ]
]

pub inside :
    (i offset p : ℕ) (ev : Eviction)
    → value_at offset ((refreshed ev).storage.rings i) ≡ some (some p)
    → offset < (ev.storage.rings i).len
unfolding refreshed refresh_mem
inside i offset p ev v = value_at-inside offset (some p) (ev.storage.rings i) v

pub shrinks :
    (i p : ℕ) (ev : Eviction)
    → ((evict_one p (refreshed ev)).storage.rings i).len ≤ (ev.storage.rings i).len
unfolding refreshed refresh_mem
shrinks i p ev = len-evict_one p i (refreshed ev)

loop-Ends :
    (n m i offset : ℕ) (ev : Eviction)
    → (ev.storage.rings i).len ≤ n + offset
    → (ev.storage.rings i).len ≤ m + offset
    → Ends (suc n) (suc m) i offset ev
loop-Ends zero m i offset ev hn hm =
    round-Ends zero m i offset ev (λ p v. let s = inside i offset p ev v in absurd (omega arith))
loop-Ends (suc n) zero i offset ev hn hm =
    round-Ends (suc n) zero i offset ev
      (λ p v. let s = inside i offset p ev v in absurd (omega arith))
loop-Ends (suc n) (suc m) i offset ev hn hm = round-Ends (suc n) (suc m) i offset ev (λ p v.
    let k = shrinks i p ev in
    loop-Ends n m i (offset + 1) (evict_one p (refreshed ev)) (omega arith) (omega arith))

-- The inner loop ends, however the memory and the threshold stand and whatever the list holds: within
-- as many rounds as the list of the shard has elements and one more it breaks or panics, and more
-- fuel than that comes to the same result. Here a loop that has spent its fuel has no result.
pub evict_loop-evict_shard :
    (n i : ℕ) (ev : Eviction)
    → (ev.storage.rings i).len ≤ n
    → (o : Outcome Eviction) × (evict_shard i ev ≡ some o) × (evict_loop (suc n) i 0 ev ≡ some o)
unfolding evict_shard Ends
evict_loop-evict_shard n i ev h =
    loop-Ends (ev.storage.rings i).len n i 0 ev (omega arith) (omega arith)
