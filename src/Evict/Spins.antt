-- ===== src/Evict/Spins.antt =====
-- The outer loop of pkg/storage/lru/evictor.go over lists that hold nothing.
use mathlib.Core.Path.{subst⁻¹}
use advinced_cache.Prelude.{
  ℕ, zero, suc, ◌+◌, ◌≡◌, refl, ap, ◌∙◌, true, none, some, leb, ◌==◌, arith, Bool-cases,
  Option-cases, inl, inr,
}
use advinced_cache.Prelude.Outcome.{ok}
use advinced_cache.Sharded.{real_mem}
use advinced_cache.Storage.{Storage}
use advinced_cache.Balance.{most_loaded}
use advinced_cache.Evict.{refresh_mem, should_evict_right_now}
use advinced_cache.Evict.Until.{Evictor, more, advance, evict_most_loaded, visit, evict_until}

-- The memory is at the threshold and every list is empty.
pub record IsStuck (s : Storage) : Type 0 where
  pub full : should_evict_right_now s ≡ true
  pub empty : (i : ℕ) → (s.rings i).len ≡ 0

eviction-advance : (fat : ℕ) (st : Evictor) → (advance fat st).eviction ≡ st.eviction
unfolding advance
eviction-advance fat st = elim (Bool-cases (leb fat (st.shard_offset + 1))) [
  | inl e ↦ rw (e, advance) refl
  | inr e ↦ rw (e, advance) refl
]

most_loaded_empty :
    (st : Evictor)
    → ((i : ℕ) → (st.eviction.storage.rings i).len ≡ 0)
    → evict_most_loaded st ≡ some (ok st)
unfolding evict_most_loaded
most_loaded_empty st empty = elim (Option-cases (most_loaded st.shard_offset st.balance)) [
  | inl e ↦ rw (e, evict_most_loaded) refl
  | inr (i, e) ↦
      let nothing : ((st.eviction.storage.rings i).len == 0) ≡ true =
        let z = empty i in ground arith in
      rw (e, nothing, evict_most_loaded) refl
]

-- The state at the start of a turn.
abbrev refreshed : Evictor → Evictor
refreshed st = record st {
  eviction = record st.eviction { storage = refresh_mem st.eviction.storage };
}

visit_full :
    (fat : ℕ) (st : Evictor)
    → should_evict_right_now st.eviction.storage ≡ true
    → visit fat st ≡ more (evict_most_loaded (advance fat (refreshed st)))
unfolding visit
visit_full fat st e = rw (e, visit) refl

turn_again :
    (n fat : ℕ) (st st' : Evictor)
    → visit fat st ≡ more (some (ok st'))
    → evict_until (suc n) fat st ≡ evict_until n fat st'
unfolding evict_until
turn_again n fat st st' e = rw (e, evict_until) refl

refreshed-IsStuck : (s : Storage) → IsStuck s → IsStuck (refresh_mem s)
unfolding refresh_mem should_evict_right_now real_mem
refreshed-IsStuck s h = record { full = h.full; empty = h.empty }

visit-IsStuck :
    (fat : ℕ) (st : Evictor)
    → IsStuck st.eviction.storage
    → (st' : Evictor) × (visit fat st ≡ more (some (ok st'))) × IsStuck st'.eviction.storage
visit-IsStuck fat st h =
    let ahead = advance fat (refreshed st) in
    let same = eviction-advance fat (refreshed st) in
    let stuck : IsStuck ahead.eviction.storage =
      subst⁻¹ (λ ev. IsStuck ev.storage) same (refreshed-IsStuck st.eviction.storage h) in
    (ahead, visit_full fat st h.full ∙ ap more (most_loaded_empty ahead stuck.empty), stuck)

-- While the memory is at the threshold and the LRU lists are empty, the loop of the evictor never
-- ends, whatever the order of the shards and however many turns it takes.
pub evict_until_spins :
    (fuel fat : ℕ) (st : Evictor) → IsStuck st.eviction.storage → evict_until fuel fat st ≡ none
unfolding evict_until
evict_until_spins zero fat st h = refl
evict_until_spins (suc n) fat st h =
    let (st', e, h') = visit-IsStuck fat st h in
    turn_again n fat st st' e ∙ evict_until_spins n fat st' h'
