-- ===== src/Refresh/Runs.antt =====
-- Runs of pkg/storage/lru/refresher.go beside the calls of the storage, in any order.
use mathlib.Core.Path.{subst, subst⁻¹}
use advinced_cache.Prelude.{
  ℕ, ◌+◌, ◌≤◌, ◌≡◌, refl, ap, sym, ◌∙◌, Option, none, some, List, [], ◌∷◌, ◌++◌, length,
  length-append, arith, Option-cases, inl, inr,
}
use advinced_cache.Prelude.Outcome.{
  Error, ok, err, panic, Outcome-cases, ok_injective, panic_not_ok,
}
use advinced_cache.Entry.{Entry}
use advinced_cache.Entry.Payload.{set_payload}
use advinced_cache.Entry.Refresh.{Floats, Refreshing, revalidate}
use advinced_cache.Entry.RefreshLaws.{revalidate-Revalidated}
use advinced_cache.Storage.{Storage, write}
use advinced_cache.Storage.Linked.Touched.{Same, write-Same, rewrite-IsLinked}
use advinced_cache.Storage.Linked.Runs.{Links, Call, Call-Links}
use advinced_cache.Refresh.{Refresher, choose, scan_storage, finish}

-- A tick, a call of the storage or a goroutine that ends.
pub data Step : Refresher → Refresher → Type 0 where
  scanned :
      (f : Floats) (cfg : Refreshing) (pick : List (ℕ × ℕ) → Option ℕ) (shard now random : ℕ)
      (r : Refresher)
      → Step r (scan_storage f cfg pick shard now random r)
  called : (r : Refresher) (s : Storage) → Call r.storage s → Step r (record r { storage = s })
  finished :
      (now p : ℕ) (before after : List ℕ) (r r' : Refresher)
      → r.pending ≡ before ++ p ∷ after
      → finish now before p after r ≡ ok r'
      → Step r r'

pub data Reach (r : Refresher) : Refresher → Type 0 where
  here : Reach r r
  next : {t u : Refresher} → Reach r t → Step t u → Reach r u

-- Every entry that was found is being refreshed or was counted, no more were found than scans were
-- made, and the map and the lists agree.
pub record IsCounted (r : Refresher) : Type 0 where
  pub accounted : r.found ≡ r.successes + r.failures + length r.pending
  pub bounded : r.found ≤ r.scans
  pub links : Links r.storage

scan_none :
    (f : Floats) (cfg : Refreshing) (pick : List (ℕ × ℕ) → Option ℕ) (shard now random : ℕ)
    (r : Refresher)
    → choose f cfg pick shard now random r.storage ≡ none
    → scan_storage f cfg pick shard now random r ≡ record r { scans = r.scans + 1 }
unfolding scan_storage
scan_none f cfg pick shard now random r e = rw (e, scan_storage) refl

scan_some :
    (f : Floats) (cfg : Refreshing) (pick : List (ℕ × ℕ) → Option ℕ) (shard now random p : ℕ)
    (r : Refresher)
    → choose f cfg pick shard now random r.storage ≡ some p
    → scan_storage f cfg pick shard now random r
      ≡ record r { scans = r.scans + 1; found = r.found + 1; pending = r.pending ++ p ∷ [] }
unfolding scan_storage
scan_some f cfg pick shard now random p r e = rw (e, scan_storage) refl

scan_storage-IsCounted :
    (f : Floats) (cfg : Refreshing) (pick : List (ℕ × ℕ) → Option ℕ) (shard now random : ℕ)
    (r : Refresher)
    → IsCounted r
    → IsCounted (scan_storage f cfg pick shard now random r)
scan_storage-IsCounted f cfg pick shard now random r h =
    let a = h.accounted in
    let b = h.bounded in
    elim (Option-cases (choose f cfg pick shard now random r.storage)) [
      | inl e ↦
          subst⁻¹ IsCounted (scan_none f cfg pick shard now random r e)
            (record { accounted = a; bounded = omega arith; links = h.links })
      | inr (p, e) ↦
          let l = length-append r.pending (p ∷ []) in
          subst⁻¹ IsCounted (scan_some f cfg pick shard now random p r e)
            (record { accounted = omega arith; bounded = omega arith; links = h.links })
    ]

module _ (now p : ℕ) (before after : List ℕ) (r : Refresher) where
  -- What a goroutine leaves that ends with a success or with an error.
  abbrev succeeded : Entry → Refresher
  succeeded e = record r {
    pending = before ++ after;
    storage = record (r.storage) { entries = write p e r.storage.entries };
    successes = r.successes + 1;
  }

  abbrev failed : Refresher
  failed = record r { pending = before ++ after; failures = r.failures + 1 }

  finish_ok :
      (e : Entry)
      → revalidate now (r.storage.entries p) ≡ ok e
      → finish now before p after r ≡ ok (succeeded e)
  unfolding finish
  finish_ok e q = rw (q, finish) refl

  finish_err :
      (x : Error)
      → revalidate now (r.storage.entries p) ≡ err x
      → finish now before p after r ≡ ok failed
  unfolding finish
  finish_err x q = rw (q, finish) refl

  finish_panic : revalidate now (r.storage.entries p) ≡ panic → finish now before p after r ≡ panic
  unfolding finish
  finish_panic q = rw (q, finish) refl

  succeeded-Links :
      (e : Entry)
      → revalidate now (r.storage.entries p) ≡ ok e
      → Links r.storage
      → Links (succeeded e).storage
  unfolding set_payload
  succeeded-Links e q (lists, h) =
      let done = revalidate-Revalidated now (r.storage.entries p) e q in
      let same : Same e (r.storage.entries p) =
        subst⁻¹ (λ x. Same x (r.storage.entries p)) done.after (refl, refl, refl) in
      (
        lists,
        rewrite-IsLinked (write p e r.storage.entries) r.storage lists
            (λ a. write-Same p a e r.storage.entries same) h,
      )

  finish-IsCounted :
      (r' : Refresher)
      → r.pending ≡ before ++ p ∷ after
      → finish now before p after r ≡ ok r'
      → IsCounted r
      → IsCounted r'
  finish-IsCounted r' among e h =
      let a = h.accounted in
      let b = h.bounded in
      let l = ap length among ∙ length-append before (p ∷ after) in
      let m = length-append before after in
      elim (Outcome-cases (revalidate now (r.storage.entries p))) [
        | inl (x, q) ↦
            subst IsCounted (ok_injective (succeeded x) r' (sym (finish_ok x q) ∙ e)) (record {
              accounted = omega arith;
              bounded = omega arith;
              links = succeeded-Links x q h.links;
            })
        | inr (inl (x, q)) ↦
            subst IsCounted (ok_injective failed r' (sym (finish_err x q) ∙ e))
              (record { accounted = omega arith; bounded = omega arith; links = h.links })
        | inr (inr q) ↦ absurd (panic_not_ok r' (sym (finish_panic q) ∙ e))
      ]

Step-IsCounted : {r r' : Refresher} → Step r r' → IsCounted r → IsCounted r'
Step-IsCounted (scanned f cfg pick shard now random r) h =
    scan_storage-IsCounted f cfg pick shard now random r h
Step-IsCounted (called r s c) h = record {
  accounted = h.accounted;
  bounded = h.bounded;
  links = Call-Links c h.links;
}
Step-IsCounted (finished now p before after r r' among e) h =
    finish-IsCounted now p before after r r' among e h

-- However ticks, calls of the storage and the ends of refreshes follow one another: every entry that
-- was found is still being refreshed or was counted as a success or a failure, exactly once; no more
-- entries are found than scans were made; and the map and the LRU lists agree throughout.
pub Reach-IsCounted : {r r' : Refresher} → Reach r r' → IsCounted r → IsCounted r'
Reach-IsCounted here h = h
Reach-IsCounted (next reach step) h = Step-IsCounted step (Reach-IsCounted reach h)
