-- ===== src/Refresh.antt =====
-- pkg/storage/lru/refresher.go: the workers that scan the storage and refresh what they find. A tick
-- of the scan limiter is one `scan_storage`; the goroutine that it may start is one `finish` later on, of any
-- of the `pending` ones. The counters are those that the log reads and resets, counted from the start.
pub mod Runs
use advinced_cache.Prelude.{
  ℕ, ◌+◌, Bool, true, false, Option, none, some, List, [], ◌∷◌, ◌++◌, if◌then◌else◌,
}
use advinced_cache.Prelude.Outcome.{Outcome, ok, err, panic}
use advinced_cache.Entry.{Entry}
use advinced_cache.Entry.Refresh.{Floats, Refreshing, should_be_refreshed, revalidate}
use advinced_cache.Sharded.{rnd}
use advinced_cache.Storage.{Storage, write}

pub record Refresher : Type 0 where
  pub storage : Storage
  pub pending : List ℕ
  pub scans : ℕ
  pub found : ℕ
  pub successes : ℕ
  pub failures : ℕ

-- `r.storage.Rand()` yields an entry to refresh: `pick` and `shard` as for `Rnd`.
unfoldable pub choose :
    Floats → Refreshing → (List (ℕ × ℕ) → Option ℕ) → ℕ → ℕ → ℕ → Storage → Option ℕ
choose f cfg pick shard now random s = elim (rnd pick shard s.sharded_map) [
  | none ↦ none
  | some p ↦ if should_be_refreshed f cfg now random (s.entries p) then some p else none
]

unfoldable pub scan_storage :
    Floats → Refreshing → (List (ℕ × ℕ) → Option ℕ) → ℕ → ℕ → ℕ → Refresher → Refresher
unfolding choose
scan_storage f cfg pick shard now random r =
    let r = record r { scans = r.scans + 1 } in
    elim (choose f cfg pick shard now random r.storage) [
      | none ↦ r
      | some p ↦ record r { found = r.found + 1; pending = r.pending ++ p ∷ [] }
    ]

-- `entry.Revalidate()` and its counter, for the started goroutine of `p` between the others.
unfoldable pub finish : ℕ → List ℕ → ℕ → List ℕ → Refresher → Outcome Refresher
finish now before p after r =
    let r = record r { pending = before ++ after } in
    elim (revalidate now (r.storage.entries p)) [
      | ok e ↦ ok (record r {
        storage = record (r.storage) { entries = write p e r.storage.entries };
        successes = r.successes + 1;
      })
      | err e ↦ ok (record r { failures = r.failures + 1 })
      | panic ↦ panic
    ]
