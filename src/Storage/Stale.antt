-- ===== src/Storage/Stale.antt =====
-- How old an entry looks after `Set` of pkg/storage/lru/storage.go gave it a new payload.
use advinced_cache.Prelude.{ℕ, ◌-◌, ◌/◌, ◌<◌, ◌≤◌, ◌^◌, ◌≡◌, ap, ◌∙◌, true, false, some}
use advinced_cache.Entry.{Hasher, is_same_fingerprint, touch_updated_at}
use advinced_cache.Entry.Refresh.{
  Floats, Refreshing, settings, refresh_probability, should_be_refreshed,
}
use advinced_cache.Entry.RefreshLaws.{min_stale, touched_is_stale}
use advinced_cache.Sharded.{get}
use advinced_cache.Storage.{Storage, is_same_payload, update, set_entry}
use advinced_cache.Storage.Updates.{counted, set_swaps, entry-update}

-- The stored entry with the payload of the new one, which was touched.
touched-update :
    (now old p : ℕ) (s : Storage)
    → (update now old p (counted p s)).entries old
      ≡ touch_updated_at now (record (s.entries old) { payload = (s.entries p).payload })
unfolding touch_updated_at counted
touched-update now old p s = entry-update now old p (counted p s)

-- When `Set` gives a stored entry another payload, then at every later time the entry is refreshed
-- exactly when the draw is below the probability at its age, and its age, counted from the time of the
-- update in seconds, never holds the refresh back: where the rule does not switch the refreshing
-- off, the times are below 2 ^ 63, and the time to live times the coefficient is no more than the
-- time of the update less its seconds, all taken as nanoseconds.
pub set_entry_stale :
    (f : Floats) (cfg r : Refreshing) (h : Hasher) (now t random p old : ℕ) (s : Storage)
    → get s.sharded_map (s.entries p).key ≡ some old
    → is_same_fingerprint (s.entries old) (s.entries p).fingerprint ≡ true
    → is_same_payload h (s.entries old) (s.entries p) ≡ false
    → settings f cfg (s.entries old).rule ≡ some r
    → now ≤ t
    → t < 2 ^ 63
    → min_stale f r ≤ now - now / 1_000_000_000
    → should_be_refreshed f cfg t random ((set_entry h now p s).0.entries old)
      ≡ f.less random (refresh_probability f r (t - now / 1_000_000_000))
set_entry_stale f cfg r h now t random p old s found same other set later bound stale =
    let e = record (s.entries old) { payload = (s.entries p).payload } in
    ap (λ x. should_be_refreshed f cfg t random (x.0.entries old))
      (set_swaps h now p old s found same other)
    ∙ ap (should_be_refreshed f cfg t random) (touched-update now old p s)
    ∙ touched_is_stale f cfg r now t random e set later bound stale
