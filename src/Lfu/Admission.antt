-- ===== src/Lfu/Admission.antt =====
-- The admission of pkg/storage/lfu/tiny_lfu.go as `Set` of the storage uses it: the access is counted
-- first, then the key is compared with a victim.
use advinced_cache.Prelude.{ℕ, true, leb, ◌≡◌, refl}
use advinced_cache.Lfu.{TinyLfu, allow, count_access, frequency, admit}
use advinced_cache.Lfu.DoorLaws.{allow-is_known, allow-known}

admit_known :
    (t : TinyLfu) (key old : ℕ)
    → allow key t.door ≡ (t.door, true)
    → admit key old t ≡ (t, leb (frequency old t) (frequency key t))
unfolding admit
admit_known t key old e = rw e refl

door-count_access : (t : TinyLfu) (key : ℕ) → (count_access key t).door ≡ (allow key t.door).0
unfolding count_access
door-count_access t key = refl

-- Once the access of a key is counted, admitting it changes nothing and answers true exactly when
-- the victim's frequency is at most that of the key, whatever was counted before: the answer for a
-- key that the doorkeeper does not know is never reached.
pub admit-count_access :
    (t : TinyLfu) (key old : ℕ)
    → admit key old (count_access key t) ≡ (
      count_access key t,
      leb (frequency old (count_access key t)) (frequency key (count_access key t)),
    )
admit-count_access t key old = admit_known (count_access key t) key old (
    allow-known (count_access key t).door key
      (rw (door-count_access t key) (allow-is_known t.door key)))
