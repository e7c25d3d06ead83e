-- ===== src/Dump/Framing.antt =====
-- The records that `Dump` of pkg/storage/dumper.go writes, as its loader reads them.
use advinced_cache.Prelude.{
  ℕ, zero, suc, ◌+◌, ◌*◌, ◌/◌, ◌%◌, ◌^◌, ◌≤◌, ◌<◌, ◌≡◌, refl, ◌∙◌, Bool, true, false, not, ◌&&◌,
  List, [], ◌∷◌, ◌++◌, some, length, length-append, take, drop, take-append, drop-append, leb, ◌==◌,
  ==_refl, if◌then◌else◌, arith, Bool-cases, inl, inr,
}
use advinced_cache.Prelude.Word.{u32_mod, put_u32}
use advinced_cache.Prelude.Outcome.{ok}
use advinced_cache.KeyValue.{Bytes}
use advinced_cache.Config.{Rules, match_rule}
use advinced_cache.Entry.{Entry, Revalidator}
use advinced_cache.Entry.Dumped.{to_bytes}
use advinced_cache.Entry.DumpedLaws.{IsStorable, reloaded, entry_from_bytes-to_bytes}
use advinced_cache.Dump.{
  crc32, dump_record, dump_shard, meta, read_meta, Loaded, failed, stop, next, store, load_record,
  load_step, load_loop, load_file,
}

read_meta-put :
    (n c : ℕ) (rest : Bytes)
    → n < u32_mod
    → c < u32_mod
    → read_meta (put_u32 n ++ put_u32 c ++ rest) ≡ meta n c rest
unfolding read_meta
read_meta-put n c rest h g =
    let e1 : n % 256
          + n / 256 % 256 * 2 ^ 8
          + n / 65536 % 256 * 2 ^ 16
          + n / 16777216 % 256 * 2 ^ 24
        ≡ n =
      omega arith in
    ground arith

crc32_bound : (body : Bytes) → crc32 body < u32_mod
unfolding crc32
crc32_bound body = omega arith

-- The entry can be dumped and its rule is still configured.
pub record IsLoadable (rules : Rules) (e : Entry) : Type 0 where
  pub storable : IsStorable e
  pub size : length (to_bytes e) < u32_mod
  pub found : match_rule rules e.rule.path_bytes ≡ some e.rule

abbrev pub AllLoadable : Rules → List Entry → Type 0
AllLoadable rules [] = Unit
AllLoadable rules (e ∷ es) = IsLoadable rules e × AllLoadable rules es

-- What loading the entries one after the other comes to.
unfoldable pub stored :
    {S : Type 0} → (Entry → S → S) → Revalidator → List Entry → Loaded S → Loaded S
stored set maker [] acc = acc
stored set maker (e ∷ es) acc =
    stored set maker es
      (record acc { storage = set (reloaded maker e) acc.storage; success = acc.success + 1 })

module _ {S : Type 0} (set : Entry → S → S) (done : ℕ → Bool) (crc_control : Bool) (rules : Rules)
    (maker : Revalidator) (now : ℕ) where
  load_step-meta :
      (sz c : ℕ) (bytes rest : Bytes) (acc : Loaded S)
      → read_meta bytes ≡ meta sz c rest
      → load_step set done crc_control rules maker now bytes acc ≡ (
          if leb sz (length rest)
          then load_record set done crc_control rules maker now c (take sz rest) (drop sz rest) acc
          else stop (failed acc))
  unfolding load_step
  load_step-meta sz c bytes rest acc e = rw (e, load_step) refl

  load_step-frame :
      (c : ℕ) (body rest : Bytes) (acc : Loaded S)
      → length body < u32_mod
      → c < u32_mod
      → load_step set done crc_control rules maker now
          (put_u32 (length body) ++ put_u32 c ++ body ++ rest)
          acc
        ≡ load_record set done crc_control rules maker now c body rest acc
  load_step-frame c body rest acc h g =
      let fits : leb (length body) (length (body ++ rest)) ≡ true =
        ground (arith, length-append body rest) in
      load_step-meta (length body) c _ (body ++ rest) acc
        (read_meta-put (length body) c (body ++ rest) h g)
      ∙ rw (fits, take-append body rest, drop-append body rest) refl

  loop_next :
      (fuel : ℕ) (bytes rest : Bytes) (acc acc' : Loaded S)
      → load_step set done crc_control rules maker now bytes acc ≡ next acc' rest
      → load_loop set done crc_control rules maker now (suc fuel) bytes acc
        ≡ load_loop set done crc_control rules maker now fuel rest acc'
  unfolding load_loop
  loop_next fuel bytes rest acc acc' e = rw (e, load_loop) refl

  record_skips :
      (c : ℕ) (body rest : Bytes) (acc : Loaded S)
      → crc_control ≡ true
      → (crc32 body == c) ≡ false
      → load_record set done crc_control rules maker now c body rest acc ≡ next (failed acc) rest
  unfolding load_record
  record_skips c body rest acc on bad = rw (on, bad) refl

  -- With crc control on, a record whose length and checksum are 32-bit words and whose checksum does
  -- not fit its data is counted as a failure and skipped, and the loop goes on behind it.
  pub load_loop_skips :
      (fuel c : ℕ) (body rest : Bytes) (acc : Loaded S)
      → length body < u32_mod
      → c < u32_mod
      → crc_control ≡ true
      → (crc32 body == c) ≡ false
      → load_loop set done crc_control rules maker now
          (suc fuel)
          (put_u32 (length body) ++ put_u32 c ++ body ++ rest)
          acc
        ≡ load_loop set done crc_control rules maker now fuel rest (failed acc)
  load_loop_skips fuel c body rest acc h g on bad =
      loop_next fuel _ rest acc (failed acc)
        (load_step-frame c body rest acc h g ∙ record_skips c body rest acc on bad)

  record_stores :
      (e : Entry) (c : ℕ) (rest : Bytes) (acc : Loaded S)
      → IsLoadable rules e
      → (crc_control && not (crc32 (to_bytes e) == c)) ≡ false
      → load_record set done crc_control rules maker now c (to_bytes e) rest acc
        ≡ store set done crc_control rules maker now (reloaded maker e) rest acc
  unfolding load_record
  record_stores e c rest acc ok_e good =
      rw (good, entry_from_bytes-to_bytes rules maker now e ok_e.storable ok_e.found) refl

  -- The checksum that `Dump` writes fits.
  crc_fits :
      (e : Entry)
      → (crc_control && not (crc32 (to_bytes e) == (if crc_control then crc32 (to_bytes e) else 0)))
        ≡ false
  crc_fits e = elim (Bool-cases crc_control) [
    | inl t ↦ rw (t, ==_refl (crc32 (to_bytes e))) refl
    | inr f ↦ rw f refl
  ]

  crc_small : (e : Entry) → (if crc_control then crc32 (to_bytes e) else 0) < u32_mod
  crc_small e = let b = crc32_bound (to_bytes e) in ground arith

  step_dumped :
      (e : Entry) (rest : Bytes) (acc : Loaded S)
      → IsLoadable rules e
      → load_step set done crc_control rules maker now (dump_record crc_control e ++ rest) acc
        ≡ store set done crc_control rules maker now (reloaded maker e) rest acc
  unfolding dump_record
  step_dumped e rest acc h =
      let crc = if crc_control then crc32 (to_bytes e) else 0 in
      let small : length (to_bytes e) % u32_mod ≡ length (to_bytes e) =
        let s = h.size in omega arith in
      rw small (
        load_step-frame crc (to_bytes e) rest acc h.size (crc_small e)
        ∙ record_stores e crc rest acc h (crc_fits e))

  store_live :
      (e : Entry) (rest : Bytes) (acc : Loaded S)
      → done (acc.success + 1) ≡ false
      → store set done crc_control rules maker now e rest acc
        ≡ next (record acc { storage = set e acc.storage; success = acc.success + 1 }) rest
  unfolding store
  store_live e rest acc live = rw live refl

  load_loop-dump_shard :
      (es : List Entry) (fuel : ℕ) (acc : Loaded S)
      → AllLoadable rules es
      → ((n : ℕ) → done n ≡ false)
      → length es ≤ fuel
      → load_loop set done crc_control rules maker now (suc fuel) (dump_shard crc_control es) acc
        ≡ some (ok (stored set maker es acc))
  unfolding load_loop dump_shard stored load_step read_meta
  load_loop-dump_shard [] fuel acc h live lt = refl
  load_loop-dump_shard (e ∷ es) zero acc h live lt = ground arith
  load_loop-dump_shard (e ∷ es) (suc fuel) acc h live lt =
      loop_next (suc fuel) (dump_record crc_control e ++ dump_shard crc_control es) _ acc _ (
        step_dumped e (dump_shard crc_control es) acc h.0
        ∙ store_live (reloaded maker e) (dump_shard crc_control es) acc (live (acc.success + 1)))
      ∙ load_loop-dump_shard es fuel _ h.1 live (omega arith)

  entries_fit : (es : List Entry) → length es ≤ length (dump_shard crc_control es)
  unfolding dump_shard dump_record
  entries_fit [] = omega arith
  entries_fit (e ∷ es) =
      let ih = entries_fit es in
      let l = length-append (to_bytes e) (dump_shard crc_control es) in omega (arith)

  -- Loading the file that `Dump` wrote for some entries, with the same crc setting, stores each of
  -- them once, in order, as the entry that it was with the loader's revalidator, and counts no
  -- failure: for entries that can be dumped, whose rules are still configured, in a context that is
  -- not cancelled.
  pub load_file-dump_shard :
      (es : List Entry) (acc : Loaded S)
      → AllLoadable rules es
      → ((n : ℕ) → done n ≡ false)
      → load_file set done crc_control rules maker now (dump_shard crc_control es) acc
        ≡ some (ok (stored set maker es acc))
  unfolding load_file
  load_file-dump_shard es acc h live =
      load_loop-dump_shard es (length (dump_shard crc_control es)) acc h live (entries_fit es)
