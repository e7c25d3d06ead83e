-- ===== src/Entry/DumpedLaws.antt =====
-- The round trip of an entry through the record of a dump file (pkg/model/entry.go).
use advinced_cache.Prelude.{
  ℕ, ◌^◌, ◌<◌, ◌≡◌, ◌⊎◌, none, some, [], ◌∷◌, ◌++◌, length, arith, ◌==◌, append-nil, if◌then◌else◌,
}
use advinced_cache.Prelude.Outcome.{ok, err, rule_not_found}
use advinced_cache.Prelude.Word.{put_u32, put_u64}
use advinced_cache.Prelude.Cursor.{
  take_bytes, take_u32-put_u32, take_u64-put_u64, take_bytes-append,
}
use advinced_cache.KeyValue.{Bytes}
use advinced_cache.Config.{Rule, Rules, match_rule}
use advinced_cache.Entry.{Entry, Revalidator, payload_bytes}
use advinced_cache.Entry.Dumped.{
  to_bytes, is_compressed?, read_fields, found_rule, entry_from_bytes, new_entry_from_field,
}

-- The sizes that the fields of an entry have by their Go types, and a payload and a rule path that
-- a 32-bit length counts.
pub record IsStorable (e : Entry) : Type 0 where
  pub key : e.key < 2 ^ 64
  pub shard : e.shard < 2 ^ 64
  pub fingerprint : length e.fingerprint ≡ 16
  pub updated_at : e.updated_at < 2 ^ 64
  pub is_compressed : (e.is_compressed ≡ 0) ⊎ (e.is_compressed ≡ 1)
  pub rule_path : length e.rule.path_bytes < 2 ^ 32
  pub payload : length (payload_bytes e) < 2 ^ 32

-- The entry that comes back: the same fields, with the loader's revalidator, outside any LRU list.
abbrev pub reloaded : Revalidator → Entry → Entry
reloaded maker e = record e {
  payload = some (payload_bytes e);
  lru_list_elem = none;
  revalidator = some maker;
}

take_flag : (flag : ℕ) (rest : Bytes) → take_bytes 1 (flag ∷ rest) ≡ ok (flag ∷ [], rest)
take_flag flag rest = take_bytes-append (flag ∷ []) rest

fields_of : Entry → Bytes
fields_of e =
    put_u64 e.key
    ++ (put_u64 e.shard
        ++ (e.fingerprint
            ++ ((if is_compressed? e then 1 else 0)
                ∷ (put_u64 e.updated_at
                    ++ (put_u32 (length (payload_bytes e)) ++ payload_bytes e)))))

take_fingerprint : (fp rest : Bytes) → length fp ≡ 16 → take_bytes 16 (fp ++ rest) ≡ ok (fp, rest)
take_fingerprint fp rest h = rw (← h) (take_bytes-append fp rest)

read_flag :
    (e : Entry)
    → (e.is_compressed ≡ 0) ⊎ (e.is_compressed ≡ 1)
    → (if (if is_compressed? e then 1 else 0) == 1 then 1 else 0) ≡ e.is_compressed
read_flag e h = ground arith

take_payload : (b : Bytes) → take_bytes (length b) b ≡ ok (b, [])
take_payload b = rw append-nil at (take_bytes-append b [])

read_fields-fields_of :
    (rule : Rule) (maker : Revalidator) (now : ℕ) (e : Entry)
    → IsStorable e
    → read_fields rule maker now (fields_of e) ≡ ok (record (reloaded maker e) { rule = rule })
unfolding read_fields fields_of
read_fields-fields_of rule maker now e h = rw (take_u64-put_u64 e.key _ h.key) (
    rw (take_u64-put_u64 e.shard _ h.shard) (
      rw (take_fingerprint e.fingerprint _ h.fingerprint) (
        rw (take_flag _ _) (
          rw (take_u64-put_u64 e.updated_at _ h.updated_at) (
            rw (take_u32-put_u32 (length (payload_bytes e)) _ h.payload) (
              rw (take_payload (payload_bytes e))
                (unfold new_entry_from_field in rw (read_flag e h.is_compressed))))))))

-- A dumped entry is read back as it was, with the loader's revalidator and outside any LRU list, if
-- its fields have the sizes of their types, the lengths fit into 32 bits and its rule is still
-- configured under its path.
pub entry_from_bytes-to_bytes :
    (rules : Rules) (maker : Revalidator) (now : ℕ) (e : Entry)
    → IsStorable e
    → match_rule rules e.rule.path_bytes ≡ some e.rule
    → entry_from_bytes rules maker now (to_bytes e) ≡ ok (reloaded maker e)
unfolding entry_from_bytes to_bytes
entry_from_bytes-to_bytes rules maker now e h found =
    rw (take_u32-put_u32 (length e.rule.path_bytes) _ h.rule_path) (
      rw (take_bytes-append e.rule.path_bytes _)
        (rw found (unfold found_rule fields_of in read_fields-fields_of e.rule maker now e h)))

-- A record whose rule is not configured any more is refused with an error.
pub entry_from_bytes-rule_not_found :
    (rules : Rules) (maker : Revalidator) (now : ℕ) (e : Entry)
    → length e.rule.path_bytes < 2 ^ 32
    → match_rule rules e.rule.path_bytes ≡ none
    → entry_from_bytes rules maker now (to_bytes e) ≡ err rule_not_found
unfolding entry_from_bytes to_bytes
entry_from_bytes-rule_not_found rules maker now e h missing =
    rw (take_u32-put_u32 (length e.rule.path_bytes) _ h)
      (rw (take_bytes-append e.rule.path_bytes _) (unfold found_rule in rw missing))
