-- ===== src/Entry/Dumped.antt =====
-- `ToBytes`, `EntryFromBytes` and `NewEntryFromField` of pkg/model/entry.go: an entry as the record
-- of a dump file.
use advinced_cache.Prelude.{
  ℕ, Bool, Option, none, some, ◌∷◌, ◌++◌, length, get_or, ◌==◌, if◌then◌else◌,
}
use advinced_cache.Prelude.Outcome.{Outcome, ok, err, ◌>>=◌, rule_not_found}
use advinced_cache.Prelude.Word.{put_u32, put_u64}
use advinced_cache.Prelude.Cursor.{take_u32, take_u64, take_bytes}
use advinced_cache.KeyValue.{Bytes}
use advinced_cache.Config.{Rule, Rules, match_rule}
use advinced_cache.Entry.{Entry, Revalidator, payload_bytes, init_entry}

abbrev pub is_compressed? : Entry → Bool
is_compressed? e = e.is_compressed == 1

unfoldable pub to_bytes : Entry → Bytes
to_bytes e =
    let payload = payload_bytes e in
    let rule_path = e.rule.path_bytes in
    put_u32 (length rule_path)
    ++ (rule_path
        ++ (put_u64 e.key
            ++ (put_u64 e.shard
                ++ (e.fingerprint
                    ++ ((if is_compressed? e then 1 else 0)
                        ∷ (put_u64 e.updated_at ++ (put_u32 (length payload) ++ payload)))))))

-- The fields of an entry, at the time `now` that `Init` reads and the loader overwrites.
unfoldable pub new_entry_from_field : ℕ → ℕ → ℕ → Bytes → Bytes → Rule → Revalidator → ℕ → ℕ → Entry
new_entry_from_field now key shard fingerprint payload rule revalidator is_compressed updated_at =
    record (init_entry rule now) {
      key = key;
      shard = shard;
      fingerprint = fingerprint;
      payload = some payload;
      revalidator = some revalidator;
      is_compressed = is_compressed;
      updated_at = updated_at;
    }

-- The fields behind the rule path.
unfoldable pub read_fields : Rule → Revalidator → ℕ → Bytes → Outcome Entry
read_fields rule maker now buf = do
  (key, buf) ← take_u64 buf
  (shard, buf) ← take_u64 buf
  (fp, buf) ← take_bytes 16 buf
  (flag, buf) ← take_bytes 1 buf
  let is_compressed : ℕ = if get_or flag 0 0 == 1 then 1 else 0
  (updated_at, buf) ← take_u64 buf
  (payload_len, buf) ← take_u32 buf
  (payload, _) ← take_bytes payload_len buf
  ok (new_entry_from_field now key shard fp payload rule maker is_compressed updated_at)

-- `if rule == nil { return nil, … }`
unfoldable pub found_rule : Option Rule → Outcome Rule
found_rule none = err rule_not_found
found_rule (some rule) = ok rule

-- `maker` is what `backend.RevalidatorMaker()` returns.
unfoldable pub entry_from_bytes : Rules → Revalidator → ℕ → Bytes → Outcome Entry
entry_from_bytes rules maker now bytes = do
  (rule_path_len, buf) ← take_u32 bytes
  (rule_path, buf) ← take_bytes rule_path_len buf
  rule ← found_rule (match_rule rules rule_path)
  read_fields rule maker now buf
