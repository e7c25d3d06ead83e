-- ===== src/Dump.antt =====
-- pkg/storage/dumper.go: the records of a shard's dump file and the loop that loads one. A file is
-- its bytes: opening, gzip and the directories are outside, and writing to the buffer does not fail.
-- `Storage.Set` comes in as `set`; `done n` tells whether the context is cancelled when the worker
-- has stored `n` entries.
pub mod Framing
pub mod Fuel
pub mod Versions
pub mod Selected
pub mod Rotation
use Prim.Native.Nat.{bit_xor}
use advinced_cache.Prelude.{
  ℕ, zero, suc, ◌+◌, ◌-◌, ◌*◌, ◌/◌, ◌%◌, ◌^◌, ◌<◌, ◌≡◌, Bool, true, false, not, ◌&&◌, Option, none,
  some, List, [], ◌∷◌, ◌++◌, length, take, drop, leb, ◌==◌, if◌then◌else◌,
}
use advinced_cache.Prelude.Word.{u32_mod, put_u32}
use advinced_cache.Prelude.Outcome.{Outcome, ok, err, panic}
use advinced_cache.KeyValue.{Bytes}
use advinced_cache.Config.{Rules}
use advinced_cache.Entry.{Entry, Revalidator}
use advinced_cache.Entry.Dumped.{to_bytes, entry_from_bytes}

-- `crc32.ChecksumIEEE`, bit by bit.
unfoldable pub crc_bits : ℕ → ℕ → ℕ
crc_bits zero c = c
crc_bits (suc n) c = crc_bits n (if c % 2 == 1 then bit_xor (c / 2) 0xedb88320 else c / 2)

unfoldable pub crc_bytes : Bytes → ℕ → ℕ
crc_bytes [] c = c
crc_bytes (b ∷ bs) c = crc_bytes bs (crc_bits 8 (bit_xor c b))

unfoldable pub crc32 : Bytes → ℕ
unfolding crc_bits crc_bytes
crc32 body = bit_xor (crc_bytes body (u32_mod - 1)) (u32_mod - 1) % u32_mod

-- What `Dump` writes for one entry.
unfoldable pub dump_record : Bool → Entry → Bytes
dump_record crc_control e =
    let body = to_bytes e in
    let crc = if crc_control then crc32 body else 0 in
    put_u32 (length body % u32_mod) ++ put_u32 crc ++ body

-- One shard's file.
unfoldable pub dump_shard : Bool → List Entry → Bytes
dump_shard crc_control [] = []
dump_shard crc_control (e ∷ es) = dump_record crc_control e ++ dump_shard crc_control es

-- `io.ReadFull(br, metaBuf[:])` and the two numbers in it.
pub data Meta : Type 0 where
  eof : Meta
  broken : Meta
  meta : ℕ → ℕ → Bytes → Meta

unfoldable pub read_meta : Bytes → Meta
read_meta [] = eof
read_meta (a ∷ b ∷ c ∷ d ∷ e ∷ f ∷ g ∷ h ∷ rest) =
    meta (a + b * 2 ^ 8 + c * 2 ^ 16 + d * 2 ^ 24) (e + f * 2 ^ 8 + g * 2 ^ 16 + h * 2 ^ 24) rest
read_meta _ = broken

-- The storage and the counters of `load`.
pub record Loaded (S : Type 0) : Type 0 where
  pub storage : S
  pub success : ℕ
  pub failures : ℕ

abbrev pub failed : {S : Type 0} → Loaded S → Loaded S
failed acc = record acc { failures = acc.failures + 1 }

-- One round of the loop.
pub data LoadStep (S : Type 0) : Type 0 where
  stop : Loaded S → LoadStep S
  next : Loaded S → Bytes → LoadStep S
  crashed : LoadStep S

module _ {S : Type 0} (set : Entry → S → S) (done : ℕ → Bool) (crc_control : Bool) (rules : Rules)
    (maker : Revalidator) (now : ℕ) where
  unfoldable pub store : Entry → Bytes → Loaded S → LoadStep S
  store e rest acc =
      let acc = record acc { storage = set e acc.storage; success = acc.success + 1 } in
      if done acc.success then stop acc else next acc rest

  unfoldable pub load_record : ℕ → Bytes → Bytes → Loaded S → LoadStep S
  load_record crc buf rest acc =
      if crc_control && not (crc32 buf == crc)
      then next (failed acc) rest
      else elim (entry_from_bytes rules maker now buf) [
        | ok e ↦ store e rest acc
        | err _ ↦ next (failed acc) rest
        | panic ↦ crashed
      ]

  unfoldable pub load_step : Bytes → Loaded S → LoadStep S
  load_step bytes acc = elim (read_meta bytes) [
    | eof ↦ stop acc
    | broken ↦ stop (failed acc)
    | meta sz crc rest ↦
        if leb sz (length rest)
        then load_record crc (take sz rest) (drop sz rest) acc
        else stop (failed acc)
  ]

  -- The loop, and none where the fuel is spent.
  unfoldable pub load_loop : ℕ → Bytes → Loaded S → Option (Outcome (Loaded S))
  load_loop zero bytes acc = none
  load_loop (suc fuel) bytes acc = elim (load_step bytes acc) [
    | stop acc ↦ some (ok acc)
    | next acc rest ↦ load_loop fuel rest acc
    | crashed ↦ some panic
  ]

  -- Every round that goes on reads at least the eight bytes of a header.
  unfoldable pub load_file : Bytes → Loaded S → Option (Outcome (Loaded S))
  load_file bytes acc = load_loop (suc (length bytes)) bytes acc
