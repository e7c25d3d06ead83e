-- ===== src/Tests/Lists.antt =====
-- Runs of pkg/list, pkg/storage/lfu, pkg/storage/dumper.go and internal/cache/api/clear.go, and their
-- theorems at concrete inputs.
use advinced_cache.Prelude.{
  ℕ, ◌+◌, ◌≡◌, ◌≤◌, refl, true, false, none, some, List, [], ◌∷◌, ◌++◌, arith, leb,
}
use advinced_cache.Prelude.Outcome.{Outcome, ok, panic}
use advinced_cache.Prelude.Word.{put_u32}
use advinced_cache.Config.{match_rule}
use advinced_cache.Prelude.{bytes_eq}
use advinced_cache.Entry.{Entry, Revalidator}
use advinced_cache.Entry.Dumped.{to_bytes}
use advinced_cache.Ring.{Ring, new_ring, push_front, push_back, move_to_front}
use advinced_cache.Ring.Links.{IsRing}
use advinced_cache.Ring.Laws.{push_front-IsRing, push_back-IsRing}
use advinced_cache.Ring.Moves.{move_to_front-IsRing}
use advinced_cache.Lfu.{
  Doorkeeper, TinyLfu, new_sketch, new_doorkeeper, estimate, count_access, frequency, admit,
}
use advinced_cache.Lfu.SketchLaws.{count_all, occurrences, estimate_floor_count}
use advinced_cache.Lfu.Admission.{admit-count_access}
use advinced_cache.Dump.{
  crc32, crc_bits, crc_bytes, dump_shard, Loaded, failed, load_loop, load_file,
}
use advinced_cache.Dump.Fuel.{load_loop-load_file}
use advinced_cache.Dump.Framing.{stored, load_file-dump_shard, load_loop_skips}
use advinced_cache.Clear.{ClearController, forbidden, handle_clear}
use advinced_cache.Clear.Token.{handle_clear_once}
use advinced_cache.Tests.Requests.{rules, stored-IsStorable}
use advinced_cache.Tests.Requests

abbrev empty_ring : Ring ℕ
empty_ring = new_ring

empty_ring-IsRing : IsRing empty_ring []
empty_ring-IsRing = record {
  links = (refl, refl);
  apart = tt;
  inner = tt;
  given = tt;
  mine = tt;
  positive = omega arith;
  counted = refl;
}

abbrev one_ring : Ring ℕ
one_ring = (push_front 7 empty_ring).0

one_ring-IsRing : IsRing one_ring (1 ∷ [])
unfolding push_front
one_ring-IsRing = (push_front-IsRing 7 empty_ring [] empty_ring-IsRing).0

abbrev two_ring : Ring ℕ
two_ring = (push_back 8 one_ring).0

two_ring-IsRing : IsRing two_ring (1 ∷ 2 ∷ [])
unfolding push_front push_back
two_ring-IsRing = (push_back-IsRing 8 one_ring (1 ∷ []) one_ring-IsRing).0

move_to_front-IsRing_example : IsRing (move_to_front 2 two_ring) (2 ∷ 1 ∷ [])
move_to_front-IsRing_example = move_to_front-IsRing two_ring (1 ∷ []) [] 2 two_ring-IsRing

abbrev seeds : ℕ → ℕ
seeds i = i + 3

estimate_floor_count_example : 2 ≤ estimate 7 (count_all seeds (7 ∷ 9 ∷ 7 ∷ []))
unfolding occurrences
estimate_floor_count_example = estimate_floor_count seeds (7 ∷ 9 ∷ 7 ∷ []) 7 (omega arith)

abbrev door : Doorkeeper
door = new_doorkeeper 128 5 6

abbrev lfu : TinyLfu
lfu = record { curr = new_sketch seeds; prev = new_sketch seeds; door = door }

admit-count_access_example : admit 7 9 (count_access 7 lfu) ≡ (
  count_access 7 lfu,
  leb (frequency 9 (count_access 7 lfu)) (frequency 7 (count_access 7 lfu)),
)
admit-count_access_example = admit-count_access lfu 7 9

-- The check value of CRC-32.
crc32_check : crc32 (b'1' ∷ b'2' ∷ b'3' ∷ b'4' ∷ b'5' ∷ b'6' ∷ b'7' ∷ b'8' ∷ b'9' ∷ []) ≡ 0xcbf43926
unfolding crc32 crc_bits crc_bytes
crc32_check = refl

abbrev maker : Revalidator
maker _ _ _ _ = panic

abbrev nothing : Loaded (List Entry)
nothing = record { storage = []; success = 0; failures = 0 }

load_file-dump_shard_example :
    load_file
      (λ e s. e ∷ s)
      (λ n. false)
      true
      rules
      maker
      9
      (dump_shard true (Requests.stored ∷ []))
      nothing
    ≡ some (ok (stored (λ e s. e ∷ s) maker (Requests.stored ∷ []) nothing))
unfolding match_rule bytes_eq to_bytes
load_file-dump_shard_example =
    load_file-dump_shard (λ e s. e ∷ s) (λ n. false) true rules maker 9 (Requests.stored ∷ [])
      nothing (record { storable = stored-IsStorable; size = omega arith; found = refl }, tt)
      (λ n. refl)

load_loop_skips_example :
    load_loop
      (λ e s. e ∷ s)
      (λ n. false)
      true
      rules
      maker
      9
      3
      (put_u32 1 ++ put_u32 5 ++ (8 ∷ []) ++ [])
      nothing
    ≡ load_loop (λ e s. e ∷ s) (λ n. false) true rules maker 9 2 [] (failed nothing)
unfolding crc32 crc_bits crc_bytes
load_loop_skips_example =
    load_loop_skips (λ e s. e ∷ s) (λ n. false) true rules maker 9 2 5 (8 ∷ []) [] nothing
      (omega arith) (omega arith) refl refl

abbrev wipe : ℕ → ℕ
wipe n = 0

abbrev issued : ClearController
issued = record { token = b'f' ∷ []; expires = 50 }

handle_clear_once_example :
    handle_clear wipe 20
      (b'f' ∷ [])
      none
      (handle_clear wipe 10 (b'g' ∷ []) none issued 4).0
      (handle_clear wipe 10 (b'g' ∷ []) none issued 4).1
    ≡ (
      record { token = []; expires = 0 },
      (handle_clear wipe 10 (b'g' ∷ []) none issued 4).1,
      forbidden,
    )
handle_clear_once_example = handle_clear_once wipe 10 20 b'g' b'f' [] [] none none issued 4

load_loop-load_file_example :
    (o : Outcome (Loaded (List Entry))) × (load_file
        (λ e s. e ∷ s)
        (λ n. false)
        true
        rules
        maker
        9
        (1 ∷ 2 ∷ [])
        nothing
      ≡ some o)
    × (load_loop (λ e s. e ∷ s) (λ n. false) true rules maker 9 9 (1 ∷ 2 ∷ []) nothing ≡ some o)
load_loop-load_file_example =
    load_loop-load_file (λ e s. e ∷ s) (λ n. false) true rules maker 9 9 (1 ∷ 2 ∷ []) nothing
      (omega arith)
