-- ===== src/Tests/Dumps.antt =====
-- Runs of the file names and version directories of pkg/storage/dumper.go, and their theorems at
-- concrete names.
use advinced_cache.Prelude.{
  ℕ, ◌+◌, ◌*◌, ◌-◌, ◌≡◌, ◌≢◌, ◌≤◌, ◌<◌, ◌/◌, ◌%◌, ◌^◌, sym, if◌then◌else◌, zero, suc, Bool-cases,
  inl, inr, ◌∙◌, refl, ap, true, List, [], ◌∷◌, map, arith, ltb,
}
use advinced_cache.KeyValue.{Bytes}
use advinced_cache.Dump.Versions.{decimal, decimal_digits, dump_name, select_files}
use advinced_cache.Dump.Selected.{select_files-dump_name}
use advinced_cache.Dump.Rotation.{version_name, next_version_dir, Among, next_version_dir_fresh}

abbrev stamp : Bytes
stamp = b'2' ∷ b'0' ∷ b'T' ∷ b'1' ∷ []

abbrev dumps : Bytes
dumps = b'c' ∷ b'-' ∷ b'd' ∷ []

select_files-dump_name_example :
    select_files (map (dump_name (b'v' ∷ b'1' ∷ []) dumps stamp true) (1 ∷ 20 ∷ []))
    ≡ map (dump_name (b'v' ∷ b'1' ∷ []) dumps stamp true) (1 ∷ 20 ∷ [])
select_files-dump_name_example =
    select_files-dump_name (b'v' ∷ b'1' ∷ []) dumps stamp true (refl, (refl, (refl, tt)))
      (refl, (refl, (refl, (refl, tt)))) (refl, (refl, (refl, (refl, tt)))) (1 ∷ 20 ∷ [])

twelve : decimal 12 ≡ b'1' ∷ b'2' ∷ []
unfolding decimal_digits
twelve = refl

abbrev by_name : List Bytes → List Bytes
by_name l = l

-- The value of a run of digits behind the number `a`.
read_digits : ℕ → Bytes → ℕ
read_digits a [] = a
read_digits a (x ∷ b) = read_digits (a * 10 + (x - 48)) b

read_digits-decimal_digits :
    (fuel n : ℕ) (acc : Bytes)
    → n ≤ fuel
    → read_digits 0 (decimal_digits fuel n acc) ≡ read_digits n acc
unfolding read_digits decimal_digits
read_digits-decimal_digits zero n acc h = ap (λ a. read_digits a acc) (omega arith)
read_digits-decimal_digits (suc fuel) n acc h = elim (Bool-cases (ltb n 10)) [
  | inl e ↦ rw e (ap (λ a. read_digits a acc) (omega arith))
  | inr e ↦ rw e (
      read_digits-decimal_digits fuel (n / 10) ((n % 10 + 48) ∷ acc) (ground arith)
      ∙ ap (λ a. read_digits a acc) (omega arith))
]

-- A number that is no `int` is not read.
abbrev in_int : ℕ → ℕ
in_int n = if ltb n (2 ^ 63) then n else 0

scan_version : Bytes → ℕ
scan_version [] = 0
scan_version (x ∷ b) = in_int (read_digits 0 b)

scan_version_word : (b : Bytes) → scan_version b < 2 ^ 64
unfolding scan_version
scan_version_word [] = omega arith
scan_version_word (x ∷ b) = ground arith

reads_back : (v : ℕ) → v < 2 ^ 63 → scan_version (version_name v) ≡ v
unfolding scan_version version_name read_digits
reads_back v small =
    let e : ltb v (2 ^ 63) ≡ true = ground arith in
    rw e (ap in_int (read_digits-decimal_digits v v [] (omega arith)) ∙ rw e refl)

four_apart : (name : Bytes) → Among name (version_name 4 ∷ []) → scan_version name ≢ 2 ^ 63 - 1
four_apart name (inl e) =
    λ h. (let r = sym (reads_back 4 (omega arith)) ∙ sym (ap scan_version e) ∙ h in ground arith)
four_apart name (inr there) = elim there [ ]

next_version_dir_fresh_example :
    ¬ Among
      (version_name (next_version_dir scan_version (version_name 4 ∷ [])))
      (version_name 4 ∷ [])
next_version_dir_fresh_example =
    next_version_dir_fresh scan_version scan_version_word (version_name 4 ∷ []) reads_back
      four_apart
