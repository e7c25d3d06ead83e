-- ===== src/Dump/Rotation.antt =====
-- The version directories of pkg/storage/dumper.go. `names` are the base names that the glob `v*`
-- finds; `scan` is `fmt.Sscanf(name, "v%d", &v)`, which leaves 0 where it reads no number that is an
-- `int`; an `int` is its bit pattern;
-- `newest_first` is `sort.Slice` by the times of modification.
use mathlib.Core.Path.{subst⁻¹}
use advinced_cache.Prelude.{
  ℕ, zero, suc, ◌-◌, ◌%◌, ◌^◌, ◌≤◌, ◌<◌, ◌≡◌, ◌≢◌, refl, ap, sym, ◌∙◌, true, false, not, Option,
  none, some, List, [], ◌∷◌, length, take, drop, ltb, leb, has_prefix, if◌then◌else◌, Bool-cases,
  inl, inr, ◌⊎◌, arith,
}
use advinced_cache.Prelude.Word.{u64_mod, add64, le_i64}
use advinced_cache.KeyValue.{Bytes}
use advinced_cache.Dump.Versions.{decimal}

-- `fmt.Sprintf("v%d", v)`.
unfoldable pub version_name : ℕ → Bytes
version_name v =
    b'v' ∷ (if ltb v (2 ^ 63) then decimal v else (b'-' ∷ decimal (u64_mod - v % u64_mod)))

-- The loop of `nextVersionDir`, from `max_v` on.
unfoldable pub highest_version : (Bytes → ℕ) → List Bytes → ℕ → ℕ
highest_version scan [] max_v = max_v
highest_version scan (name ∷ names) max_v =
    let v = scan name in
    if not (has_prefix name (b'v' ∷ []))
    then highest_version scan names max_v
    else highest_version scan names (if not (le_i64 v max_v) then v else max_v)

unfoldable pub next_version_dir : (Bytes → ℕ) → List Bytes → ℕ
unfolding highest_version
next_version_dir scan names = add64 (highest_version scan names 0) 1

-- `rotateVersionDirs`: the directories that are left, and those that are removed.
unfoldable pub rotate_version_dirs :
    (List Bytes → List Bytes) → ℕ → List Bytes → List Bytes × List Bytes
rotate_version_dirs newest_first max names =
    if leb (length names) max
    then (names, [])
    else (let sorted = newest_first names in (take max sorted, drop max sorted))

unfoldable pub latest_version_dir : (List Bytes → List Bytes) → List Bytes → Option Bytes
latest_version_dir newest_first names = elim (newest_first names) [ [] ↦ none | d ∷ ds ↦ some d ]

-- `name` is one of them.
abbrev pub Among : Bytes → List Bytes → Type 0
Among name [] = ⊥
Among name (n ∷ names) = (name ≡ n) ⊎ Among name names

-- The larger of the two, as `v > maxV` has it.
abbrev larger : ℕ → ℕ → ℕ
larger m v = if not (le_i64 v m) then v else m

-- Neither negative nor the largest `int`.
abbrev HasNext : ℕ → Type 0
HasNext m = suc m < 2 ^ 63

larger-HasNext : (m v : ℕ) → HasNext m → v < u64_mod → v ≢ 2 ^ 63 - 1 → HasNext (larger m v)
larger-HasNext m v small word apart = elim (Bool-cases (le_i64 v m)) [
  | inl e ↦ rw e small
  | inr e ↦ rw e (let z : v ≡ 2 ^ 63 - 1 → ⊥ = apart in ground arith)
]

larger-left : (m v : ℕ) → HasNext m → v < u64_mod → m ≤ larger m v
larger-left m v small word = elim (Bool-cases (le_i64 v m)) [
  | inl e ↦ rw e (omega arith)
  | inr e ↦ rw e (ground arith)
]

larger-right : (m v : ℕ) → HasNext m → v < 2 ^ 63 → v ≤ larger m v
larger-right m v small positive = elim (Bool-cases (le_i64 v m)) [
  | inl e ↦ rw e (ground arith)
  | inr e ↦ rw e (omega arith)
]

-- No name is that of the largest `int`.
abbrev NoneLast : (Bytes → ℕ) → List Bytes → Type 0
NoneLast scan [] = Unit
NoneLast scan (name ∷ names) = (scan name ≢ 2 ^ 63 - 1) × NoneLast scan names

module _ (scan : Bytes → ℕ) (word : (name : Bytes) → scan name < u64_mod) where
  skipped :
      (name : Bytes) (names : List Bytes) (m : ℕ)
      → has_prefix name (b'v' ∷ []) ≡ false
      → highest_version scan (name ∷ names) m ≡ highest_version scan names m
  unfolding highest_version
  skipped name names m e = rw (e, highest_version) refl

  counted :
      (name : Bytes) (names : List Bytes) (m : ℕ)
      → has_prefix name (b'v' ∷ []) ≡ true
      → highest_version scan (name ∷ names) m ≡ highest_version scan names (larger m (scan name))
  unfolding highest_version
  counted name names m e = rw (e, highest_version) refl

  floor_kept :
      (names : List Bytes) (m : ℕ)
      → HasNext m
      → NoneLast scan names
      → (m ≤ highest_version scan names m) × HasNext (highest_version scan names m)
  unfolding highest_version
  floor_kept [] m small last = (omega arith, small)
  floor_kept (name ∷ names) m small (here, last) = elim (Bool-cases (has_prefix name (b'v' ∷ []))) [
    | inl e ↦
        let up = larger m (scan name) in
        let next = larger-HasNext m (scan name) small (word name) here in
        let (above, fits) = floor_kept names up next last in
        let l = larger-left m (scan name) small (word name) in
        let q = counted name names m e in (omega arith, omega arith)
    | inr e ↦
        let (above, fits) = floor_kept names m small last in
        let q = skipped name names m e in (omega arith, omega arith)
  ]

  bounds_all :
      (names : List Bytes) (m : ℕ) (name : Bytes)
      → HasNext m
      → NoneLast scan names
      → has_prefix name (b'v' ∷ []) ≡ true
      → scan name < 2 ^ 63
      → Among name names
      → scan name ≤ highest_version scan names m
  bounds_all [] m name small last v positive there = elim there [ ]
  bounds_all (n ∷ names) m name small (first, last) v positive (inl here) =
      let v' : has_prefix n (b'v' ∷ []) ≡ true =
        ap (λ x. has_prefix x (b'v' ∷ [])) (sym here) ∙ v in
      let same = ap scan here in
      let next = larger-HasNext m (scan n) small (word n) first in
      let (above, fits) = floor_kept names (larger m (scan n)) next last in
      let l = larger-right m (scan n) small (omega arith) in
      let q = counted n names m v' in omega arith
  bounds_all (n ∷ names) m name small (first, last) v positive (inr there) =
      elim (Bool-cases (has_prefix n (b'v' ∷ []))) [
        | inl e ↦
            let next = larger-HasNext m (scan n) small (word n) first in
            let h = bounds_all names (larger m (scan n)) name next last v positive there in
            let q = counted n names m e in omega arith
        | inr e ↦
            let h = bounds_all names m name small last v positive there in
            let q = skipped n names m e in omega arith
      ]

  v_first : (v : ℕ) → has_prefix (version_name v) (b'v' ∷ []) ≡ true
  unfolding has_prefix version_name
  v_first v = refl

  all_apart :
      (names : List Bytes)
      → ((name : Bytes) → Among name names → scan name ≢ 2 ^ 63 - 1)
      → NoneLast scan names
  all_apart [] h = tt
  all_apart (n ∷ names) h = (h n (inl refl), all_apart names (λ name there. h name (inr there)))

  -- The directory of a new dump is none of those that are there, unless the number of one of them is
  -- the largest `int`, at which the next number wraps around: where `Sscanf` reads 64-bit numbers,
  -- and reads those that are not negative back as they were printed.
  pub next_version_dir_fresh :
      (names : List Bytes)
      → ((v : ℕ) → v < 2 ^ 63 → scan (version_name v) ≡ v)
      → ((name : Bytes) → Among name names → scan name ≢ 2 ^ 63 - 1)
      → ¬ Among (version_name (next_version_dir scan names)) names
  unfolding next_version_dir
  next_version_dir_fresh names reads apart = λ there.
      (let v = next_version_dir scan names in
        let last = all_apart names apart in
        let (above, fits) = floor_kept names 0 (omega arith) last in
        let small : v < 2 ^ 63 = omega arith in
        let r = reads v small in
        let h =
          bounds_all names 0 (version_name v) (omega arith) last (v_first v) (omega arith) there in
        absurd (omega arith))

head_taken : (d : Bytes) (ds : List Bytes) (max : ℕ) → 0 < max → Among d (take max (d ∷ ds))
head_taken d ds zero h = absurd (omega arith)
head_taken d ds (suc max) h = inl refl

latest_is_head :
    (newest_first : List Bytes → List Bytes) (names : List Bytes) (d : Bytes)
    → latest_version_dir newest_first names ≡ some d
    → (ds : List Bytes) × (newest_first names ≡ d ∷ ds)
unfolding latest_version_dir
latest_is_head newest_first names d h = go (newest_first names) refl h
  where
    go :
        (l : List Bytes)
        → newest_first names ≡ l
        → (elim l [ [] ↦ none | x ∷ xs ↦ some x ]) ≡ some d
        → (ds : List Bytes) × (newest_first names ≡ d ∷ ds)
    go [] e h = absurd (ground arith)
    go (x ∷ xs) e h = (xs, e ∙ ap (λ y. y ∷ xs) (ground arith))

-- Rotation keeps the directory that is loaded next, whatever the order of the times is, unless no
-- version at all is to be kept.
pub rotate_version_dirs-latest :
    (newest_first : List Bytes → List Bytes) (max : ℕ) (names : List Bytes) (d : Bytes)
    → ((name : Bytes) (l : List Bytes) → Among name (newest_first l) → Among name l)
    → 0 < max
    → latest_version_dir newest_first names ≡ some d
    → Among d (rotate_version_dirs newest_first max names).0
unfolding rotate_version_dirs
rotate_version_dirs-latest newest_first max names d same some_kept h =
    let (ds, e) = latest_is_head newest_first names d h in
    elim (Bool-cases (leb (length names) max)) [
      | inl q ↦ rw q (same d names (subst⁻¹ (Among d) e (inl refl)))
      | inr q ↦ rw q (subst⁻¹ (λ l. Among d (take max l)) e (head_taken d ds max some_kept))
    ]
