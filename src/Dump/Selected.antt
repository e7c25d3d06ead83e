-- ===== src/Dump/Selected.antt =====
-- Which of the files of one dump, pkg/storage/dumper.go, are loaded again.
use mathlib.Core.Path.{subst, subst⁻¹}
use advinced_cache.Prelude.{
  ℕ, zero, suc, ◌+◌, ◌-◌, ◌/◌, ◌%◌, ◌≤◌, ◌≡◌, refl, ap, ◌∙◌, Bool, true, false, none, some, List,
  [], ◌∷◌, ◌++◌, append-nil, length, length-append, take, drop, take-append, drop-append, keep, map,
  ltb, leb, ◌==◌, bytes_eq, bytes_eq_refl, ==_refl, has_prefix, if◌then◌else◌, Bool-cases, inl, inr,
  arith,
}
use advinced_cache.KeyValue.{Bytes, less, less_loop}
use advinced_cache.Dump.Versions.{
  decimal_digits, decimal, dump_ext, dump_name, extend_first, split, last_part, base, trim_suffix,
  contains, timestamp_of, latest_timestamp, select_files,
}

-- No byte of the string is `c`.
abbrev pub Without : ℕ → Bytes → Type 0
Without c [] = Unit
Without c (x ∷ b) = ((x == c) ≡ false) × Without c b

Without-append : (c : ℕ) (a b : Bytes) → Without c a → Without c b → Without c (a ++ b)
Without-append c [] b ha hb = hb
Without-append c (x ∷ a) b ha hb = (ha.0, Without-append c a b ha.1 hb)

split_plain : (c : ℕ) (b : Bytes) → Without c b → split c b ≡ b ∷ []
unfolding split
split_plain c [] h = refl
split_plain c (x ∷ b) h = rw (h.0, split_plain c b h.1) refl

-- A string split is never empty.
length-extend_first :
    (x : ℕ) (ps : List Bytes) → 1 ≤ length ps → length (extend_first x ps) ≡ length ps
length-extend_first x [] h = absurd (omega arith)
length-extend_first x (p ∷ ps) h = refl

split_some : (c : ℕ) (b : Bytes) → 1 ≤ length (split c b)
unfolding split
split_some c [] = omega arith
split_some c (x ∷ b) =
    let ih = split_some c b in
    let e = length-extend_first x (split c b) ih in
    elim (Bool-cases (x == c)) [ inl q ↦ rw q (omega arith) | inr q ↦ rw q (omega arith) ]

last-extend_first :
    (x : ℕ) (ps : List Bytes) → 2 ≤ length ps → last_part (extend_first x ps) ≡ last_part ps
last-extend_first x [] h = absurd (omega arith)
last-extend_first x (p ∷ []) h = absurd (omega arith)
last-extend_first x (p ∷ q ∷ ps) h = refl

last-cons : (p : Bytes) (ps : List Bytes) → 1 ≤ length ps → last_part (p ∷ ps) ≡ last_part ps
last-cons p [] h = absurd (omega arith)
last-cons p (q ∷ ps) h = refl

split_hit : (c x : ℕ) (b : Bytes) → (x == c) ≡ true → split c (x ∷ b) ≡ [] ∷ split c b
unfolding split
split_hit c x b e = rw (e, split) refl

split_miss : (c x : ℕ) (b : Bytes) → (x == c) ≡ false → split c (x ∷ b) ≡ extend_first x (split c b)
unfolding split
split_miss c x b e = rw (e, split) refl

-- Splitting at a separator that is there.
parts_behind :
    (c : ℕ) (a b : Bytes)
    → (1 + length (split c b) ≤ length (split c (a ++ c ∷ b)))
      × (last_part (split c (a ++ c ∷ b)) ≡ last_part (split c b))
parts_behind c [] b =
    let e = split_hit c c b (==_refl c) in
    let l = ap length e in (omega arith, ap last_part e ∙ last-cons [] (split c b) (split_some c b))
parts_behind c (x ∷ a) b =
    let (more, last) = parts_behind c a b in
    let some_there = split_some c b in
    let whole = split c (a ++ c ∷ b) in
    elim (Bool-cases (x == c)) [
      | inl e ↦
          let q = split_hit c x (a ++ c ∷ b) e in
          let l = ap length q in
          (omega arith, ap last_part q ∙ last-cons [] whole (omega arith) ∙ last)
      | inr e ↦
          let q = split_miss c x (a ++ c ∷ b) e in
          let l = ap length q in
          let n = length-extend_first x whole (omega arith) in
          (omega arith, ap last_part q ∙ last-extend_first x whole (omega arith) ∙ last)
    ]

decimal-Without :
    (fuel n : ℕ) (acc : Bytes)
    → Without b'-' acc
    → Without b'/' acc
    → Without b'-' (decimal_digits fuel n acc) × Without b'/' (decimal_digits fuel n acc)
unfolding decimal_digits
decimal-Without zero n acc h g = ((ground arith, h), (ground arith, g))
decimal-Without (suc fuel) n acc h g = elim (Bool-cases (ltb n 10)) [
  | inl e ↦ rw e ((ground arith, h), (ground arith, g))
  | inr e ↦
      rw e (decimal-Without fuel (n / 10) ((n % 10 + 48) ∷ acc) (ground arith, h) (ground arith, g))
]

has_prefix_self : (a b : Bytes) → has_prefix (a ++ b) a ≡ true
unfolding has_prefix
has_prefix_self [] b = refl
has_prefix_self (x ∷ a) b = rw (==_refl x) (has_prefix_self a b)

contains_first : (b sub : Bytes) → has_prefix b sub ≡ true → contains b sub ≡ true
unfolding contains
contains_first [] sub h = h
contains_first (x ∷ b) sub h = rw (h, contains) refl

contains_later : (x : ℕ) (b sub : Bytes) → contains b sub ≡ true → contains (x ∷ b) sub ≡ true
unfolding contains
contains_later x b sub h = elim (Bool-cases (has_prefix (x ∷ b) sub)) [
  | inl e ↦ rw (e, contains) refl
  | inr e ↦ rw (e, contains) h
]

contains_inside : (a b sub : Bytes) → contains b sub ≡ true → contains (a ++ b) sub ≡ true
contains_inside [] b sub h = h
contains_inside (x ∷ a) b sub h = contains_later x (a ++ b) sub (contains_inside a b sub h)

trim_suffix_there : (b suffix : Bytes) → trim_suffix (b ++ suffix) suffix ≡ b
unfolding trim_suffix
trim_suffix_there b suffix =
    let n = length-append b suffix in
    let fits : leb (length suffix) (length (b ++ suffix)) ≡ true = ground arith in
    let start : length (b ++ suffix) - length suffix ≡ length b = omega arith in
    rw (fits, start, drop-append b suffix, bytes_eq_refl suffix) (take-append b suffix)

less_irreflexive : (m : ℕ) (a : Bytes) → less_loop m a a false ≡ false
unfolding less_loop
less_irreflexive zero a = refl
less_irreflexive (suc m) [] = refl
less_irreflexive (suc m) (x ∷ a) =
    let e : ltb x x ≡ false = ground arith in rw (e, less_irreflexive m a) refl

less_self : (a : Bytes) → less a a ≡ false
unfolding less
less_self a =
    let e : ltb (length a) (length a) ≡ false = ground arith in rw e (less_irreflexive (length a) a)

has_prefix-take : (n : ℕ) (b : Bytes) → has_prefix b (take n b) ≡ true
unfolding has_prefix
has_prefix-take zero b = refl
has_prefix-take (suc n) [] = refl
has_prefix-take (suc n) (x ∷ b) = rw (==_refl x) (has_prefix-take n b)

has_prefix-trim_suffix : (b suffix : Bytes) → has_prefix b (trim_suffix b suffix) ≡ true
unfolding trim_suffix
has_prefix-trim_suffix b suffix =
    let n = length b - length suffix in
    let all = subst (λ a. has_prefix a b ≡ true) (append-nil b) (has_prefix_self b []) in
    elim (Bool-cases (leb (length suffix) (length b))) [
      | inl e ↦ elim (Bool-cases (bytes_eq (drop n b) suffix)) [
        | inl q ↦ rw (e, q, trim_suffix) (has_prefix-take n b)
        | inr q ↦ rw (e, q, trim_suffix) all
      ]
      | inr e ↦ rw (e, trim_suffix) all
    ]

less_empty : (a : Bytes) → less a [] ≡ false
unfolding less less_loop
less_empty [] = refl
less_empty (x ∷ a) =
    let longer : ltb 0 (suc (length a)) ≡ true = ground arith in
    let shorter : ltb (suc (length a)) 0 ≡ false = ground arith in rw (longer, shorter) refl

ext_plain : (g : Bool) → Without b'/' (dump_ext g) × Without b'-' (dump_ext g)
ext_plain true = (
  (refl, (refl, (refl, (refl, (refl, (refl, (refl, (refl, tt)))))))),
  (refl, (refl, (refl, (refl, (refl, (refl, (refl, (refl, tt)))))))),
)
ext_plain false =
    ((refl, (refl, (refl, (refl, (refl, tt))))), (refl, (refl, (refl, (refl, (refl, tt))))))

-- The files of one dump.
module _ (dir name ts : Bytes) (gzip : Bool) (name_plain : Without b'/' name)
    (ts_plain : Without b'/' ts) (ts_whole : Without b'-' ts) where
  abbrev file : ℕ → Bytes
  file key = dump_name dir name ts gzip key

  -- What is read off the end of a name.
  abbrev ending : Bytes
  ending = ts ++ dump_ext gzip

  abbrev stamp : Bytes
  stamp = trim_suffix ending (dump_ext false)

  abbrev numbered : ℕ → Bytes
  numbered key = decimal key ++ (b'-' ∷ ending)

  abbrev shard_dash : Bytes
  shard_dash = b's' ∷ b'h' ∷ b'a' ∷ b'r' ∷ b'd' ∷ []

  abbrev in_dir : ℕ → Bytes
  in_dir key = name ++ (b'-' ∷ (shard_dash ++ (b'-' ∷ numbered key)))

  file-in_dir : (key : ℕ) → file key ≡ dir ++ (b'/' ∷ in_dir key)
  unfolding dump_name
  file-in_dir key = refl

  in_dir-Without : (key : ℕ) → Without b'/' (in_dir key)
  in_dir-Without key =
      let digits = (decimal-Without key key [] tt tt).1 in
      let tail = Without-append b'/' ts (dump_ext gzip) ts_plain (ext_plain gzip).0 in
      let rest = Without-append b'/' (decimal key) (b'-' ∷ ending) digits (refl, tail) in
      Without-append b'/' name (b'-' ∷ (shard_dash ++ (b'-' ∷ numbered key))) name_plain
        (refl, (refl, (refl, (refl, (refl, (refl, (refl, rest)))))))

  base-file : (key : ℕ) → base (file key) ≡ in_dir key
  unfolding base
  base-file key =
      ap (λ f. last_part (split b'/' f)) (file-in_dir key)
      ∙ (parts_behind b'/' dir (in_dir key)).1
      ∙ ap last_part (split_plain b'/' (in_dir key) (in_dir-Without key))

  parts :
      (key : ℕ)
      → (4 ≤ length (split b'-' (in_dir key))) × (last_part (split b'-' (in_dir key)) ≡ ending)
  parts key =
      let (m1, l1) = parts_behind b'-' name (shard_dash ++ (b'-' ∷ numbered key)) in
      let (m2, l2) = parts_behind b'-' shard_dash (numbered key) in
      let (m3, l3) = parts_behind b'-' (decimal key) ending in
      let one =
        split_plain b'-' ending
          (Without-append b'-' ts (dump_ext gzip) ts_whole (ext_plain gzip).1) in
      let n = ap length one in (omega arith, l1 ∙ l2 ∙ l3 ∙ ap last_part one)

  timestamp_of-file : (key : ℕ) → timestamp_of (file key) ≡ some stamp
  unfolding timestamp_of
  timestamp_of-file key =
      let (many, last) = parts key in
      let enough : leb 4 (length (split b'-' (in_dir key))) ≡ true = ground arith in
      ap
        (λ b.
          if leb 4 (length (split b'-' b))
          then some (trim_suffix (last_part (split b'-' b)) (dump_ext false))
          else none)
        (base-file key)
      ∙ rw enough (ap (λ p. some (trim_suffix p (dump_ext false))) last)

  contains-file : (key : ℕ) → contains (file key) stamp ≡ true
  contains-file key =
      let last = contains_first ending stamp (has_prefix-trim_suffix ending (dump_ext false)) in
      let digits =
        contains_inside (decimal key) (b'-' ∷ ending) stamp
          (contains_later b'-' ending stamp last) in
      let shard =
        contains_inside (b'-' ∷ (shard_dash ++ (b'-' ∷ []))) (numbered key) stamp digits in
      let inside =
        contains_inside name (b'-' ∷ (shard_dash ++ (b'-' ∷ numbered key))) stamp shard in
      subst⁻¹ (λ f. contains f stamp ≡ true) (file-in_dir key)
        (contains_inside dir (b'/' ∷ in_dir key) stamp
          (contains_later b'/' (in_dir key) stamp inside))

  latest_first :
      (f : Bytes) (fs : List Bytes)
      → timestamp_of f ≡ some stamp
      → less stamp (latest_timestamp fs) ≡ false
      → latest_timestamp (f ∷ fs) ≡ stamp
  unfolding latest_timestamp
  latest_first f fs e q = rw (e, q, latest_timestamp) refl

  latest-files : (key : ℕ) (keys : List ℕ) → latest_timestamp (map file (key ∷ keys)) ≡ stamp
  unfolding latest_timestamp
  latest-files key [] = latest_first (file key) [] (timestamp_of-file key) (less_empty stamp)
  latest-files key (k ∷ keys) =
      latest_first (file key) (map file (k ∷ keys)) (timestamp_of-file key)
        (ap (less stamp) (latest-files k keys) ∙ less_self stamp)

  keep-files : (keys : List ℕ) → keep (λ f. contains f stamp) (map file keys) ≡ map file keys
  keep-files [] = refl
  keep-files (k ∷ keys) = rw (contains-file k, keep) (ap (◌∷◌ (file k)) (keep-files keys))

  -- Every file of one dump is loaded again, in the order of the glob, compressed or not: for any
  -- directory, a name and a timestamp without a slash, and a timestamp without a dash.
  pub select_files-dump_name : (keys : List ℕ) → select_files (map file keys) ≡ map file keys
  unfolding select_files
  select_files-dump_name [] = refl
  select_files-dump_name (k ∷ keys) =
      ap (λ ts. keep (λ f. contains f ts) (map file (k ∷ keys))) (latest-files k keys)
      ∙ keep-files (k ∷ keys)
