-- ===== src/Dump/Versions.antt =====
-- Which files of pkg/storage/dumper.go are loaded: the names that `Dump` gives to the files of one
-- run, and the choice of `load` among the names that the glob finds. Names are byte strings; the
-- glob itself and the files are not modelled.
use advinced_cache.Prelude.{
  ℕ, zero, suc, ◌+◌, ◌-◌, ◌/◌, ◌%◌, Bool, false, ◌||◌, Option, none, some, List, [], ◌∷◌, ◌++◌,
  length, take, drop, keep, ltb, leb, ◌==◌, bytes_eq, has_prefix, if◌then◌else◌,
}
use advinced_cache.KeyValue.{Bytes, less}

-- `%d` of a number.
unfoldable pub decimal_digits : ℕ → ℕ → Bytes → Bytes
decimal_digits zero n acc = (n % 10 + 48) ∷ acc
decimal_digits (suc fuel) n acc =
    let rest = decimal_digits fuel (n / 10) ((n % 10 + 48) ∷ acc) in
    if ltb n 10 then (n + 48) ∷ acc else rest

abbrev pub decimal : ℕ → Bytes
decimal n = decimal_digits n n []

abbrev pub dump_ext : Bool → Bytes
dump_ext gzip =
    if gzip
    then b'.' ∷ b'd' ∷ b'u' ∷ b'm' ∷ b'p' ∷ b'.' ∷ b'g' ∷ b'z' ∷ []
    else b'.' ∷ b'd' ∷ b'u' ∷ b'm' ∷ b'p' ∷ []

-- `fmt.Sprintf("%s/%s-shard-%d-%s%s", versionDir, cfg.Name, key, timestamp, ext)`.
unfoldable pub dump_name : Bytes → Bytes → Bytes → Bool → ℕ → Bytes
dump_name version_dir name timestamp gzip key =
    version_dir
    ++ (b'/'
        ∷ (name
            ++ (b'-'
                ∷ b's'
                ∷ b'h'
                ∷ b'a'
                ∷ b'r'
                ∷ b'd'
                ∷ b'-'
                ∷ (decimal key ++ (b'-' ∷ (timestamp ++ dump_ext gzip))))))

-- `strings.Split`, for a separator of one byte.
abbrev pub extend_first : ℕ → List Bytes → List Bytes
extend_first x [] = (x ∷ []) ∷ []
extend_first x (p ∷ ps) = (x ∷ p) ∷ ps

unfoldable pub split : ℕ → Bytes → List Bytes
split sep [] = [] ∷ []
split sep (x ∷ b) = let rest = split sep b in if x == sep then [] ∷ rest else extend_first x rest

-- `parts[len(parts)-1]`.
abbrev pub last_part : List Bytes → Bytes
last_part [] = []
last_part (p ∷ []) = p
last_part (p ∷ q ∷ ps) = last_part (q ∷ ps)

-- `filepath.Base`, for a path that does not end in a slash.
unfoldable pub base : Bytes → Bytes
unfolding split
base path = last_part (split b'/' path)

-- `strings.TrimSuffix`.
unfoldable pub trim_suffix : Bytes → Bytes → Bytes
trim_suffix b suffix =
    let n = length b - length suffix in
    if leb (length suffix) (length b)
    then (if bytes_eq (drop n b) suffix then take n b else b)
    else b

-- `strings.Contains`.
unfoldable pub contains : Bytes → Bytes → Bool
contains [] sub = has_prefix [] sub
contains (x ∷ b) sub = has_prefix (x ∷ b) sub || contains b sub

-- The round of the loop in `extractLatestTimestamp`.
unfoldable pub timestamp_of : Bytes → Option Bytes
unfolding base split trim_suffix
timestamp_of file =
    let parts = split b'-' (base file) in
    if leb 4 (length parts) then some (trim_suffix (last_part parts) (dump_ext false)) else none

-- The last of the sorted timestamps, or the empty one.
unfoldable pub latest_timestamp : List Bytes → Bytes
unfolding less timestamp_of
latest_timestamp [] = []
latest_timestamp (f ∷ fs) =
    let rest = latest_timestamp fs in
    elim (timestamp_of f) [ none ↦ rest | some ts ↦ if less ts rest then rest else ts ]

-- The files that `load` reads.
unfoldable pub select_files : List Bytes → List Bytes
unfolding latest_timestamp contains
select_files files = let ts = latest_timestamp files in keep (λ f. contains f ts) files
