-- ===== src/Query.antt =====
-- The query string parser of pkg/model/entry.go (`parseFilterAndSortQuery`). Indices and slices are
-- those of the source, and a slice expression out of range is a panic. A value that the source
-- leaves `nil` is the empty list. The buffer that the source reuses from a pool starts empty and is
-- only appended to.
pub mod Panic
pub mod Roundtrip
use advinced_cache.Prelude.{
  ℕ, suc, ◌+◌, ◌-◌, Bool, true, false, not, ◌&&◌, List, [], ◌∷◌, ◌++◌, length, take, drop, keep,
  any, ltb, leb, ◌==◌, has_prefix, if◌then◌else◌,
}
use advinced_cache.Prelude.Outcome.{Outcome, ok, err, panic, ◌>>=◌}
use advinced_cache.KeyValue.{Bytes, Pair, kv_slice}
use advinced_cache.Config.{Rule}

pub record State : Type 0 where
  pub k_idx : ℕ
  pub v_idx : ℕ
  pub k_found : Bool
  pub v_found : Bool

abbrev pub initial : State
initial = record { k_idx = 0; v_idx = 0; k_found = false; v_found = false }

-- `b[lo:hi]`, for a slice whose capacity is its length.
abbrev pub slice : Bytes → ℕ → ℕ → Outcome Bytes
slice b lo hi = if leb lo hi && leb hi (length b) then ok (take (hi - lo) (drop lo b)) else panic

-- `bytes.TrimLeft(b, "?")`.
unfoldable pub trim_left : Bytes → Bytes
trim_left [] = []
trim_left (x ∷ b) = let rest = trim_left b in if x == b'?' then rest else x ∷ b

-- The pair that ends before `end`.
unfoldable pub cut : Bytes → State → ℕ → Outcome Pair
cut b s end =
    if s.v_found
    then (do
      k ← slice b s.k_idx (s.v_idx - 1)
      v ← slice b s.v_idx end
      ok (record { key = k; value = v }))
    else (do k ← slice b s.k_idx end; ok (record { key = k; value = [] }))

abbrev pub flush : Bytes → State → ℕ → List Pair → Outcome (List Pair)
flush b s end out = if s.k_found then (do p ← cut b s end; ok (out ++ p ∷ [])) else ok out

-- One round of `for idx, bt := range b`.
unfoldable pub step : Bytes → ℕ → ℕ → State → List Pair → Outcome (State × List Pair)
unfolding cut
step b idx bt s out =
    if bt == b'&'
    then (do
      out' ← flush b s idx out
      ok (record { k_idx = idx + 1; v_idx = 0; k_found = true; v_found = false }, out'))
    else if (bt == b'=') && not s.v_found
    then ok (record s { v_idx = idx + 1; v_found = true }, out)
    else if not s.k_found
    then ok (record s { k_idx = idx; k_found = true }, out)
    else ok (s, out)

-- The loop: `rest` is `b[idx:]`.
unfoldable pub scan : Bytes → ℕ → Bytes → State → List Pair → Outcome (State × List Pair)
unfolding step
scan b idx [] s out = ok (s, out)
scan b idx (bt ∷ rest) s out = do (s', out') ← step b idx bt s out; scan b (idx + 1) rest s' out'

unfoldable pub parse_query : Bytes → Outcome (List Pair)
unfolding scan trim_left
parse_query query =
    let b = trim_left query in do (s, out) ← scan b 0 b initial []; flush b s (length b) out

-- The loop over `allowed`.
abbrev pub is_allowed : List Bytes → Bytes → Bool
is_allowed allowed key = any (λ allowed_key. has_prefix key allowed_key) allowed

unfoldable pub filter_queries : Rule → List Pair → List Pair
filter_queries rule = keep (λ kv. is_allowed rule.cache_key.query_bytes kv.key)

abbrev pub sort_if_many : List Pair → List Pair
sort_if_many out = if ltb 1 (length out) then kv_slice out else out

unfoldable pub parse_filter_and_sort_query : Rule → Bytes → Outcome (List Pair)
unfolding parse_query filter_queries
parse_filter_and_sort_query rule query = do
  out ← parse_query query
  ok (sort_if_many (filter_queries rule out))
