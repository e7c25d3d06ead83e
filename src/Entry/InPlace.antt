-- ===== src/Entry/InPlace.antt =====
-- `filteredAndSortedKeyQueriesInPlace` and `filteredAndSortedKeyHeadersInPlace` of
-- pkg/model/entry.go, which filter the slice of the caller: the loop with its read and write index
-- over the elements, and the slice that is left.
use advinced_cache.Prelude.{
  ℕ, zero, suc, ◌+◌, ◌≤◌, ◌<◌, ◌≡◌, refl, ap, sym, ◌∙◌, Bool, true, false, List, [], ◌∷◌, ◌++◌,
  append-nil, append_assoc, length, set, get_or, take, drop, keep, length-set, Bool-cases, inl, inr,
  arith,
}
use advinced_cache.KeyValue.{Pair}
use advinced_cache.Config.{Rule, has_key}
use advinced_cache.Query.{is_allowed, filter_queries, sort_if_many}
use advinced_cache.Entry.{filter_headers, filtered_and_sorted_queries, filtered_and_sorted_headers}

-- The value of an element out of range, which the loop never reads.
abbrev no_pair : Pair
no_pair = record { key = []; value = [] }

-- The loop from `i`, with `m` elements left: the elements and the write index at the end.
unfoldable pub filter_loop : (Pair → Bool) → ℕ → ℕ → ℕ → List Pair → List Pair × ℕ
filter_loop p zero i n q = (q, n)
filter_loop p (suc m) i n q =
    let kv = get_or q i no_pair in
    elim (p kv) [
      | true ↦ filter_loop p m (i + 1) (n + 1) (set q n kv)
      | false ↦ filter_loop p m (i + 1) n q
    ]

-- The whole: the sorted slice `q[:n]`.
unfoldable pub filter_in_place : (Pair → Bool) → List Pair → List Pair
unfolding filter_loop
filter_in_place p q = let (q, n) = filter_loop p (length q) 0 0 q in sort_if_many (take n q)

abbrev pub queries_in_place : Rule → List Pair → List Pair
queries_in_place rule = filter_in_place (λ kv. is_allowed rule.cache_key.query_bytes kv.key)

abbrev pub headers_in_place : Rule → List Pair → List Pair
headers_in_place rule = filter_in_place (λ kv. has_key kv.key rule.cache_key.headers_map)

drop_next : (q : List Pair) (i : ℕ) → i < length q → drop i q ≡ get_or q i no_pair ∷ drop (suc i) q
drop_next [] i h = absurd (omega arith)
drop_next (x ∷ q) zero h = refl
drop_next (x ∷ q) (suc i) h = drop_next q i (omega arith)

drop_past : (q : List Pair) (i : ℕ) → length q ≤ i → drop i q ≡ []
drop_past [] zero h = refl
drop_past [] (suc i) h = refl
drop_past (x ∷ q) zero h = absurd (omega arith)
drop_past (x ∷ q) (suc i) h = drop_past q i (omega arith)

drop-set : (q : List Pair) (n i : ℕ) (v : Pair) → n < i → drop i (set q n v) ≡ drop i q
drop-set [] n i v h = refl
drop-set (x ∷ q) n zero v h = absurd (omega arith)
drop-set (x ∷ q) zero (suc i) v h = refl
drop-set (x ∷ q) (suc n) (suc i) v h = drop-set q n i v (omega arith)

take-set :
    (q : List Pair) (n : ℕ) (v : Pair)
    → n < length q
    → take (suc n) (set q n v) ≡ take n q ++ v ∷ []
take-set [] n v h = absurd (omega arith)
take-set (x ∷ q) zero v h = refl
take-set (x ∷ q) (suc n) v h = ap (◌∷◌ x) (take-set q n v (omega arith))

module _ (p : Pair → Bool) where
  loop_keeps :
      (m i n : ℕ) (q : List Pair)
      → p (get_or q i no_pair) ≡ true
      → filter_loop p (suc m) i n q ≡ filter_loop p m (i + 1) (n + 1) (set q n (get_or q i no_pair))
  unfolding filter_loop
  loop_keeps m i n q e = rw (e, filter_loop) refl

  loop_drops :
      (m i n : ℕ) (q : List Pair)
      → p (get_or q i no_pair) ≡ false
      → filter_loop p (suc m) i n q ≡ filter_loop p m (i + 1) n q
  unfolding filter_loop
  loop_drops m i n q e = rw (e, filter_loop) refl

  kept_first : (kv : Pair) (q : List Pair) → p kv ≡ true → keep p (kv ∷ q) ≡ kv ∷ keep p q
  kept_first kv q e = rw (e, keep) refl

  dropped_first : (kv : Pair) (q : List Pair) → p kv ≡ false → keep p (kv ∷ q) ≡ keep p q
  dropped_first kv q e = rw (e, keep) refl

  -- What the loop leaves in front of the write index.
  abbrev prefix : List Pair × ℕ → List Pair
  prefix r = take r.1 r.0

  filter_loop-keep :
      (m i n : ℕ) (q : List Pair)
      → i + m ≡ length q
      → n ≤ i
      → prefix (filter_loop p m i n q) ≡ take n q ++ keep p (drop i q)
  unfolding filter_loop
  filter_loop-keep zero i n q all le =
      sym (append-nil (take n q))
      ∙ ap (λ r. take n q ++ keep p r) (sym (drop_past q i (omega arith)))
  filter_loop-keep (suc m) i n q all le =
      let kv = get_or q i no_pair in
      let rest = drop (i + 1) q in
      let next : suc i ≡ i + 1 = omega arith in
      let write : n + 1 ≡ suc n = omega arith in
      let here = drop_next q i (omega arith) ∙ ap (λ j. kv ∷ drop j q) next in
      elim (Bool-cases (p kv)) [
        | inl e ↦
            let size = length-set q n kv in
            ap prefix (loop_keeps m i n q e)
            ∙ filter_loop-keep m (i + 1) (n + 1) (set q n kv) (omega arith) (omega arith)
            ∙ ap (λ r. r ++ keep p (drop (i + 1) (set q n kv)))
                (ap (λ j. take j (set q n kv)) write ∙ take-set q n kv (omega arith))
            ∙ ap (λ r. (take n q ++ kv ∷ []) ++ keep p r) (drop-set q n (i + 1) kv (omega arith))
            ∙ append_assoc (take n q) (kv ∷ []) (keep p rest)
            ∙ ap (λ r. take n q ++ r) (sym (kept_first kv rest e))
            ∙ ap (λ r. take n q ++ keep p r) (sym here)
        | inr e ↦
            ap prefix (loop_drops m i n q e)
            ∙ filter_loop-keep m (i + 1) n q (omega arith) (omega arith)
            ∙ ap (λ r. take n q ++ r) (sym (dropped_first kv rest e))
            ∙ ap (λ r. take n q ++ keep p r) (sym here)
      ]

  filter_in_place-keep : (q : List Pair) → filter_in_place p q ≡ sort_if_many (keep p q)
  unfolding filter_in_place
  filter_in_place-keep q =
      ap sort_if_many (filter_loop-keep (length q) 0 0 q (omega arith) (omega arith))

-- Filtering in the caller's slice gives the same queries and headers as filtering into a fresh one,
-- whatever they are.
pub in_place-fresh :
    (rule : Rule) (kvs : List Pair)
    → (queries_in_place rule kvs ≡ filtered_and_sorted_queries rule kvs)
      × (headers_in_place rule kvs ≡ filtered_and_sorted_headers rule kvs)
unfolding filtered_and_sorted_queries filter_queries filtered_and_sorted_headers filter_headers
in_place-fresh rule kvs = (
  filter_in_place-keep (λ kv. is_allowed rule.cache_key.query_bytes kv.key) kvs,
  filter_in_place-keep (λ kv. has_key kv.key rule.cache_key.headers_map) kvs,
)
