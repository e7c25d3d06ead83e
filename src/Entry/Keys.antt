-- ===== src/Entry/Keys.antt =====
-- What the cache key of pkg/model/entry.go depends on, and what it does not.
use advinced_cache.Prelude.{
  ℕ, ◌<◌, ◌≡◌, ◌≢◌, refl, ap, ◌∙◌, sym, Bool, true, false, some, List, [], ◌∷◌, keep, any, bytes_eq,
  eq_of_bytes_eq, has_prefix, Bool-cases, inl, inr, arith,
}
use advinced_cache.Prelude.Outcome.{ok}
use advinced_cache.KeyValue.{Bytes, Pair, kv_slice}
use advinced_cache.KeyValue.Canonical.{with_key, kv_slice_canonical}
use advinced_cache.Config.{Rule, Rules, match_rule}
use advinced_cache.Query.{filter_queries, sort_if_many}
use advinced_cache.Entry.{
  Hasher, Entry, Request, active_shards, num_of_shards, map_shard_key, filter_headers,
  filtered_and_sorted_queries, filtered_and_sorted_headers, entry_of_request, new_entry_fast_http,
}

-- The test `len(*out) > 1` only spares a sort that would change nothing.
sort_if_many-kv_slice : (kv : List Pair) → sort_if_many kv ≡ kv_slice kv
unfolding kv_slice
sort_if_many-kv_slice [] = refl
sort_if_many-kv_slice (p ∷ []) = refl
sort_if_many-kv_slice (p ∷ q ∷ kv) = ground arith

abbrev SameByKey : List Pair → List Pair → Type 0
SameByKey a b = (k : Bytes) → with_key k a ≡ with_key k b

sort_if_many_canonical : (a b : List Pair) → SameByKey a b → sort_if_many a ≡ sort_if_many b
sort_if_many_canonical a b h =
    sort_if_many-kv_slice a ∙ (kv_slice_canonical a b).1 h ∙ sym (sort_if_many-kv_slice b)

match_rule-entry :
    (h : Hasher) (rules : Rules) (now : ℕ) (r : Request) (rule : Rule)
    → match_rule rules r.path ≡ some rule
    → new_entry_fast_http h rules now r ≡ ok (entry_of_request h rule now r)
unfolding new_entry_fast_http
match_rule-entry h rules now r rule found = rw (found, new_entry_fast_http)

entry_of_request_order :
    (h : Hasher) (rule : Rule) (now : ℕ) (r s : Request)
    → SameByKey (filter_queries rule r.query_args) (filter_queries rule s.query_args)
    → SameByKey (filter_headers rule r.header_args) (filter_headers rule s.header_args)
    → entry_of_request h rule now r ≡ entry_of_request h rule now s
unfolding entry_of_request
entry_of_request_order h rule now r s q hd =
    rw (sort_if_many_canonical _ _ q) (rw (sort_if_many_canonical _ _ hd))

-- Two requests for one path make the same entry if, of the query arguments and of the headers that
-- the rule admits to the key, each name has the same values in the same order in both. The order
-- between names and whatever the rule does not admit make no difference.
pub new_entry_fast_http_order :
    (h : Hasher) (rules : Rules) (now : ℕ) (r s : Request) (rule : Rule)
    → match_rule rules r.path ≡ some rule
    → s.path ≡ r.path
    → ((k : Bytes)
        → with_key k (filter_queries rule r.query_args)
          ≡ with_key k (filter_queries rule s.query_args))
    → ((k : Bytes)
        → with_key k (filter_headers rule r.header_args)
          ≡ with_key k (filter_headers rule s.header_args))
    → new_entry_fast_http h rules now r ≡ new_entry_fast_http h rules now s
new_entry_fast_http_order h rules now r s rule found same_path q hd =
    match_rule-entry h rules now r rule found
    ∙ ap ok (entry_of_request_order h rule now r s q hd)
    ∙ sym (match_rule-entry h rules now s rule (rw same_path found))

-- The names that the rule admits to the key: of arguments by their prefixes, of headers in full.
abbrev pub AdmitsArgument : Rule → Bytes → Type 0
AdmitsArgument rule k = any (λ prefix. has_prefix k prefix) rule.cache_key.query_bytes ≡ true

abbrev pub AdmitsHeader : Rule → Bytes → Type 0
AdmitsHeader rule k = any (λ name. bytes_eq name k) rule.cache_key.headers_map ≡ true

with_key-keep :
    (p : Bytes → Bool) (k : Bytes) (l : List Pair)
    → p k ≡ true
    → with_key k (keep (λ kv. p kv.key) l) ≡ with_key k l
with_key-keep p k [] e = refl
with_key-keep p k (x ∷ l) e = elim (Bool-cases (bytes_eq x.key k)) [
  | inl same ↦
      let there : p x.key ≡ true = ap p (eq_of_bytes_eq x.key k same) ∙ e in
      rw (there, same, keep) (ap (λ r. x ∷ r) (with_key-keep p k l e))
  | inr other ↦ elim (Bool-cases (p x.key)) [
    | inl t ↦ rw (t, other, keep) (with_key-keep p k l e)
    | inr f ↦ rw (f, other, keep) (with_key-keep p k l e)
  ]
]

with_key-dropped :
    (p : Bytes → Bool) (k : Bytes) (l : List Pair)
    → p k ≡ false
    → with_key k (keep (λ kv. p kv.key) l) ≡ []
with_key-dropped p k [] e = refl
with_key-dropped p k (x ∷ l) e = elim (Bool-cases (p x.key)) [
  | inr f ↦ rw f (with_key-dropped p k l e)
  | inl t ↦ elim (Bool-cases (bytes_eq x.key k)) [
    | inl same ↦
        let no : true ≡ false = sym t ∙ ap p (eq_of_bytes_eq x.key k same) ∙ e in
        absurd (ground arith)
    | inr other ↦ rw (t, other, keep) (with_key-dropped p k l e)
  ]
]

kept-SameByKey :
    (p : Bytes → Bool) (a b : List Pair)
    → ((k : Bytes) → p k ≡ true → with_key k a ≡ with_key k b)
    → SameByKey (keep (λ kv. p kv.key) a) (keep (λ kv. p kv.key) b)
kept-SameByKey p a b h = λ k. elim (Bool-cases (p k)) [
  | inl t ↦ with_key-keep p k a t ∙ h k t ∙ sym (with_key-keep p k b t)
  | inr f ↦ with_key-dropped p k a f ∙ sym (with_key-dropped p k b f)
]

filtered_and_sorted_queries_admitted :
    (rule other : Rule) (a b : List Pair)
    → other.cache_key ≡ rule.cache_key
    → ((k : Bytes) → AdmitsArgument rule k → with_key k a ≡ with_key k b)
    → filtered_and_sorted_queries rule a ≡ filtered_and_sorted_queries other b
unfolding filtered_and_sorted_queries filter_queries
filtered_and_sorted_queries_admitted rule other a b same h = rw same (
    sort_if_many_canonical _ _
      (kept-SameByKey (λ k. any (λ prefix. has_prefix k prefix) rule.cache_key.query_bytes) a b h))

filtered_and_sorted_headers_admitted :
    (rule other : Rule) (a b : List Pair)
    → other.cache_key ≡ rule.cache_key
    → ((k : Bytes) → AdmitsHeader rule k → with_key k a ≡ with_key k b)
    → filtered_and_sorted_headers rule a ≡ filtered_and_sorted_headers other b
unfolding filtered_and_sorted_headers filter_headers
filtered_and_sorted_headers_admitted rule other a b same h = rw same (
    sort_if_many_canonical _ _
      (kept-SameByKey (λ k. any (λ name. bytes_eq name k) rule.cache_key.headers_map) a b h))

-- The key is computed from the admitted arguments and headers alone. Two requests, also for two paths
-- whose rules admit the same names, get entries that agree in key, shard and fingerprint if every
-- argument name with an admitted prefix and every admitted header name has the same values in the
-- same order in both; whatever else the requests carry, and the paths, make no difference.
pub keys_ignore_path :
    (h : Hasher) (rules : Rules) (now : ℕ) (r s : Request) (rule other : Rule)
    → match_rule rules r.path ≡ some rule
    → match_rule rules s.path ≡ some other
    → other.cache_key ≡ rule.cache_key
    → ((k : Bytes) → AdmitsArgument rule k → with_key k r.query_args ≡ with_key k s.query_args)
    → ((k : Bytes) → AdmitsHeader rule k → with_key k r.header_args ≡ with_key k s.header_args)
    → (e f : Entry) × (new_entry_fast_http h rules now r ≡ ok e)
      × (new_entry_fast_http h rules now s ≡ ok f)
      × (f.key ≡ e.key)
      × (f.shard ≡ e.shard)
      × (f.fingerprint ≡ e.fingerprint)
unfolding entry_of_request
keys_ignore_path h rules now r s rule other found found' same q hd =
    let qs = filtered_and_sorted_queries_admitted rule other r.query_args s.query_args same q in
    let hs = filtered_and_sorted_headers_admitted rule other r.header_args s.header_args same hd in
    (
      entry_of_request h rule now r,
      entry_of_request h other now s,
      match_rule-entry h rules now r rule found,
      match_rule-entry h rules now s other found',
      rw (qs, hs) refl,
      rw (qs, hs) refl,
      rw (qs, hs) refl,
    )

-- A shard key is an index of the shard array, and never one of the two shards 0 and 2047.
pub map_shard_key_bounds :
    (key : ℕ)
    → (0 < map_shard_key key)
      × (map_shard_key key < num_of_shards)
      × (map_shard_key key ≢ active_shards)
unfolding map_shard_key
map_shard_key_bounds key = (ground arith, ground arith, ground arith)
