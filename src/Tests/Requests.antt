-- ===== src/Tests/Requests.antt =====
-- Runs of the key, query and payload code of pkg/model/entry.go and pkg/sort/key_value.go, and
-- their theorems at concrete requests.
use advinced_cache.Prelude.{
  ℕ, ◌+◌, ◌≡◌, ◌↔◌, ◌⊎◌, refl, true, false, none, some, List, [], ◌∷◌, arith, bytes_eq, has_prefix,
}
use advinced_cache.Prelude.Outcome.{ok, panic}
use advinced_cache.KeyValue.{Bytes, Pair, kv_slice}
use advinced_cache.KeyValue.Canonical.{with_key, kv_slice_canonical}
use advinced_cache.Config.{Rule, Rules, match_rule}
use advinced_cache.Query.{trim_left, parse_query, filter_queries}
use advinced_cache.Query.Panic.{starts_badly, parse_query_panics}
use advinced_cache.Query.Roundtrip.{print_query, parse_query-print_query}
use advinced_cache.Entry.{Hasher, Entry, Request, init_entry, new_entry_fast_http}
use advinced_cache.Entry.Keys.{new_entry_fast_http_order, keys_ignore_path, AdmitsArgument}
use advinced_cache.Entry.Payload.{Packed, set_payload, get_payload, Fits}
use advinced_cache.Entry.PayloadLaws.{get_payload-set_payload}
use advinced_cache.Entry.Dumped.{to_bytes, entry_from_bytes}
use advinced_cache.Entry.DumpedLaws.{IsStorable, reloaded, entry_from_bytes-to_bytes}

-- A toy hash: the sum of the bytes, and two multiples of it.
abbrev pub sum : Bytes → ℕ
sum [] = 0
sum (x ∷ b) = x + sum b

abbrev pub hasher : Hasher
hasher = record { sum64 = sum; sum128_lo = sum; sum128_hi = sum }

abbrev pub pair_a : Pair
pair_a = record { key = b'a' ∷ []; value = b'1' ∷ [] }

abbrev pub pair_b : Pair
pair_b = record { key = b'b' ∷ []; value = b'2' ∷ [] }

abbrev pub rule : Rule
rule = record {
  gzip = record { enabled = false; threshold = 0 };
  refresh = none;
  cache_key = record {
    query = [];
    query_bytes = (b'a' ∷ []) ∷ (b'b' ∷ []) ∷ [];
    headers = [];
    headers_map = [];
  };
  cache_value = record { headers = []; headers_map = [] };
  path_bytes = b'/' ∷ [];
}

abbrev other_rule : Rule
other_rule = record rule { path_bytes = b'/' ∷ b'x' ∷ [] }

abbrev pub rules : Rules
rules = (b'/' ∷ [], rule) ∷ (b'/' ∷ b'x' ∷ [], other_rule) ∷ []

abbrev pub request : Request
request = record { path = b'/' ∷ []; query_args = pair_b ∷ pair_a ∷ []; header_args = [] }

sorts : kv_slice (pair_b ∷ pair_a ∷ []) ≡ pair_a ∷ pair_b ∷ []
unfolding kv_slice
sorts = refl

parses :
    parse_query (b'?' ∷ b'a' ∷ b'=' ∷ b'1' ∷ b'&' ∷ b'b' ∷ b'=' ∷ b'2' ∷ [])
    ≡ ok (pair_a ∷ pair_b ∷ [])
unfolding parse_query
parses = refl

parse_panics : parse_query (b'=' ∷ b'1' ∷ []) ≡ panic
unfolding parse_query
parse_panics = refl

abbrev swapped : List Pair
swapped = pair_a ∷ pair_b ∷ []

kv_slice_canonical_example :
    (kv_slice (pair_b ∷ pair_a ∷ []) ≡ kv_slice swapped)
    ↔ ((k : Bytes) → with_key k (pair_b ∷ pair_a ∷ []) ≡ with_key k swapped)
kv_slice_canonical_example = kv_slice_canonical (pair_b ∷ pair_a ∷ []) swapped

abbrev equals_one : Bytes
equals_one = b'=' ∷ b'1' ∷ []

parse_query_panics_example :
    (starts_badly (trim_left equals_one) ≡ true) × (parse_query equals_one ≡ panic)
    ⊎ (starts_badly (trim_left equals_one) ≡ false)
      × ((out : List Pair) × (parse_query equals_one ≡ ok out))
parse_query_panics_example = parse_query_panics equals_one

parse_query-print_query_example :
    parse_query (print_query pair_a (pair_b ∷ [])) ≡ ok (pair_a ∷ pair_b ∷ [])
parse_query-print_query_example =
    parse_query-print_query pair_a (pair_b ∷ [])
      (record {
        named = omega arith;
        key_equals = (refl, tt);
        key_and = (refl, tt);
        value_and = (refl, tt);
      })
      (
        record {
          named = omega arith;
          key_equals = (refl, tt);
          key_and = (refl, tt);
          value_and = (refl, tt);
        },
        tt,
      )
      (refl, tt)

abbrev reordered : Request
reordered = record request { query_args = pair_a ∷ pair_b ∷ [] }

same_by_key :
    (k : Bytes)
    → with_key k (filter_queries rule request.query_args)
      ≡ with_key k (filter_queries rule reordered.query_args)
unfolding filter_queries has_prefix bytes_eq
same_by_key [] = refl
same_by_key (x ∷ []) = ground arith
same_by_key (x ∷ y ∷ k) = ground arith

new_entry_fast_http_order_example :
    new_entry_fast_http hasher rules 7 request ≡ new_entry_fast_http hasher rules 7 reordered
unfolding match_rule bytes_eq
new_entry_fast_http_order_example =
    new_entry_fast_http_order hasher rules 7 request reordered rule refl refl same_by_key
      (λ k. refl)

-- Another path, another order and an argument that is not admitted.
abbrev other_request : Request
other_request = record request {
  path = b'/' ∷ b'x' ∷ [];
  query_args = record pair_a { key = b'c' ∷ [] } ∷ pair_a ∷ pair_b ∷ [];
}

same_admitted :
    (k : Bytes)
    → AdmitsArgument rule k
    → with_key k request.query_args ≡ with_key k other_request.query_args
unfolding has_prefix bytes_eq
same_admitted [] a = ground arith
same_admitted (x ∷ []) a = ground arith
same_admitted (x ∷ y ∷ k) a = ground arith

keys_ignore_path_example :
    (e f : Entry) × (new_entry_fast_http hasher rules 7 request ≡ ok e)
    × (new_entry_fast_http hasher rules 7 other_request ≡ ok f)
    × (f.key ≡ e.key)
    × (f.shard ≡ e.shard)
    × (f.fingerprint ≡ e.fingerprint)
unfolding match_rule bytes_eq
keys_ignore_path_example =
    keys_ignore_path hasher rules 7 request other_request rule other_rule refl refl refl
      same_admitted (λ k a. refl)

abbrev pub packed : Packed
packed = record {
  path = b'/' ∷ [];
  query = b'a' ∷ b'=' ∷ b'1' ∷ [];
  query_headers = pair_a ∷ [];
  response_headers = pair_b ∷ [];
  body = b'o' ∷ b'k' ∷ [];
  status = 200;
}

pub packed-Fits : Fits packed
packed-Fits = omega arith

get_payload-set_payload_example : get_payload (set_payload packed (init_entry rule 7)) ≡ ok packed
get_payload-set_payload_example = get_payload-set_payload packed (init_entry rule 7) packed-Fits

abbrev pub stored : Entry
stored = record (init_entry rule 7) {
  key = 2048;
  shard = 1;
  fingerprint = 0 ∷ 1 ∷ 2 ∷ 3 ∷ 4 ∷ 5 ∷ 6 ∷ 7 ∷ 8 ∷ 9 ∷ 10 ∷ 11 ∷ 12 ∷ 13 ∷ 14 ∷ 15 ∷ [];
  payload = some (1 ∷ 2 ∷ 3 ∷ []);
}

pub stored-IsStorable : IsStorable stored
stored-IsStorable = omega arith

entry_from_bytes-to_bytes_example :
    entry_from_bytes rules (λ _ _ _ _. panic) 9 (to_bytes stored)
    ≡ ok (reloaded (λ _ _ _ _. panic) stored)
unfolding match_rule bytes_eq
entry_from_bytes-to_bytes_example =
    entry_from_bytes-to_bytes rules (λ _ _ _ _. panic) 9 stored stored-IsStorable refl
