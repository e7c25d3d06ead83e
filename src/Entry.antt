-- ===== src/Entry.antt =====
-- The cache entry of pkg/model/entry.go: its fields, the keys that are computed from a request and
-- its small methods. xxh3 is a library and comes in as a `Hasher`. A payload is a slice whose
-- capacity is its length, as `SetPayload` and the dump loader make it.
pub mod Payload
pub mod Keys
pub mod PayloadLaws
pub mod Dumped
pub mod DumpedLaws
pub mod Refresh
pub mod RefreshLaws
pub mod InPlace
use advinced_cache.Prelude.{
  ℕ, ◌+◌, ◌%◌, ◌/◌, ◌^◌, ◌≡◌, Bool, true, false, ◌&&◌, Option, none, some, List, [], ◌∷◌, ◌++◌,
  length, take, drop, ltb, ◌==◌, bytes_eq, if◌then◌else◌, keep, set,
}
use advinced_cache.Prelude.Outcome.{Outcome, Error, ok, err, panic, ◌>>=◌, rule_not_found}
use advinced_cache.Prelude.Word.{put_u64}
use advinced_cache.KeyValue.{Bytes, Pair, kv_slice}
use advinced_cache.Config.{Rule, Rules, has_key, match_rule}
use advinced_cache.Query.{filter_queries, sort_if_many, parse_filter_and_sort_query}

-- `xxh3`: the 64-bit sum, and the low and the high half of the 128-bit sum.
pub record Hasher : Type 0 where
  pub sum64 : Bytes → ℕ
  pub sum128_lo : Bytes → ℕ
  pub sum128_hi : Bytes → ℕ

-- What the upstream answers.
pub record Response : Type 0 where
  pub status : ℕ
  pub headers : List Pair
  pub body : Bytes

abbrev pub Revalidator : Type 0
Revalidator = Rule → Bytes → Bytes → List Pair → Outcome Response

pub record Entry : Type 0 where
  pub key : ℕ
  pub shard : ℕ
  pub fingerprint : Bytes
  pub rule : Rule
  pub payload : Option Bytes
  pub lru_list_elem : Option ℕ
  pub revalidator : Option Revalidator
  pub updated_at : ℕ
  pub is_compressed : ℕ

-- `new(Entry).Init()` and `entry.rule = rule`, at the time `now`.
abbrev pub init_entry : Rule → ℕ → Entry
init_entry rule now = record {
  key = 0;
  shard = 0;
  fingerprint = [];
  rule = rule;
  payload = none;
  lru_list_elem = none;
  revalidator = none;
  updated_at = now;
  is_compressed = 0;
}

-- pkg/storage/map/map.go
abbrev pub active_shards : ℕ
active_shards = 2047

abbrev pub num_of_shards : ℕ
num_of_shards = 2049

unfoldable pub map_shard_key : ℕ → ℕ
map_shard_key key = let k = key % active_shards in if k == 0 then active_shards + 1 else k

-- The two loops that write pairs to the key buffer.
unfoldable pub write_pairs : List Pair → Bytes
write_pairs [] = []
write_pairs (pair ∷ kv) = pair.key ++ (pair.value ++ write_pairs kv)

unfoldable pub calculate_and_set_up_keys : Hasher → List Pair → List Pair → Entry → Entry
unfolding write_pairs map_shard_key
calculate_and_set_up_keys h filtered_queries filtered_headers e =
    let buf = write_pairs filtered_queries ++ write_pairs filtered_headers in
    record e {
      key = h.sum64 buf;
      fingerprint = put_u64 (h.sum128_lo buf) ++ put_u64 (h.sum128_hi buf);
      shard = map_shard_key (h.sum64 buf);
    }

-- What fasthttp hands over of a request: its path, and the visited query arguments and headers.
pub record Request : Type 0 where
  pub path : Bytes
  pub query_args : List Pair
  pub header_args : List Pair

unfoldable pub filter_headers : Rule → List Pair → List Pair
filter_headers rule = keep (λ kv. has_key kv.key rule.cache_key.headers_map)

unfoldable pub filtered_and_sorted_queries : Rule → List Pair → List Pair
unfolding filter_queries
filtered_and_sorted_queries rule args = sort_if_many (filter_queries rule args)

unfoldable pub filtered_and_sorted_headers : Rule → List Pair → List Pair
unfolding filter_headers
filtered_and_sorted_headers rule args = sort_if_many (filter_headers rule args)

-- `NewEntryFastHttp` behind its rule look-up.
unfoldable pub entry_of_request : Hasher → Rule → ℕ → Request → Entry
unfolding calculate_and_set_up_keys filtered_and_sorted_queries filtered_and_sorted_headers
entry_of_request h rule now r =
    calculate_and_set_up_keys h (filtered_and_sorted_queries rule r.query_args)
      (filtered_and_sorted_headers rule r.header_args) (init_entry rule now)

unfoldable pub new_entry_fast_http : Hasher → Rules → ℕ → Request → Outcome Entry
unfolding entry_of_request
new_entry_fast_http h rules now r = elim (match_rule rules r.path) [
  | none ↦ err rule_not_found
  | some rule ↦ ok (entry_of_request h rule now r)
]

-- `NewEntryNetHttp`, of the raw query and the headers in the order that the map iteration gives.
unfoldable pub new_entry_net_http : Hasher → Rule → ℕ → Bytes → List Pair → Outcome Entry
unfolding calculate_and_set_up_keys parse_filter_and_sort_query filtered_and_sorted_headers
new_entry_net_http h rule now raw_query header_args = do
  filtered_queries ← parse_filter_and_sort_query rule raw_query
  let filtered_headers = filtered_and_sorted_headers rule header_args
  ok (calculate_and_set_up_keys h filtered_queries filtered_headers (init_entry rule now))

unfoldable pub new_entry_manual :
    Hasher → Rules → ℕ → Bytes → Bytes → List Pair → Revalidator → Outcome Entry
unfolding match_rule calculate_and_set_up_keys parse_filter_and_sort_query
    filtered_and_sorted_headers
new_entry_manual h rules now path query headers revalidator = elim (match_rule rules path) [
  | none ↦ err rule_not_found
  | some rule ↦ do
    filtered_queries ← parse_filter_and_sort_query rule query
    let e = record (init_entry rule now) { revalidator = some revalidator }
    ok (calculate_and_set_up_keys h filtered_queries (filtered_and_sorted_headers rule headers) e)
]

unfoldable pub is_route_was_not_found : Error → Bool
is_route_was_not_found rule_not_found = true
is_route_was_not_found _ = false

abbrev pub payload_bytes : Entry → Bytes
payload_bytes e = elim e.payload [ none ↦ [] | some payload ↦ payload ]

-- `unsafe.Sizeof(*e)` on a 64-bit platform: eight words and the 16 bytes of the fingerprint.
abbrev pub entry_size : ℕ
entry_size = 80

unfoldable pub weight : Entry → ℕ
weight e = entry_size + length (payload_bytes e)

unfoldable pub is_same_fingerprint : Entry → Bytes → Bool
is_same_fingerprint e another = bytes_eq e.fingerprint another

-- `existing.SwapPayloads(new)`: the existing entry and the new one afterwards.
unfoldable pub swap_payloads : Entry → Entry → Entry × Entry
swap_payloads e another =
    (record e { payload = another.payload }, record another { payload = e.payload })

-- `TouchUpdatedAt`: `time.Now().Unix()`, at the time `now` in nanoseconds.
unfoldable pub touch_updated_at : ℕ → Entry → Entry
touch_updated_at now e = record e { updated_at = now / 1_000_000_000 }
