-- ===== src/Tests/Served.antt =====
-- Runs of internal/cache/api/cache.go and pkg/storage/lru/evictor.go, and their theorems at
-- concrete requests.
use advinced_cache.Prelude.{arith, ◌≡◌, refl, true, none, some, [], ◌∷◌, bytes_eq, has_prefix}
use advinced_cache.Prelude.Outcome.{Outcome, ok, err, upstream_failed}
use advinced_cache.KeyValue.{kv_slice}
use advinced_cache.Config.{match_rule}
use advinced_cache.Entry.{
  Entry, Response, Revalidator, map_shard_key, entry_of_request, new_entry_fast_http,
  is_same_fingerprint,
}
use advinced_cache.Entry.Payload.{set_payload, get_payload}
use advinced_cache.Entry.PayloadLaws.{get_payload-set_payload}
use advinced_cache.Sharded.{new_map, new_shards, shard_of, get, get_shard, set_shard, set_map}
use advinced_cache.Sharded.Table.{find, put}
use advinced_cache.Storage.{Storage, get_entry}
use advinced_cache.Evict.{Eviction, evict_loop, evict_shard}
use advinced_cache.Evict.Ends.{evict_loop-evict_shard}
use advinced_cache.Handler.{Server, Fetch, served, index}
use advinced_cache.Handler.Laws.{Balanced, index_hit, index_bad_status, index-Balanced}
use advinced_cache.Tests.Requests.{hasher, rule, rules, request, packed, packed-Fits}
use advinced_cache.Tests.Stores.{storage}

abbrev maker : Revalidator
maker _ _ _ _ = err upstream_failed

abbrev missing : Response
missing = record { status = 404; headers = []; body = b'-' ∷ [] }

abbrev fetch : Fetch
fetch _ _ _ _ = ok missing

abbrev server : Server
server = record {
  storage = storage;
  enabled = true;
  fresh = 5;
  total = 3;
  hits = 1;
  misses = 2;
  proxies = 0;
  errors = 0;
}

abbrev entry : Entry
entry = entry_of_request hasher rule 7 request

made : new_entry_fast_http hasher rules 7 request ≡ ok entry
unfolding new_entry_fast_http match_rule bytes_eq
made = refl

not_found : (get_entry entry storage).1 ≡ none
unfolding get_entry get get_shard new_map new_shards shard_of find map_shard_key entry_of_request
    has_prefix kv_slice
not_found = refl

index_bad_status_example :
    index fetch maker hasher rules 7 request [] server
    ≡ ok (
      record server { storage = (get_entry entry storage).0; total = 4; misses = 3 },
      served 404 [] (b'-' ∷ []) 7,
    )
index_bad_status_example =
    index_bad_status fetch maker hasher rules 7 request [] server entry missing refl made not_found
      refl refl

index-Balanced_example : Balanced (index fetch maker hasher rules 7 request [] server)
index-Balanced_example = index-Balanced fetch maker hasher rules 7 request [] server refl

-- The storage with the request's entry under its key, which has a payload.
abbrev answered : Entry
answered = set_payload packed entry

abbrev warm : Storage
warm = record storage {
  entries = λ p. answered;
  sharded_map = set_map (λ p. 80) entry.key 0 new_map;
}

warm_found : (get_entry entry warm).1 ≡ some 0
unfolding get_entry get get_shard set_map set_shard new_map new_shards shard_of find put
    map_shard_key entry_of_request is_same_fingerprint bytes_eq has_prefix kv_slice set_payload
warm_found = refl

readable : get_payload answered ≡ ok packed
unfolding set_payload get_payload
readable = get_payload-set_payload packed entry packed-Fits

index_hit_example :
    index fetch maker hasher rules 7 request [] (record server { storage = warm })
    ≡ ok (
      record server { storage = (get_entry entry warm).0; total = 4; hits = 2 },
      served packed.status packed.response_headers packed.body answered.updated_at,
    )
index_hit_example =
    index_hit fetch maker hasher rules 7 request [] (record server { storage = warm }) entry 0
      packed refl made warm_found readable

abbrev eviction : Eviction
eviction = record { storage = warm; items = 0; mem = 0 }

evict_loop-evict_shard_example :
    (o : Outcome Eviction) × (evict_shard 3 eviction ≡ some o)
    × (evict_loop 8 3 0 eviction ≡ some o)
evict_loop-evict_shard_example = evict_loop-evict_shard 7 3 eviction (omega arith)
