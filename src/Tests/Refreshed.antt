-- ===== src/Tests/Refreshed.antt =====
-- Runs of the refresh in pkg/model/entry.go and pkg/storage/lru/refresher.go and of
-- pkg/upstream/backend.go, and their theorems at concrete entries and answers.
use advinced_cache.Prelude.{
  ◌-◌, ◌*◌, ◌/◌, ◌≡◌, refl, true, false, none, some, [], ◌∷◌, ltb, arith, bytes_eq, ◌==◌,
  if◌then◌else◌,
}
use advinced_cache.Prelude.Outcome.{ok}
use advinced_cache.Entry.{
  Entry, Response, init_entry, is_same_fingerprint, filtered_and_sorted_queries,
  filtered_and_sorted_headers,
}
use advinced_cache.Entry.Payload.{Fits, set_payload, get_payload}
use advinced_cache.Entry.PayloadLaws.{get_payload-set_payload}
use advinced_cache.Entry.Refresh.{
  Floats, Refreshing, settings, is_fresh, staleness, refresh_probability, should_be_refreshed,
  call_revalidator, revalidate,
}
use advinced_cache.Entry.RefreshLaws.{revalidate_rests, answered_with}
use advinced_cache.Entry.InPlace.{queries_in_place, headers_in_place, in_place-fresh}
use advinced_cache.Storage.{Storage, is_same_payload, payloads_are_equals, set_entry}
use advinced_cache.Storage.Stale.{set_entry_stale}
use advinced_cache.Storage.Linked.Runs.{start-Links}
use advinced_cache.Refresh.{Refresher, scan_storage}
use advinced_cache.Refresh.Runs.{here, next, scanned, IsCounted, Reach-IsCounted}
use advinced_cache.Upstream.{
  Backend, Client, visit_headers, admitted_headers, request_external_backend, fetch,
  revalidator_maker,
}
use advinced_cache.Upstream.Laws.{Fetched, fetch-Fetched}
use advinced_cache.Tests.Requests.{hasher, rule, pair_a, pair_b, packed, packed-Fits, stored}
use advinced_cache.Tests.Stores.{storage, loaded, found_0}

-- Numbers in the place of fractions, in percent.
abbrev floats : Floats
floats = record {
  of_int = λ n. n;
  to_int = λ n. n;
  less = ltb;
  times = λ a b. a * b / 100;
  over = λ a b. if b == 0 then 0 else a * 100 / b;
  minus = λ a b. a - b;
  negate = λ a. a;
  exp = λ a. 0;
}

abbrev daily : Refreshing
daily = record { ttl = 1000; beta = 40; coefficient = 50 }

abbrev aged : Entry
aged = init_entry rule 7

chosen : should_be_refreshed floats daily 2000 0 aged ≡ true
unfolding settings is_fresh staleness should_be_refreshed refresh_probability
chosen = refl

-- The stored entry and the new one have payloads of the bytes 0 and 1.
abbrev renewing : Storage
renewing = record loaded { entries = λ p. record stored { payload = some (p ∷ []) } }

differs : is_same_payload hasher (renewing.entries 0) (renewing.entries 1) ≡ false
unfolding payloads_are_equals bytes_eq
differs = refl

set_entry_stale_example :
    should_be_refreshed floats daily 10_000_000_000 0
      ((set_entry hasher 10_000_000_000 1 renewing).0.entries 0)
    ≡ ltb 0 (refresh_probability floats daily (10_000_000_000 - 10))
unfolding settings is_same_fingerprint bytes_eq
set_entry_stale_example =
    set_entry_stale floats daily daily hasher 10_000_000_000 10_000_000_000 0 1 0 renewing found_0
      refl differs refl (omega arith) (omega arith) (omega arith)

abbrev backend : Backend
backend = record {
  from_url = b'u' ∷ [];
  timeout = 9;
  max_req_duration = 3;
  escape_header = b'B' ∷ [];
}

-- A client that answers every request with one header.
abbrev client : Client
client req timeout = some (record { status = 200; headers = pair_a ∷ []; body = some (b'!' ∷ []) })

abbrev answer : Response
answer = record { status = 200; headers = pair_a ∷ []; body = b'!' ∷ [] }

fetched : fetch client true backend none (b'/' ∷ []) [] (pair_b ∷ []) ≡ ok answer
unfolding fetch visit_headers admitted_headers request_external_backend
fetched = refl

fetch-Fetched_example :
    (true ≡ true) × Fetched client backend none (b'/' ∷ []) [] (pair_b ∷ []) answer
fetch-Fetched_example =
    fetch-Fetched client backend none (b'/' ∷ []) [] (pair_b ∷ []) true answer fetched

abbrev bare : Response
bare = record answer { headers = [] }

abbrev renewable : Entry
renewable = record (set_payload packed (init_entry rule 7)) {
  revalidator = some (revalidator_maker client backend);
}

readable : get_payload renewable ≡ ok packed
unfolding set_payload get_payload
readable = get_payload-set_payload packed renewable packed-Fits

called : call_revalidator renewable packed ≡ ok bare
unfolding call_revalidator revalidator_maker request_external_backend visit_headers admitted_headers
    bytes_eq set_payload
called = refl

bare-Fits : Fits (answered_with packed bare)
bare-Fits = omega arith

revalidate_rests_example :
    (e' : Entry) × (revalidate 5000 renewable ≡ ok e')
    × (e'.key ≡ renewable.key)
    × (get_payload e' ≡ ok (answered_with packed bare))
    × (should_be_refreshed floats daily 5400 0 e' ≡ false)
unfolding settings set_payload
revalidate_rests_example =
    revalidate_rests floats daily daily 5000 5400 0 renewable packed bare readable called refl
      bare-Fits refl (omega arith) (omega arith) (omega arith) (omega arith)

in_place-fresh_example :
    (queries_in_place rule (pair_b ∷ pair_a ∷ [])
      ≡ filtered_and_sorted_queries rule (pair_b ∷ pair_a ∷ []))
    × (headers_in_place rule (pair_b ∷ pair_a ∷ [])
        ≡ filtered_and_sorted_headers rule (pair_b ∷ pair_a ∷ []))
in_place-fresh_example = in_place-fresh rule (pair_b ∷ pair_a ∷ [])

abbrev idle : Refresher
idle = record { storage = storage; pending = []; scans = 0; found = 0; successes = 0; failures = 0 }

idle-IsCounted : IsCounted idle
idle-IsCounted = record {
  accounted = refl;
  bounded = omega arith;
  links = start-Links storage.entries storage.tiny_lfu storage.memory_threshold;
}

Reach-IsCounted_example : IsCounted (scan_storage floats daily (λ l. none) 1 2000 0 idle)
Reach-IsCounted_example =
    Reach-IsCounted (next here (scanned floats daily (λ l. none) 1 2000 0 idle)) idle-IsCounted
