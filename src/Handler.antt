-- ===== src/Handler.antt =====
-- internal/cache/api/cache.go: the main HTTP handler over the storage and the upstream. `fetch` is
-- `upstream.Gateway.Fetch` and `maker` its revalidator; `query_string` is what fasthttp gives for the
-- request; writing to the response does not fail. An answer is what the handler puts into the
-- response, with `last_modified` for the time in the `Last-Modified` header.
pub mod Laws
use advinced_cache.Prelude.{
  ℕ, ◌+◌, ◌≡◌, Bool, true, false, not, Option, none, some, List, ◌==◌, if◌then◌else◌,
}
use advinced_cache.Prelude.Word.{add64}
use advinced_cache.Prelude.Outcome.{Error, Outcome, ok, err, panic}
use advinced_cache.KeyValue.{Bytes, Pair}
use advinced_cache.Config.{Rule, Rules}
use advinced_cache.Entry.{
  Hasher, Entry, Response, Revalidator, Request, new_entry_fast_http, is_route_was_not_found,
}
use advinced_cache.Entry.Payload.{Packed, set_payload, get_payload}
use advinced_cache.Storage.{Storage, write, get_entry, set_entry}

-- The five counters are bit patterns of `int64`.
pub record Server : Type 0 where
  pub storage : Storage
  pub enabled : Bool
  pub fresh : ℕ
  pub total : ℕ
  pub hits : ℕ
  pub misses : ℕ
  pub proxies : ℕ
  pub errors : ℕ

pub data Answer : Type 0 where
  served : ℕ → List Pair → Bytes → ℕ → Answer
  unavailable : Error → Answer

abbrev pub Fetch : Type 0
Fetch = Option Rule → Bytes → Bytes → List Pair → Outcome Response

abbrev pub Result : Type 0
Result = Outcome (Server × Answer)

module _ (fetch : Fetch) (maker : Revalidator) (h : Hasher) (rules : Rules) (now : ℕ) where
  unfoldable pub handle_trough_proxy : Request → Bytes → Server → Result
  handle_trough_proxy r query_string s =
      let s = record s { proxies = add64 s.proxies 1 } in
      elim (fetch none r.path query_string r.header_args) [
        | ok resp ↦ ok (s, served resp.status resp.headers resp.body now)
        | err e ↦ ok (s, unavailable e)
        | panic ↦ panic
      ]

  -- A response with status 200 goes into the storage.
  unfoldable pub store_response : Entry → Request → Bytes → Response → Server → Server × Answer
  store_response e r query_string resp s =
      let f : Packed = record {
        path = r.path;
        query = query_string;
        query_headers = r.header_args;
        response_headers = resp.headers;
        body = resp.body;
        status = resp.status;
      } in
      let e = record (set_payload f e) { revalidator = some maker } in
      let db = record s.storage { entries = write s.fresh e s.storage.entries } in
      let (db, persisted) = set_entry h now s.fresh db in
      (
        record s { storage = db; fresh = s.fresh + 1 },
        served resp.status resp.headers resp.body (db.entries s.fresh).updated_at,
      )

  unfoldable pub handle_miss : Entry → Request → Bytes → Server → Result
  handle_miss e r query_string s =
      let s = record s { misses = add64 s.misses 1 } in
      elim (fetch (some e.rule) r.path query_string r.header_args) [
        | err x ↦ ok (record s { errors = add64 s.errors 1 }, unavailable x)
        | ok resp ↦
            if not (resp.status == 200)
            then ok (s, served resp.status resp.headers resp.body now)
            else ok (store_response e r query_string resp s)
        | panic ↦ panic
      ]

  unfoldable pub handle_hit : Entry → Server → Result
  handle_hit found s =
      let s = record s { hits = add64 s.hits 1 } in
      elim (get_payload found) [
        | ok f ↦ ok (s, served f.status f.response_headers f.body found.updated_at)
        | err x ↦ ok (s, unavailable x)
        | panic ↦ panic
      ]

  unfoldable pub look_up : Entry → Request → Bytes → Server → Result
  look_up e r query_string s =
      let (db, found) = get_entry e s.storage in
      let s = record s { storage = db } in
      elim found [ none ↦ handle_miss e r query_string s | some p ↦ handle_hit (db.entries p) s ]

  unfoldable pub handle_trough_cache : Request → Bytes → Server → Result
  handle_trough_cache r query_string s = elim (new_entry_fast_http h rules now r) [
    | err e ↦
        if is_route_was_not_found e
        then handle_trough_proxy r query_string s
        else ok (s, unavailable e)
    | ok e ↦ look_up e r query_string s
    | panic ↦ panic
  ]

  unfoldable pub index : Request → Bytes → Server → Result
  index r query_string s =
      let s = record s { total = add64 s.total 1 } in
      if s.enabled
      then handle_trough_cache r query_string s
      else handle_trough_proxy r query_string s
