-- ===== src/Upstream.antt =====
-- pkg/upstream/backend.go: the request that the gateway makes of an entry, and what it takes of the
-- answer. The HTTP client and the rate limiter are libraries: `client` answers a request within a
-- timeout, or fails, and `granted` tells whether the limiter let the call through. Writing to the
-- buffer of the URL does not fail. Buffers and pools are not modelled.
pub mod Laws
use advinced_cache.Prelude.{
  ℕ, Bool, true, false, Option, none, some, List, [], ◌∷◌, ◌++◌, keep, bytes_eq, if◌then◌else◌,
}
use advinced_cache.Prelude.Outcome.{Outcome, ok, err, upstream_failed}
use advinced_cache.KeyValue.{Bytes, Pair}
use advinced_cache.Config.{Rule, has_key}
use advinced_cache.Entry.{Response, Revalidator}

-- What the gateway reads of the configuration; durations in nanoseconds.
pub record Backend : Type 0 where
  pub from_url : Bytes
  pub timeout : ℕ
  pub max_req_duration : ℕ
  pub escape_header : Bytes

-- The request: its URI and the calls of `SetBytesKV`, in order.
pub record Outgoing : Type 0 where
  pub uri : Bytes
  pub set_headers : List Pair

-- The answer: the visited headers, and none for a body that cannot be read.
pub record Incoming : Type 0 where
  pub status : ℕ
  pub headers : List Pair
  pub body : Option Bytes

abbrev pub Client : Type 0
Client = Outgoing → ℕ → Option Incoming

-- The four writes to the URL buffer.
unfoldable pub external_url : Backend → Bytes → Bytes → Bytes
external_url b path query = b.from_url ++ (path ++ ((b'?' ∷ []) ++ query))

-- The loop over the headers, with the flag `isBot`.
unfoldable pub visit_headers : Backend → List Pair → Outgoing × Bool → Outgoing × Bool
visit_headers b [] r = r
visit_headers b (kv ∷ kvs) (req, is_bot) =
    let req = record req { set_headers = req.set_headers ++ kv ∷ [] } in
    visit_headers b kvs (req, if bytes_eq kv.key b.escape_header then true else is_bot)

-- The request and its timeout.
unfoldable pub build_request : Backend → Bytes → Bytes → List Pair → Outgoing × ℕ
unfolding external_url visit_headers
build_request b path query query_headers =
    let start : Outgoing = record { uri = external_url b path query; set_headers = [] } in
    let (req, is_bot) = visit_headers b query_headers (start, false) in
    (req, if is_bot then b.timeout else b.max_req_duration)

-- The visit of the answer's headers.
unfoldable pub admitted_headers : Option Rule → List Pair → List Pair
admitted_headers none hs = hs
admitted_headers (some rule) hs = keep (λ kv. has_key kv.key rule.cache_value.headers_map) hs

-- The answer as the gateway passes it on.
unfoldable pub read_answer : Option Rule → Incoming → Outcome Response
read_answer rule resp = elim resp.body [
  | none ↦ err upstream_failed
  | some body ↦
      ok
        (record { status = resp.status; headers = admitted_headers rule resp.headers; body = body })
]

unfoldable pub request_external_backend :
    Client → Backend → Option Rule → Bytes → Bytes → List Pair → Outcome Response
unfolding build_request read_answer
request_external_backend client b rule path query query_headers =
    let (req, timeout) = build_request b path query query_headers in
    elim (client req timeout) [ none ↦ err upstream_failed | some resp ↦ read_answer rule resp ]

unfoldable pub fetch :
    Client → Bool → Backend → Option Rule → Bytes → Bytes → List Pair → Outcome Response
fetch client granted b rule path query query_headers =
    let answer = request_external_backend client b rule path query query_headers in
    if granted then answer else err upstream_failed

-- `RevalidatorMaker`: refreshes do not wait for the limiter.
unfoldable pub revalidator_maker : Client → Backend → Revalidator
revalidator_maker client b rule = request_external_backend client b (some rule)
