-- ===== src/Entry/Payload.antt =====
-- `SetPayload` and `Payload` of pkg/model/entry.go: the packed form of a request and its response.
-- A length is cut to 32 bits on the way in, as the conversion `uint32(len(x))` does.
use advinced_cache.Prelude.{ℕ, zero, suc, ◌+◌, ◌^◌, ◌<◌, some, List, [], ◌∷◌, ◌++◌, length}
use advinced_cache.Prelude.Outcome.{Outcome, ok, err, ◌>>=◌, payload_is_empty}
use advinced_cache.Prelude.Word.{put_u32}
use advinced_cache.Prelude.Cursor.{take_u32, take_bytes}
use advinced_cache.KeyValue.{Bytes, Pair}
use advinced_cache.Entry.{Entry, payload_bytes}

-- The fields of a payload.
pub record Packed : Type 0 where
  pub path : Bytes
  pub query : Bytes
  pub query_headers : List Pair
  pub response_headers : List Pair
  pub body : Bytes
  pub status : ℕ

-- `append(append(buf, scratch...), b...)`, with the length of `b` in `scratch`.
unfoldable pub put_bytes : Bytes → Bytes → Bytes
put_bytes b rest = put_u32 (length b) ++ (b ++ rest)

unfoldable pub put_query_headers : List Pair → Bytes → Bytes
put_query_headers [] rest = rest
put_query_headers (kv ∷ kvs) rest =
    put_bytes kv.key (put_bytes kv.value (put_query_headers kvs rest))

-- Every response header is written with a count of one value.
unfoldable pub put_response_headers : List Pair → Bytes → Bytes
put_response_headers [] rest = rest
put_response_headers (kv ∷ kvs) rest =
    put_bytes kv.key (put_u32 1 ++ put_bytes kv.value (put_response_headers kvs rest))

unfoldable pub pack : Packed → Bytes
pack f = put_bytes f.path (
    put_bytes f.query (
      put_u32 (length f.query_headers)
      ++ put_query_headers f.query_headers (
          put_u32 f.status
          ++ (put_u32 (length f.response_headers)
              ++ put_response_headers f.response_headers (put_u32 (length f.body) ++ f.body)))))

-- The capacity that `SetPayload` computes before it writes.
unfoldable pub query_headers_size : List Pair → ℕ
query_headers_size [] = 0
query_headers_size (kv ∷ kvs) = 4 + length kv.key + 4 + length kv.value + query_headers_size kvs

unfoldable pub response_headers_size : List Pair → ℕ
response_headers_size [] = 0
response_headers_size (kv ∷ kvs) =
    4 + length kv.key + 4 + 4 + length kv.value + response_headers_size kvs

unfoldable pub packed_size : Packed → ℕ
unfolding query_headers_size response_headers_size
packed_size f =
    (4 + length f.path)
    + (4 + length f.query)
    + 4
    + query_headers_size f.query_headers
    + 4
    + 4
    + response_headers_size f.response_headers
    + (4 + length f.body)

unfoldable pub set_payload : Packed → Entry → Entry
set_payload f e = record e { payload = some (pack f); is_compressed = 0 }

-- `n` bytes behind a length.
unfoldable pub take_sized : Bytes → Outcome (Bytes × Bytes)
take_sized buf = do (n, buf) ← take_u32 buf; take_bytes n buf

-- The loop over the query headers, `n` of them left.
unfoldable pub take_query_headers : ℕ → Bytes → List Pair → Outcome (List Pair × Bytes)
take_query_headers zero buf out = ok (out, buf)
take_query_headers (suc n) buf out = do
  (k, buf) ← take_sized buf
  (v, buf) ← take_sized buf
  take_query_headers n buf (out ++ record { key = k; value = v } ∷ [])

-- The values of one response header.
unfoldable pub take_values : Bytes → ℕ → Bytes → List Pair → Outcome (List Pair × Bytes)
take_values k zero buf out = ok (out, buf)
take_values k (suc n) buf out = do
  (v, buf) ← take_sized buf
  take_values k n buf (out ++ record { key = k; value = v } ∷ [])

unfoldable pub take_response_headers : ℕ → Bytes → List Pair → Outcome (List Pair × Bytes)
take_response_headers zero buf out = ok (out, buf)
take_response_headers (suc n) buf out = do
  (k, buf) ← take_sized buf
  (num_vals, buf) ← take_u32 buf
  (out, buf) ← take_values k num_vals buf out
  take_response_headers n buf out

unfoldable pub unpack : Bytes → Outcome Packed
unpack payload = do
  (path, buf) ← take_sized payload
  (query, buf) ← take_sized buf
  (num_query_headers, buf) ← take_u32 buf
  (query_headers, buf) ← take_query_headers num_query_headers buf []
  (status, buf) ← take_u32 buf
  (num_headers, buf) ← take_u32 buf
  (response_headers, buf) ← take_response_headers num_headers buf []
  (_, body) ← take_bytes 4 buf
  ok (record {
    path = path;
    query = query;
    query_headers = query_headers;
    response_headers = response_headers;
    body = body;
    status = status;
  })

unfoldable pub get_payload : Entry → Outcome Packed
get_payload e = elim (payload_bytes e) [ [] ↦ err payload_is_empty | x ∷ buf ↦ unpack (x ∷ buf) ]

-- Every length, count and the status fit into 32 bits.
abbrev pub IsSmall : Bytes → Type 0
IsSmall b = length b < 2 ^ 32

abbrev pub AreSmall : List Pair → Type 0
AreSmall [] = Unit
AreSmall (kv ∷ kvs) = IsSmall kv.key × IsSmall kv.value × AreSmall kvs

pub record Fits (f : Packed) : Type 0 where
  pub path : IsSmall f.path
  pub query : IsSmall f.query
  pub query_headers : AreSmall f.query_headers
  pub num_query_headers : length f.query_headers < 2 ^ 32
  pub response_headers : AreSmall f.response_headers
  pub num_response_headers : length f.response_headers < 2 ^ 32
  pub status : f.status < 2 ^ 32
