-- ===== src/Entry/PayloadLaws.antt =====
-- The round trip of a payload of pkg/model/entry.go, and the memory that it takes.
use advinced_cache.Prelude.{
  ℕ, ◌+◌, ◌≡◌, refl, ap, List, [], ◌∷◌, ◌++◌, length, arith, append_assoc, length-append,
  append-nil,
}
use advinced_cache.Prelude.Outcome.{ok}
use advinced_cache.Prelude.Word.{put_u32}
use advinced_cache.Prelude.Cursor.{take_u32-put_u32, take_bytes-append}
use advinced_cache.KeyValue.{Bytes, Pair}
use advinced_cache.Entry.{Entry, weight, entry_size}
use advinced_cache.Entry.Payload.{
  Packed, put_bytes, put_query_headers, put_response_headers, pack, query_headers_size,
  response_headers_size, packed_size, set_payload, take_sized, take_query_headers, take_values,
  take_response_headers, unpack, get_payload, IsSmall, AreSmall, Fits,
}

take_sized-put_bytes : (b rest : Bytes) → IsSmall b → take_sized (put_bytes b rest) ≡ ok (b, rest)
unfolding take_sized put_bytes
take_sized-put_bytes b rest h =
    rw (take_u32-put_u32 (length b) (b ++ rest) h) (take_bytes-append b rest)

take_query_headers-put :
    (kvs out : List Pair) (rest : Bytes)
    → AreSmall kvs
    → take_query_headers (length kvs) (put_query_headers kvs rest) out ≡ ok (out ++ kvs, rest)
unfolding put_query_headers take_query_headers
take_query_headers-put [] out rest h = rw append-nil
take_query_headers-put (kv ∷ kvs) out rest h = rw (take_sized-put_bytes kv.key _ h.0) (
    rw (take_sized-put_bytes kv.value _ h.1) (
      rw (take_query_headers-put kvs (out ++ kv ∷ []) rest h.2)
        (rw (append_assoc out (kv ∷ []) kvs))))

take_values_one :
    (k v rest : Bytes) (out : List Pair)
    → IsSmall v
    → take_values k 1 (put_bytes v rest) out ≡ ok (out ++ record { key = k; value = v } ∷ [], rest)
unfolding take_values
take_values_one k v rest out h = rw (take_sized-put_bytes v rest h)

take_response_headers-put :
    (kvs out : List Pair) (rest : Bytes)
    → AreSmall kvs
    → take_response_headers (length kvs) (put_response_headers kvs rest) out ≡ ok (out ++ kvs, rest)
unfolding put_response_headers take_response_headers
take_response_headers-put [] out rest h = rw append-nil
take_response_headers-put (kv ∷ kvs) out rest h =
    let next = put_bytes kv.value (put_response_headers kvs rest) in
    rw (take_sized-put_bytes kv.key _ h.0) (
      rw (take_u32-put_u32 1 next (omega arith)) (
        rw (take_values_one kv.key kv.value (put_response_headers kvs rest) out h.1) (
          rw (take_response_headers-put kvs (out ++ kv ∷ []) rest h.2)
            (rw (append_assoc out (kv ∷ []) kvs)))))

unpack-pack : (f : Packed) → Fits f → unpack (pack f) ≡ ok f
unfolding unpack pack
unpack-pack f h = rw (take_sized-put_bytes f.path _ h.path) (
    rw (take_sized-put_bytes f.query _ h.query) (
      rw (take_u32-put_u32 (length f.query_headers) _ h.num_query_headers) (
        rw (take_query_headers-put f.query_headers [] _ h.query_headers) (
          rw (take_u32-put_u32 f.status _ h.status) (
            rw (take_u32-put_u32 (length f.response_headers) _ h.num_response_headers) (
              rw (take_response_headers-put f.response_headers [] _ h.response_headers)
                (rw (take_bytes-append (put_u32 (length f.body)) f.body))))))))

pack_nonempty : (f : Packed) → (x : ℕ) × (buf : Bytes) × (pack f ≡ x ∷ buf)
unfolding pack put_bytes
pack_nonempty f = (_, _, refl)

-- What `SetPayload` stores, `Payload` reads back, field by field and in order, if every length,
-- every count and the status fit into 32 bits.
pub get_payload-set_payload :
    (f : Packed) (e : Entry) → Fits f → get_payload (set_payload f e) ≡ ok f
unfolding get_payload set_payload
get_payload-set_payload f e h =
    let (x, buf, q) = pack_nonempty f in
    let u : unpack (x ∷ buf) ≡ ok f = rw (← q) (unpack-pack f h) in rw (q, get_payload) u

length-put_bytes : (b rest : Bytes) → length (put_bytes b rest) ≡ 4 + length b + length rest
unfolding put_bytes
length-put_bytes b rest = omega (arith, length-append b rest)

length-put_query_headers :
    (kvs : List Pair) (rest : Bytes)
    → length (put_query_headers kvs rest) ≡ query_headers_size kvs + length rest
unfolding put_query_headers query_headers_size
length-put_query_headers [] rest = omega arith
length-put_query_headers (kv ∷ kvs) rest = omega (
  arith,
  length-put_bytes kv.key (put_bytes kv.value (put_query_headers kvs rest)),
  length-put_bytes kv.value (put_query_headers kvs rest),
  length-put_query_headers kvs rest,
)

length-put_response_headers :
    (kvs : List Pair) (rest : Bytes)
    → length (put_response_headers kvs rest) ≡ response_headers_size kvs + length rest
unfolding put_response_headers response_headers_size
length-put_response_headers [] rest = omega arith
length-put_response_headers (kv ∷ kvs) rest = omega (
  arith,
  length-put_bytes kv.key (put_u32 1 ++ put_bytes kv.value (put_response_headers kvs rest)),
  length-put_bytes kv.value (put_response_headers kvs rest),
  length-put_response_headers kvs rest,
)

length-pack : (f : Packed) → length (pack f) ≡ packed_size f
unfolding pack packed_size
length-pack f =
    let last = put_u32 (length f.body) ++ f.body in
    let tail =
      put_u32 (length f.response_headers) ++ put_response_headers f.response_headers last in
    let middle = put_u32 f.status ++ tail in
    let heads = put_u32 (length f.query_headers) ++ put_query_headers f.query_headers middle in
    omega (
      arith,
      length-put_bytes f.path (put_bytes f.query heads),
      length-put_bytes f.query heads,
      length-put_query_headers f.query_headers middle,
      length-put_response_headers f.response_headers last,
    )

-- The buffer that `SetPayload` allocates is exactly filled: `append` never grows it, and the weight
-- of the entry is the size computed in advance and the size of the entry itself.
pub weight-set_payload :
    (f : Packed) (e : Entry)
    → (length (pack f) ≡ packed_size f) × (weight (set_payload f e) ≡ entry_size + packed_size f)
unfolding weight set_payload
weight-set_payload f e = (length-pack f, ap (λ n. entry_size + n) (length-pack f))
