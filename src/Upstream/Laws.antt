-- ===== src/Upstream/Laws.antt =====
-- What the gateway of pkg/upstream/backend.go asks for and passes on.
use mathlib.Core.Path.{subst, subst⁻¹}
use advinced_cache.Prelude.{
  ℕ, ◌≡◌, refl, ap, sym, ◌∙◌, Bool, true, false, ◌||◌, Option, none, some, List, [], ◌∷◌, ◌++◌,
  append-nil, append_assoc, keep, any, bytes_eq, if◌then◌else◌, Bool-cases, Option-cases, inl, inr,
  arith,
}
use advinced_cache.Prelude.Outcome.{Outcome, ok, err, upstream_failed, ok_injective, err_not_ok}
use advinced_cache.KeyValue.{Bytes, Pair}
use advinced_cache.Config.{Rule, has_key}
use advinced_cache.Entry.{Response}
use advinced_cache.Upstream.{
  Backend, Outgoing, Incoming, Client, external_url, visit_headers, build_request, admitted_headers,
  read_answer, request_external_backend, fetch,
}

either :
    (a k b : Bool) → (if a then true else (if k then true else b)) ≡ (if k || a then true else b)
either true true b = refl
either true false b = refl
either false true b = refl
either false false b = refl

visit_headers_lem :
    (b : Backend) (hs : List Pair) (req : Outgoing) (is_bot : Bool)
    → visit_headers b hs (req, is_bot) ≡ (
      record req { set_headers = req.set_headers ++ hs },
      if any (λ kv. bytes_eq kv.key b.escape_header) hs then true else is_bot,
    )
unfolding visit_headers
visit_headers_lem b [] req is_bot =
    ap (λ l. (record { uri = req.uri; set_headers = l }, is_bot)) (sym (append-nil req.set_headers))
visit_headers_lem b (kv ∷ hs) req is_bot =
    let k = bytes_eq kv.key b.escape_header in
    let others = any (λ kv. bytes_eq kv.key b.escape_header) hs in
    visit_headers_lem b hs (record req { set_headers = req.set_headers ++ kv ∷ [] })
      (if k then true else is_bot)
    ∙ ap
        (λ l. (
          record { uri = req.uri; set_headers = l },
          if others then true else (if k then true else is_bot),
        ))
        (append_assoc req.set_headers (kv ∷ []) hs)
    ∙ ap (λ flag. (record { uri = req.uri; set_headers = req.set_headers ++ kv ∷ hs }, flag))
        (either others k is_bot)

-- The request that is made of a path, a query and headers: those headers as they stand, and the long
-- timeout exactly if one of them is the escape header.
abbrev pub asked : Backend → Bytes → Bytes → List Pair → Outgoing
asked b path query hs = record { uri = b.from_url ++ (path ++ (b'?' ∷ query)); set_headers = hs }

abbrev pub patience : Backend → List Pair → ℕ
patience b hs =
    if any (λ kv. bytes_eq kv.key b.escape_header) hs then b.timeout else b.max_req_duration

flag_kept :
    (b : Backend) (a : Bool)
    → (if (if a then true else false) then b.timeout else b.max_req_duration)
      ≡ (if a then b.timeout else b.max_req_duration)
flag_kept b true = refl
flag_kept b false = refl

build_request_lem :
    (b : Backend) (path query : Bytes) (hs : List Pair)
    → build_request b path query hs ≡ (asked b path query hs, patience b hs)
unfolding build_request external_url
build_request_lem b path query hs =
    let start : Outgoing = record { uri = external_url b path query; set_headers = [] } in
    ap (λ r. (r.0, if r.1 then b.timeout else b.max_req_duration))
      (visit_headers_lem b hs start false)
    ∙ ap (λ t. (asked b path query hs, t))
        (flag_kept b (any (λ kv. bytes_eq kv.key b.escape_header) hs))

-- The rule admits a header of this name; without a rule every one is admitted.
abbrev pub Admits : Option Rule → Bytes → Type 0
Admits none name = Unit
Admits (some rule) name = has_key name rule.cache_value.headers_map ≡ true

-- The second list has those of the first that the rule admits, in their order, and no others.
pub data Selection (rule : Option Rule) : List Pair → List Pair → Type 0 where
  nothing : Selection rule [] []
  taken :
      {kv : Pair} {hs ks : List Pair}
      → Admits rule kv.key
      → Selection rule hs ks
      → Selection rule (kv ∷ hs) (kv ∷ ks)
  passed :
      {kv : Pair} {hs ks : List Pair}
      → ¬ Admits rule kv.key
      → Selection rule hs ks
      → Selection rule (kv ∷ hs) ks

kept_first :
    (p : Pair → Bool) (kv : Pair) (hs : List Pair) → p kv ≡ true → keep p (kv ∷ hs) ≡ kv ∷ keep p hs
kept_first p kv hs e = rw (e, keep) refl

kept_rest :
    (p : Pair → Bool) (kv : Pair) (hs : List Pair) → p kv ≡ false → keep p (kv ∷ hs) ≡ keep p hs
kept_rest p kv hs e = rw (e, keep) refl

admitted_headers-Selection :
    (rule : Option Rule) (hs : List Pair) → Selection rule hs (admitted_headers rule hs)
unfolding admitted_headers
admitted_headers-Selection none [] = nothing
admitted_headers-Selection none (kv ∷ hs) = taken tt (admitted_headers-Selection none hs)
admitted_headers-Selection (some rule) [] = nothing
admitted_headers-Selection (some rule) (kv ∷ hs) =
    let p = λ (kv : Pair). has_key kv.key rule.cache_value.headers_map in
    let rest = admitted_headers-Selection (some rule) hs in
    elim (Bool-cases (p kv)) [
      | inl e ↦ subst⁻¹ (Selection (some rule) (kv ∷ hs)) (kept_first p kv hs e) (taken e rest)
      | inr e ↦
          subst⁻¹ (Selection (some rule) (kv ∷ hs)) (kept_rest p kv hs e)
            (passed (λ h. (let no : true ≡ false = sym h ∙ e in ground arith)) rest)
    ]

-- What a fetch that ends well went through.
pub record Fetched (client : Client) (b : Backend) (rule : Option Rule) (path query : Bytes)
    (hs : List Pair) (resp : Response) : Type 0 where
  pub incoming : Incoming
  pub answered : client (asked b path query hs) (patience b hs) ≡ some incoming
  pub status : resp.status ≡ incoming.status
  pub body : some resp.body ≡ incoming.body
  pub headers : Selection rule incoming.headers resp.headers

module _ (client : Client) (b : Backend) (rule : Option Rule) (path query : Bytes)
    (hs : List Pair) where
  -- The answer to the request as it is described above.
  abbrev answer : Option Incoming → Outcome Response
  answer r = elim r [ none ↦ err upstream_failed | some resp ↦ read_answer rule resp ]

  request_lem :
      request_external_backend client b rule path query hs
      ≡ answer (client (asked b path query hs) (patience b hs))
  unfolding request_external_backend
  request_lem = ap (λ r. answer (client r.0 r.1)) (build_request_lem b path query hs)

  no_body : (i : Incoming) → i.body ≡ none → read_answer rule i ≡ err upstream_failed
  unfolding read_answer
  no_body i e = rw (e, read_answer) refl

  -- The answer with a body.
  abbrev passed_on : Incoming → Bytes → Response
  passed_on i body = record {
    status = i.status;
    headers = admitted_headers rule i.headers;
    body = body;
  }

  with_body :
      (i : Incoming) (body : Bytes)
      → i.body ≡ some body
      → read_answer rule i ≡ ok (passed_on i body)
  unfolding read_answer
  with_body i body e = rw (e, read_answer) refl

  request-Fetched :
      (resp : Response)
      → request_external_backend client b rule path query hs ≡ ok resp
      → Fetched client b rule path query hs resp
  request-Fetched resp h =
      let h' = sym request_lem ∙ h in
      elim (Option-cases (client (asked b path query hs) (patience b hs))) [
        | inl e ↦ absurd (err_not_ok upstream_failed resp (sym (ap answer e) ∙ h'))
        | inr (i, e) ↦
            let read = sym (ap answer e) ∙ h' in
            elim (Option-cases i.body) [
              | inl q ↦ absurd (err_not_ok upstream_failed resp (sym (no_body i q) ∙ read))
              | inr (body, q) ↦
                  let same =
                    ok_injective (passed_on i body) resp (sym (with_body i body q) ∙ read) in
                  subst (Fetched client b rule path query hs) same (record {
                    incoming = i;
                    answered = e;
                    status = refl;
                    body = sym q;
                    headers = admitted_headers-Selection rule i.headers;
                  })
            ]
      ]

  granted_only :
      (granted : Bool) (resp : Response)
      → fetch client granted b rule path query hs ≡ ok resp
      → (granted ≡ true) × (request_external_backend client b rule path query hs ≡ ok resp)
  unfolding fetch
  granted_only true resp h = (refl, h)
  granted_only false resp h = absurd (err_not_ok upstream_failed resp h)

  -- A fetch that ends well was let through by the limiter; it asked the configured backend for the
  -- path and the query with the headers given, within the long timeout exactly if the escape header
  -- is among them; and it passes on the status and the body of the answer, with those of its headers
  -- that the rule admits, in their order, and no others.
  pub fetch-Fetched :
      (granted : Bool) (resp : Response)
      → fetch client granted b rule path query hs ≡ ok resp
      → (granted ≡ true) × Fetched client b rule path query hs resp
  fetch-Fetched granted resp h =
      let (let_through, asked) = granted_only granted resp h in
      (let_through, request-Fetched resp asked)
