-- ===== src/Handler/Laws.antt =====
-- What the handler of internal/cache/api/cache.go does with hits, misses and the upstream's answers.
use advinced_cache.Prelude.{
  ℕ, ◌+◌, ◌%◌, ◌≡◌, refl, ap, ◌∙◌, Bool, true, false, none, some, ◌==◌, if◌then◌else◌, arith,
  Bool-cases, Option-cases, inl, inr,
}
use advinced_cache.Prelude.Word.{u64_mod, add64}
use advinced_cache.Prelude.Outcome.{ok, err, panic, Outcome-cases}
use advinced_cache.KeyValue.{Bytes}
use advinced_cache.Config.{Rule, Rules, match_rule}
use advinced_cache.Entry.{
  Hasher, Entry, is_same_fingerprint, Response, Revalidator, Request, entry_of_request,
  new_entry_fast_http, is_route_was_not_found,
}
use advinced_cache.Entry.Payload.{Packed, get_payload}
use advinced_cache.Sharded.{get}
use advinced_cache.Storage.{Storage, get_entry}
use advinced_cache.Storage.Updates.{entries-touch}
use advinced_cache.Handler.{
  Server, served, Fetch, Result, handle_trough_proxy, store_response, handle_miss, handle_hit,
  look_up, handle_trough_cache, index,
}

pick_then : {A : Type 0} (b : Bool) (x y : A) → b ≡ true → (if b then x else y) ≡ x
pick_then b x y e = rw e refl

-- Every request so far was a hit, a miss or passed on, as far as 64 bits tell.
abbrev pub IsBalanced : Server → Type 0
IsBalanced s = s.total ≡ (s.hits + s.misses + s.proxies) % u64_mod

-- One request more was counted.
abbrev IsAhead : Server → Type 0
IsAhead s = s.total ≡ (s.hits + s.misses + s.proxies + 1) % u64_mod

abbrev pub Balanced : Result → Type 0
Balanced (ok (s, answer)) = IsBalanced s
Balanced (err e) = Unit
Balanced panic = Unit

module _ (fetch : Fetch) (maker : Revalidator) (h : Hasher) (rules : Rules) (now : ℕ) where
  through_cache :
      (r : Request) (q : Bytes) (s : Server) (e : Entry)
      → new_entry_fast_http h rules now r ≡ ok e
      → handle_trough_cache fetch maker h rules now r q s ≡ look_up fetch maker h rules now e r q s
  unfolding handle_trough_cache
  through_cache r q s e made = rw (made, handle_trough_cache) refl

  cached :
      (r : Request) (q : Bytes) (s : Server) (e : Entry)
      → s.enabled ≡ true
      → new_entry_fast_http h rules now r ≡ ok e
      → index fetch maker h rules now r q s
        ≡ look_up fetch maker h rules now e r q (record s { total = add64 s.total 1 })
  unfolding index
  cached r q s e on made =
      pick_then s.enabled _ _ on ∙ through_cache r q (record s { total = add64 s.total 1 }) e made

  hit :
      (r : Request) (q : Bytes) (s : Server) (e : Entry) (p : ℕ)
      → (get_entry e s.storage).1 ≡ some p
      → look_up fetch maker h rules now e r q s
        ≡ handle_hit fetch maker h rules now
            ((get_entry e s.storage).0.entries p)
            (record s { storage = (get_entry e s.storage).0 })
  unfolding look_up
  hit r q s e p found = rw (found, look_up) refl

  missed :
      (r : Request) (q : Bytes) (s : Server) (e : Entry)
      → (get_entry e s.storage).1 ≡ none
      → look_up fetch maker h rules now e r q s
        ≡ handle_miss fetch maker h rules now e r q
            (record s { storage = (get_entry e s.storage).0 })
  unfolding look_up
  missed r q s e found = rw (found, look_up) refl

  entries-get_entry :
      (e : Entry) (s : Storage) (p : ℕ)
      → (get_entry e s).1 ≡ some p
      → (get_entry e s).0.entries ≡ s.entries
  unfolding get_entry
  entries-get_entry e s p found = elim (Option-cases (get s.sharded_map e.key)) [
    | inl none_there ↦ rw (none_there, get_entry) refl
    | inr (old, there) ↦ elim (Bool-cases (is_same_fingerprint (s.entries old) e.fingerprint)) [
      | inl same ↦ rw (there, same, get_entry) (entries-touch old s)
      | inr other ↦ rw (there, other, get_entry) refl
    ]
  ]

  readable_hit :
      (found : Entry) (f : Packed) (s : Server)
      → get_payload found ≡ ok f
      → handle_hit fetch maker h rules now found s
        ≡ ok (
          record s { hits = add64 s.hits 1 },
          served f.status f.response_headers f.body found.updated_at,
        )
  unfolding handle_hit
  readable_hit found f s read = rw (read, handle_hit) refl

  -- A request whose entry the enabled cache holds, with a payload that can be read, is answered with
  -- the status, the headers and the body of that payload and with the time of the entry; the storage
  -- is what `Get` left, and the total and the hits count one more. Whatever the upstream would
  -- answer makes no difference.
  pub index_hit :
      (r : Request) (q : Bytes) (s : Server) (e : Entry) (p : ℕ) (f : Packed)
      → s.enabled ≡ true
      → new_entry_fast_http h rules now r ≡ ok e
      → (get_entry e s.storage).1 ≡ some p
      → get_payload (s.storage.entries p) ≡ ok f
      → index fetch maker h rules now r q s
        ≡ ok (
          record s {
            storage = (get_entry e s.storage).0;
            total = add64 s.total 1;
            hits = add64 s.hits 1;
          },
          served f.status f.response_headers f.body (s.storage.entries p).updated_at,
        )
  index_hit r q s e p f on made found read =
      let s1 = record s { total = add64 s.total 1 } in
      let s2 = record s1 { storage = (get_entry e s.storage).0 } in
      let kept = entries-get_entry e s.storage p found in
      cached r q s e on made
      ∙ hit r q s1 e p found
      ∙ ap (λ entries. handle_hit fetch maker h rules now (entries p) s2) kept
      ∙ readable_hit (s.storage.entries p) f s2 read

  rejected :
      (r : Request) (q : Bytes) (s : Server) (e : Entry) (resp : Response)
      → fetch (some e.rule) r.path q r.header_args ≡ ok resp
      → (resp.status == 200) ≡ false
      → handle_miss fetch maker h rules now e r q s
        ≡ ok (record s { misses = add64 s.misses 1 }, served resp.status resp.headers resp.body now)
  unfolding handle_miss
  rejected r q s e resp got bad = rw (got, bad, handle_miss) refl

  -- On a miss at the enabled cache, an upstream answer whose status is not 200 is passed on as it is
  -- and not stored: the storage is what `Get` left, and only the counters change.
  pub index_bad_status :
      (r : Request) (q : Bytes) (s : Server) (e : Entry) (resp : Response)
      → s.enabled ≡ true
      → new_entry_fast_http h rules now r ≡ ok e
      → (get_entry e s.storage).1 ≡ none
      → fetch (some e.rule) r.path q r.header_args ≡ ok resp
      → (resp.status == 200) ≡ false
      → index fetch maker h rules now r q s
        ≡ ok (
          record s {
            storage = (get_entry e s.storage).0;
            total = add64 s.total 1;
            misses = add64 s.misses 1;
          },
          served resp.status resp.headers resp.body now,
        )
  index_bad_status r q s e resp on made found got bad =
      cached r q s e on made
      ∙ missed r q (record s { total = add64 s.total 1 }) e found
      ∙ rejected r q (record s { storage = (get_entry e s.storage).0; total = add64 s.total 1 }) e
          resp got bad

  proxy-Balanced :
      (r : Request) (q : Bytes) (s : Server)
      → IsAhead s
      → Balanced (handle_trough_proxy fetch maker h rules now r q s)
  unfolding handle_trough_proxy
  proxy-Balanced r q s b = elim (Outcome-cases (fetch none r.path q r.header_args)) [
    | inl (resp, e) ↦ rw (e, handle_trough_proxy) (omega arith)
    | inr (inl (x, e)) ↦ rw (e, handle_trough_proxy) (omega arith)
    | inr (inr e) ↦ rw (e, handle_trough_proxy) tt
  ]

  hit-Balanced :
      (found : Entry) (s : Server)
      → IsAhead s
      → Balanced (handle_hit fetch maker h rules now found s)
  unfolding handle_hit
  hit-Balanced found s b = elim (Outcome-cases (get_payload found)) [
    | inl (f, e) ↦ rw (e, handle_hit) (omega arith)
    | inr (inl (x, e)) ↦ rw (e, handle_hit) (omega arith)
    | inr (inr e) ↦ rw (e, handle_hit) tt
  ]

  miss-Balanced :
      (e : Entry) (r : Request) (q : Bytes) (s : Server)
      → IsAhead s
      → Balanced (handle_miss fetch maker h rules now e r q s)
  unfolding handle_miss store_response
  miss-Balanced e r q s b = elim (Outcome-cases (fetch (some e.rule) r.path q r.header_args)) [
    | inl (resp, g) ↦ elim (Bool-cases (resp.status == 200)) [
      | inl t ↦ rw (g, t, handle_miss) (omega arith)
      | inr f ↦ rw (g, f, handle_miss) (omega arith)
    ]
    | inr (inl (x, g)) ↦ rw (g, handle_miss) (omega arith)
    | inr (inr g) ↦ rw (g, handle_miss) tt
  ]

  look_up-Balanced :
      (e : Entry) (r : Request) (q : Bytes) (s : Server)
      → IsAhead s
      → Balanced (look_up fetch maker h rules now e r q s)
  look_up-Balanced e r q s b = elim (Option-cases (get_entry e s.storage).1) [
    | inl none_found ↦
        rw (missed r q s e none_found)
          (miss-Balanced e r q (record s { storage = (get_entry e s.storage).0 }) b)
    | inr (p, found) ↦ rw (hit r q s e p found) (
        hit-Balanced ((get_entry e s.storage).0.entries p)
          (record s { storage = (get_entry e s.storage).0 }) b)
  ]

  made_entry :
      (r : Request) (rule : Rule)
      → match_rule rules r.path ≡ some rule
      → new_entry_fast_http h rules now r ≡ ok (entry_of_request h rule now r)
  unfolding new_entry_fast_http
  made_entry r rule e = rw (e, new_entry_fast_http) refl

  unknown_route :
      (r : Request) (q : Bytes) (s : Server)
      → match_rule rules r.path ≡ none
      → handle_trough_cache fetch maker h rules now r q s
        ≡ handle_trough_proxy fetch maker h rules now r q s
  unfolding handle_trough_cache new_entry_fast_http is_route_was_not_found
  unknown_route r q s e = rw (e, handle_trough_cache, new_entry_fast_http) refl

  cache-Balanced :
      (r : Request) (q : Bytes) (s : Server)
      → IsAhead s
      → Balanced (handle_trough_cache fetch maker h rules now r q s)
  cache-Balanced r q s b = elim (Option-cases (match_rule rules r.path)) [
    | inl e ↦ rw (unknown_route r q s e) (proxy-Balanced r q s b)
    | inr (rule, e) ↦
        rw (through_cache r q s (entry_of_request h rule now r) (made_entry r rule e))
          (look_up-Balanced (entry_of_request h rule now r) r q s b)
  ]

  pick_either : (P : Result → Type 0) (b : Bool) (x y : Result) → P x → P y → P (if b then x else y)
  pick_either P true x y u v = u
  pick_either P false x y u v = v

  -- Every request that is answered counts once in the total and once as a hit, a miss or a passed-on
  -- request, whatever the upstream does and whether the cache is on: where these 64-bit numbers add up
  -- before, they add up after.
  pub index-Balanced :
      (r : Request) (q : Bytes) (s : Server)
      → IsBalanced s
      → Balanced (index fetch maker h rules now r q s)
  unfolding index
  index-Balanced r q s b =
      pick_either Balanced s.enabled _ _
        (cache-Balanced r q (record s { total = add64 s.total 1 }) (omega arith))
        (proxy-Balanced r q (record s { total = add64 s.total 1 }) (omega arith))
