-- ===== src/Entry/RefreshLaws.antt =====
-- When an entry of pkg/model/entry.go is refreshed, and what a refresh leaves.
use advinced_cache.Prelude.{
  ℕ, ◌+◌, ◌-◌, ◌/◌, ◌<◌, ◌≤◌, ◌^◌, ◌≡◌, refl, ap, sym, ◌∙◌, true, false, not, none, some, ◌==◌,
  if◌then◌else◌, Bool-cases, Option-cases, inl, inr, arith,
}
use advinced_cache.Prelude.Outcome.{
  Outcome, ok, err, ◌>>=◌, invalid_upstream_status_code, ok_injective, err_not_ok, bind_ok,
}
use advinced_cache.Prelude.Word.{sub64, le_i64}
use advinced_cache.Entry.{Entry, Response, touch_updated_at}
use advinced_cache.Entry.Payload.{Packed, Fits, set_payload, get_payload}
use advinced_cache.Entry.PayloadLaws.{get_payload-set_payload}
use advinced_cache.Entry.Refresh.{
  Floats, Refreshing, settings, is_fresh, refresh_probability, should_be_refreshed,
  call_revalidator, refetched, revalidate,
}

-- `minStale`.
abbrev pub min_stale : Floats → Refreshing → ℕ
min_stale f s = f.to_int (f.times (f.of_int s.ttl) s.coefficient)

module _ (f : Floats) (cfg : Refreshing) (now random : ℕ) where
  off_stays :
      (e : Entry) → settings f cfg e.rule ≡ none → should_be_refreshed f cfg now random e ≡ false
  unfolding should_be_refreshed
  off_stays e h = rw (h, should_be_refreshed) refl

  fresh_stays :
      (e : Entry) (s : Refreshing)
      → settings f cfg e.rule ≡ some s
      → is_fresh f s (sub64 now e.updated_at) ≡ true
      → should_be_refreshed f cfg now random e ≡ false
  unfolding should_be_refreshed
  fresh_stays e s h g = rw (h, g, should_be_refreshed) refl

  stale_draws :
      (e : Entry) (s : Refreshing)
      → settings f cfg e.rule ≡ some s
      → is_fresh f s (sub64 now e.updated_at) ≡ false
      → should_be_refreshed f cfg now random e
        ≡ f.less random (refresh_probability f s (sub64 now e.updated_at))
  unfolding should_be_refreshed
  stale_draws e s h g = rw (h, g, should_be_refreshed) refl

  -- An entry that is chosen for a refresh is not switched off by its rule, it is at least as old as
  -- the time to live times the coefficient that hold for it, and the draw was below the probability
  -- at its age.
  pub should_be_refreshed_stale :
      (e : Entry)
      → should_be_refreshed f cfg now random e ≡ true
      → (s : Refreshing) × (settings f cfg e.rule ≡ some s)
        × (le_i64 (min_stale f s) (sub64 now e.updated_at) ≡ true)
        × (f.less random (refresh_probability f s (sub64 now e.updated_at)) ≡ true)
  unfolding is_fresh
  should_be_refreshed_stale e h = elim (Option-cases (settings f cfg e.rule)) [
    | inl off ↦ let no : false ≡ true = sym (off_stays e off) ∙ h in absurd (ground arith)
    | inr (s, set) ↦ elim (Bool-cases (is_fresh f s (sub64 now e.updated_at))) [
      | inl fresh ↦
          let no : false ≡ true = sym (fresh_stays e s set fresh) ∙ h in absurd (ground arith)
      | inr stale ↦ (s, set, ground arith, sym (stale_draws e s set stale) ∙ h)
    ]
  ]

elapsed_plain : (t u : ℕ) → u ≤ t → t < 2 ^ 63 → sub64 t u ≡ t - u
elapsed_plain t u h g = omega arith

fresh_while :
    (f : Floats) (s : Refreshing) (elapsed : ℕ)
    → min_stale f s < 2 ^ 63
    → elapsed < min_stale f s
    → is_fresh f s elapsed ≡ true
unfolding is_fresh
fresh_while f s elapsed bound h =
    let m = min_stale f s in let le : le_i64 m elapsed ≡ false = ground arith in ap not le

stale_after :
    (f : Floats) (s : Refreshing) (elapsed : ℕ)
    → elapsed < 2 ^ 63
    → min_stale f s ≤ elapsed
    → is_fresh f s elapsed ≡ false
unfolding is_fresh
stale_after f s elapsed bound h =
    let m = min_stale f s in let le : le_i64 m elapsed ≡ true = ground arith in ap not le

-- An entry that was touched counts its age from the seconds of the time. Where that is at least the
-- time to live times the coefficient, only the draw decides.
pub touched_is_stale :
    (f : Floats) (cfg s : Refreshing) (now t random : ℕ) (e : Entry)
    → settings f cfg e.rule ≡ some s
    → now ≤ t
    → t < 2 ^ 63
    → min_stale f s ≤ now - now / 1_000_000_000
    → should_be_refreshed f cfg t random (touch_updated_at now e)
      ≡ f.less random (refresh_probability f s (t - now / 1_000_000_000))
unfolding touch_updated_at
touched_is_stale f cfg s now t random e set later bound old =
    let seconds = now / 1_000_000_000 in
    let below : seconds ≤ now = omega arith in
    let plain = elapsed_plain t seconds (omega arith) bound in
    let e' = touch_updated_at now e in
    stale_draws f cfg t random e' s set
      (ap (is_fresh f s) plain ∙ stale_after f s (t - seconds) (omega arith) (omega arith))
    ∙ ap (λ a. f.less random (refresh_probability f s a)) plain

-- What a successful refresh did.
pub record Revalidated (now : ℕ) (e e' : Entry) : Type 0 where
  pub before : Packed
  pub response : Response
  pub readable : get_payload e ≡ ok before
  pub fetched : call_revalidator e before ≡ ok response
  pub succeeded : response.status ≡ 200
  pub after : e' ≡ record (set_payload (refetched before response) e) { updated_at = now }

-- What is done with the answer.
abbrev answered : ℕ → Entry → Packed → Response → Outcome Entry
answered now e f resp =
    if not (resp.status == 200)
    then err invalid_upstream_status_code
    else ok (record (set_payload (refetched f resp) e) { updated_at = now })

answered_ok :
    (now : ℕ) (e e' : Entry) (f : Packed) (resp : Response)
    → answered now e f resp ≡ ok e'
    → (resp.status ≡ 200) × (e' ≡ record (set_payload (refetched f resp) e) { updated_at = now })
answered_ok now e e' f resp h = elim (Bool-cases (resp.status == 200)) [
  | inl q ↦ (
    ground arith,
    sym (
        ok_injective (record (set_payload (refetched f resp) e) { updated_at = now }) e'
          (sym (taken now e f resp q) ∙ h)),
  )
  | inr q ↦ absurd (err_not_ok invalid_upstream_status_code e' (sym (refused now e f resp q) ∙ h))
]
  where
    taken :
        (now : ℕ) (e : Entry) (f : Packed) (resp : Response)
        → (resp.status == 200) ≡ true
        → answered now e f resp
          ≡ ok (record (set_payload (refetched f resp) e) { updated_at = now })
    taken now e f resp q = rw q refl

    refused :
        (now : ℕ) (e : Entry) (f : Packed) (resp : Response)
        → (resp.status == 200) ≡ false
        → answered now e f resp ≡ err invalid_upstream_status_code
    refused now e f resp q = rw q refl

pub revalidate-Revalidated :
    (now : ℕ) (e e' : Entry) → revalidate now e ≡ ok e' → Revalidated now e e'
unfolding revalidate
revalidate-Revalidated now e e' h =
    let (f, read, next) =
      bind_ok (get_payload e) (λ f. call_revalidator e f >>= answered now e f) e' h in
    let (resp, called, last) = bind_ok (call_revalidator e f) (answered now e f) e' next in
    let (good, same) = answered_ok now e e' f resp last in
    record {
      before = f;
      response = resp;
      readable = read;
      fetched = called;
      succeeded = good;
      after = same;
    }

-- A payload with the request of one and the answer of another, field by field.
abbrev pub answered_with : Packed → Response → Packed
answered_with g resp = record {
  path = g.path;
  query = g.query;
  query_headers = g.query_headers;
  response_headers = resp.headers;
  body = resp.body;
  status = resp.status;
}

-- The entry after a successful refresh.
abbrev pub renewed : ℕ → Entry → Packed → Response → Entry
renewed now e g resp = record (set_payload (refetched g resp) e) { updated_at = now }

good_answer :
    (now : ℕ) (e : Entry) (g : Packed) (resp : Response)
    → resp.status ≡ 200
    → answered now e g resp ≡ ok (renewed now e g resp)
good_answer now e g resp h = let q : (resp.status == 200) ≡ true = ground arith in rw q refl

revalidate_renews :
    (now : ℕ) (e : Entry) (g : Packed) (resp : Response)
    → get_payload e ≡ ok g
    → call_revalidator e g ≡ ok resp
    → resp.status ≡ 200
    → revalidate now e ≡ ok (renewed now e g resp)
unfolding revalidate
revalidate_renews now e g resp read called good =
    ap (λ o. o >>= (λ g. call_revalidator e g >>= answered now e g)) read
    ∙ ap (λ o. o >>= answered now e g) called
    ∙ good_answer now e g resp good

-- Where the payload reads as a request, the upstream answers it with status 200 and the lengths of
-- the result fit into 32 bits, a refresh succeeds: the entry keeps its key and reads back as the
-- request with the headers, the body and the status of the answer; and it is not refreshed again, whatever the draws, before it is as
-- old as the time to live times the coefficient that hold for it.
pub revalidate_rests :
    (f : Floats) (cfg s : Refreshing) (now t random : ℕ) (e : Entry) (g : Packed) (resp : Response)
    → get_payload e ≡ ok g
    → call_revalidator e g ≡ ok resp
    → resp.status ≡ 200
    → Fits (answered_with g resp)
    → settings f cfg e.rule ≡ some s
    → now ≤ t
    → t < 2 ^ 63
    → min_stale f s < 2 ^ 63
    → t < now + min_stale f s
    → (e' : Entry) × (revalidate now e ≡ ok e')
      × (e'.key ≡ e.key)
      × (get_payload e' ≡ ok (answered_with g resp))
      × (should_be_refreshed f cfg t random e' ≡ false)
unfolding set_payload get_payload
revalidate_rests f cfg s now t random e g resp read called good fits set later bound small soon =
    let e' = renewed now e g resp in
    (
      e',
      revalidate_renews now e g resp read called good,
      refl,
      get_payload-set_payload (answered_with g resp) e fits,
      fresh_stays f cfg t random e' s set (
          ap (is_fresh f s) (elapsed_plain t now later bound)
          ∙ fresh_while f s (t - now) small (omega arith)),
    )
