-- ===== src/Entry/Refresh.antt =====
-- `ShouldBeRefreshed` and `Revalidate` of pkg/model/entry.go. A `float64` is its 64 bits, and the
-- operations of Go on it are the record `Floats`. A revalidator that was never set is a nil function,
-- whose call panics.
use advinced_cache.Prelude.{ℕ, Bool, false, not, Option, none, some, ◌==◌, if◌then◌else◌}
use advinced_cache.Prelude.Outcome.{Outcome, ok, err, panic, ◌>>=◌, invalid_upstream_status_code}
use advinced_cache.Prelude.Word.{sub64, le_i64}
use advinced_cache.Config.{Rule}
use advinced_cache.Entry.{Entry, Response}
use advinced_cache.Entry.Payload.{Packed, set_payload, get_payload}

-- Arithmetic on `float64`, the conversions from and to `int64`, and `math.Exp`.
pub record Floats : Type 0 where
  pub of_int : ℕ → ℕ
  pub to_int : ℕ → ℕ
  pub less : ℕ → ℕ → Bool
  pub times : ℕ → ℕ → ℕ
  pub over : ℕ → ℕ → ℕ
  pub minus : ℕ → ℕ → ℕ
  pub negate : ℕ → ℕ
  pub exp : ℕ → ℕ

-- What `ShouldBeRefreshed` reads of the section `refresh` of the configuration.
pub record Refreshing : Type 0 where
  pub ttl : ℕ
  pub beta : ℕ
  pub coefficient : ℕ

-- `x > 0`, for an `int64`.
abbrev pub positive : ℕ → Bool
positive x = not (le_i64 x 0)

module _ (f : Floats) where
  -- The settings of the rule in place of the general ones, and none where the rule switches the
  -- refreshing off.
  unfoldable pub settings : Refreshing → Rule → Option Refreshing
  settings cfg rule = elim rule.refresh [
    | none ↦ some cfg
    | some r ↦
        if not r.enabled
        then none
        else some (record {
          ttl = if positive r.ttl then r.ttl else cfg.ttl;
          beta = if f.less (f.of_int 0) r.beta then r.beta else cfg.beta;
          coefficient =
              if f.less (f.of_int 0) r.coefficient then r.coefficient else cfg.coefficient;
        })
  ]

  -- `minStale > elapsed`.
  unfoldable pub is_fresh : Refreshing → ℕ → Bool
  is_fresh s elapsed = not (le_i64 (f.to_int (f.times (f.of_int s.ttl) s.coefficient)) elapsed)

  -- `x`, between 0 and 1, and the probability.
  unfoldable pub staleness : Refreshing → ℕ → ℕ
  staleness s elapsed =
      let x = f.over (f.of_int elapsed) (f.of_int s.ttl) in
      if f.less x (f.of_int 0) then f.of_int 0 else if f.less (f.of_int 1) x then f.of_int 1 else x

  unfoldable pub refresh_probability : Refreshing → ℕ → ℕ
  unfolding staleness
  refresh_probability s elapsed =
      f.minus (f.of_int 1) (f.exp (f.times (f.negate s.beta) (staleness s elapsed)))

  -- At the time `now`, where `rand.Float64` yields `random`.
  unfoldable pub should_be_refreshed : Refreshing → ℕ → ℕ → Entry → Bool
  should_be_refreshed cfg now random e = elim (settings cfg e.rule) [
    | none ↦ false
    | some s ↦
        let elapsed = sub64 now e.updated_at in
        if is_fresh s elapsed then false else f.less random (refresh_probability s elapsed)
  ]

-- The call of the revalidator.
unfoldable pub call_revalidator : Entry → Packed → Outcome Response
call_revalidator e f = elim e.revalidator [
  | none ↦ panic
  | some revalidator ↦ revalidator e.rule f.path f.query f.query_headers
]

-- The payload of a successful refresh.
abbrev pub refetched : Packed → Response → Packed
refetched f resp = record f {
  response_headers = resp.headers;
  body = resp.body;
  status = resp.status;
}

-- `Revalidate`, at the time `now`: the entry afterwards, which an error leaves as it was.
unfoldable pub revalidate : ℕ → Entry → Outcome Entry
unfolding call_revalidator
revalidate now e = do
  f ← get_payload e
  resp ← call_revalidator e f
  if not (resp.status == 200)
      then err invalid_upstream_status_code
      else ok (record (set_payload (refetched f resp) e) { updated_at = now })
