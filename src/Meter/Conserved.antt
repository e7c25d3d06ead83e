-- ===== src/Meter/Conserved.antt =====
-- What the log lines of internal/cache/api/cache.go say in all, against what was taken.
use advinced_cache.Prelude.{
  ℕ, ◌^◌, ◌<◌, ◌≡◌, refl, ◌∙◌, List, [], ◌∷◌, ◌==◌, Bool-cases, inl, inr, arith,
}
use advinced_cache.Prelude.Word.{add64}
use advinced_cache.Meter.{
  Tally, add_tally, log_interval_secs, Meter, new_meter, Event, second, hour, half_day, day,
  add_taken, log_window, log_long, on_event, on_events,
}

-- The requests that the seconds of a run brought.
abbrev pub brought : Event → ℕ
brought (second c) = c.total
brought hour = 0
brought half_day = 0
brought day = 0

unfoldable pub taken : List Event → ℕ
taken [] = 0
taken (e ∷ es) = add64 (brought e) (taken es)

-- The requests in the window and the lines of five seconds, and in each accumulator and its lines.
abbrev pub in_window : Meter → ℕ
in_window m = add64 m.logged.total m.window.total

abbrev pub in_hourly : Meter → ℕ
in_hourly m = add64 m.logged_1h.total m.acc_hourly.total

abbrev pub in_12_hourly : Meter → ℕ
in_12_hourly m = add64 m.logged_12h.total m.acc_12_hourly.total

abbrev pub in_24_hourly : Meter → ℕ
in_24_hourly m = add64 m.logged_24h.total m.acc_24_hourly.total

-- The sums after more was taken.
abbrev Grown : ℕ → Meter → Meter → Type 0
Grown n m m' =
    (in_window m' ≡ add64 (in_window m) n)
    × (in_hourly m' ≡ add64 (in_hourly m) n)
    × (in_12_hourly m' ≡ add64 (in_12_hourly m) n)
    × (in_24_hourly m' ≡ add64 (in_24_hourly m) n)

add_taken-Grown : (c : Tally) (m : Meter) → Grown c.total m (add_taken c m)
unfolding add_taken add_tally
add_taken-Grown c m = (omega arith, omega arith, omega arith, omega arith)

window_kept : (m : Meter) → in_window (log_window m) ≡ in_window m
unfolding log_window add_tally
window_kept m = elim (Bool-cases (m.i == log_interval_secs)) [
  | inl e ↦ elim (Bool-cases (m.window.total == 0)) [
    | inl q ↦ rw (e, q, log_window) refl
    | inr q ↦ rw (e, q, log_window) (omega arith)
  ]
  | inr e ↦ rw (e, log_window) refl
]

log_long_kept : (logged c : Tally) → add64 (log_long logged c).total 0 ≡ add64 logged.total c.total
unfolding log_long add_tally
log_long_kept logged c = elim (Bool-cases (c.total == 0)) [
  | inl e ↦ let z : c.total ≡ 0 = ground arith in rw (e, log_long) (omega arith)
  | inr e ↦ rw (e, log_long) (omega arith)
]

accumulators_kept :
    (m : Meter)
    → (in_hourly (log_window m) ≡ in_hourly m)
      × (in_12_hourly (log_window m) ≡ in_12_hourly m)
      × (in_24_hourly (log_window m) ≡ in_24_hourly m)
unfolding log_window
accumulators_kept m = elim (Bool-cases (m.i == log_interval_secs)) [
  | inl e ↦ elim (Bool-cases (m.window.total == 0)) [
    | inl q ↦ rw (e, q, log_window) (refl, refl, refl)
    | inr q ↦ rw (e, q, log_window) (refl, refl, refl)
  ]
  | inr e ↦ rw (e, log_window) (refl, refl, refl)
]

second-Grown : (c : Tally) (m : Meter) → Grown c.total m (on_event (second c) m)
unfolding on_event
second-Grown c m =
    let (a, b, d, e) = add_taken-Grown c m in
    let (one, twelve, four) = accumulators_kept (add_taken c m) in
    (window_kept (add_taken c m) ∙ a, one ∙ b, twelve ∙ d, four ∙ e)

-- A sum that a ticker leaves as it was, with nothing taken.
plain : (a b x : ℕ) → x ≡ add64 a b → x ≡ add64 (add64 a b) 0
plain a b x h = omega arith

hour-Grown : (m : Meter) → Grown 0 m (on_event hour m)
unfolding on_event
hour-Grown m = (
  plain m.logged.total m.window.total (in_window m) refl,
  plain m.logged_1h.total m.acc_hourly.total (in_hourly (on_event hour m))
      (log_long_kept m.logged_1h m.acc_hourly),
  plain m.logged_12h.total m.acc_12_hourly.total (in_12_hourly m) refl,
  plain m.logged_24h.total m.acc_24_hourly.total (in_24_hourly m) refl,
)

half_day-Grown : (m : Meter) → Grown 0 m (on_event half_day m)
unfolding on_event
half_day-Grown m = (
  plain m.logged.total m.window.total (in_window m) refl,
  plain m.logged_1h.total m.acc_hourly.total (in_hourly m) refl,
  plain m.logged_12h.total m.acc_12_hourly.total (in_12_hourly (on_event half_day m))
      (log_long_kept m.logged_12h m.acc_12_hourly),
  plain m.logged_24h.total m.acc_24_hourly.total (in_24_hourly m) refl,
)

day-Grown : (m : Meter) → Grown 0 m (on_event day m)
unfolding on_event
day-Grown m = (
  plain m.logged.total m.window.total (in_window m) refl,
  plain m.logged_1h.total m.acc_hourly.total (in_hourly m) refl,
  plain m.logged_12h.total m.acc_12_hourly.total (in_12_hourly m) refl,
  plain m.logged_24h.total m.acc_24_hourly.total (in_24_hourly (on_event day m))
      (log_long_kept m.logged_24h m.acc_24_hourly),
)

event-Grown : (e : Event) (m : Meter) → Grown (brought e) m (on_event e m)
event-Grown (second c) m = second-Grown c m
event-Grown hour m = hour-Grown m
event-Grown half_day m = half_day-Grown m
event-Grown day m = day-Grown m

taken_small : (es : List Event) → taken es < 2 ^ 64
unfolding taken
taken_small [] = omega arith
taken_small (e ∷ es) = omega arith

-- What one event brought, and the rest of the run.
Grown-on : (a b : ℕ) (m m' m'' : Meter) → Grown a m m' → Grown b m' m'' → Grown (add64 a b) m m''
Grown-on a b m m' m'' (p, q, r, s) (p', q', r', s') =
    (omega arith, omega arith, omega arith, omega arith)

on_events-Grown : (es : List Event) (m : Meter) → Grown (taken es) m (on_events es m)
unfolding taken on_events
on_events-Grown [] m = (
  plain m.logged.total m.window.total (in_window m) refl,
  plain m.logged_1h.total m.acc_hourly.total (in_hourly m) refl,
  plain m.logged_12h.total m.acc_12_hourly.total (in_12_hourly m) refl,
  plain m.logged_24h.total m.acc_24_hourly.total (in_24_hourly m) refl,
)
on_events-Grown (e ∷ es) m =
    let m' = on_event e m in
    Grown-on (brought e) (taken es) m m' (on_events es m') (event-Grown e m) (on_events-Grown es m')

-- However seconds and the long tickers follow one another: every request that was taken stands
-- exactly once in the lines of five seconds or in the open window, and exactly once in the lines or
-- in the open accumulator of every long period, all counts modulo 2 ^ 64.
pub on_events_conserve :
    (es : List Event)
    → let m = on_events es new_meter in
      (in_window m ≡ taken es)
      × (in_hourly m ≡ taken es)
      × (in_12_hourly m ≡ taken es)
      × (in_24_hourly m ≡ taken es)
on_events_conserve es =
    let small = taken_small es in
    let (a, b, c, d) = on_events-Grown es new_meter in
    (omega arith, omega arith, omega arith, omega arith)
