-- ===== src/Meter.antt =====
-- The metrics writer of internal/cache/api/cache.go: the counters it takes every second, the five
-- seconds' window that it logs and the three long accumulators. `logged`, `logged_1h` and so on add up
-- what the log lines said. Counters are `int64` bit patterns. The text of a line, the export to
-- Prometheus and the clock are not modelled; a window is idle if no request was served in it.
pub mod Conserved
pub mod Taken
use advinced_cache.Prelude.{ℕ, ◌+◌, Bool, true, false, List, [], ◌∷◌, ◌==◌, if◌then◌else◌}
use advinced_cache.Prelude.Word.{add64}

-- `counters`.
pub record Tally : Type 0 where
  pub total : ℕ
  pub hits : ℕ
  pub misses : ℕ
  pub errors : ℕ
  pub proxied : ℕ
  pub duration : ℕ

-- `reset`.
abbrev pub no_tally : Tally
no_tally = record { total = 0; hits = 0; misses = 0; errors = 0; proxied = 0; duration = 0 }

-- `add`.
unfoldable pub add_tally : Tally → Tally → Tally
add_tally c d = record {
  total = add64 c.total d.total;
  hits = add64 c.hits d.hits;
  misses = add64 c.misses d.misses;
  errors = add64 c.errors d.errors;
  proxied = add64 c.proxied d.proxied;
  duration = add64 c.duration d.duration;
}

abbrev pub log_interval_secs : ℕ
log_interval_secs = 5

-- The variables of the goroutine.
pub record Meter : Type 0 where
  pub window : Tally
  pub acc_hourly : Tally
  pub acc_12_hourly : Tally
  pub acc_24_hourly : Tally
  pub i : ℕ
  pub logged : Tally
  pub logged_1h : Tally
  pub logged_12h : Tally
  pub logged_24h : Tally

abbrev pub new_meter : Meter
new_meter = record {
  window = no_tally;
  acc_hourly = no_tally;
  acc_12_hourly = no_tally;
  acc_24_hourly = no_tally;
  i = log_interval_secs;
  logged = no_tally;
  logged_1h = no_tally;
  logged_12h = no_tally;
  logged_24h = no_tally;
}

-- What wakes the loop up: a second, with the counters taken, or one of the long tickers.
pub data Event : Type 0 where
  second : Tally → Event
  hour : Event
  half_day : Event
  day : Event

-- The counters taken are added everywhere.
unfoldable pub add_taken : Tally → Meter → Meter
unfolding add_tally
add_taken c m = record m {
  window = add_tally m.window c;
  acc_hourly = add_tally m.acc_hourly c;
  acc_12_hourly = add_tally m.acc_12_hourly c;
  acc_24_hourly = add_tally m.acc_24_hourly c;
}

-- `if i == logIntervalSecs`: an idle window is neither logged nor closed, and `continue` leaves `i`.
unfoldable pub log_window : Meter → Meter
unfolding add_tally
log_window m =
    if m.i == log_interval_secs
    then (if m.window.total == 0
        then m
        else record m { logged = add_tally m.logged m.window; window = no_tally; i = 1 })
    else record m { i = m.i + 1 }

-- `logLong` says nothing of an accumulator without requests, and the accumulator is reset.
unfoldable pub log_long : Tally → Tally → Tally
unfolding add_tally
log_long logged c = if c.total == 0 then logged else add_tally logged c

unfoldable pub on_event : Event → Meter → Meter
unfolding add_taken log_window log_long
on_event (second c) m = log_window (add_taken c m)
on_event hour m = record m { logged_1h = log_long m.logged_1h m.acc_hourly; acc_hourly = no_tally }
on_event half_day m = record m {
  logged_12h = log_long m.logged_12h m.acc_12_hourly;
  acc_12_hourly = no_tally;
}
on_event day m = record m {
  logged_24h = log_long m.logged_24h m.acc_24_hourly;
  acc_24_hourly = no_tally;
}

unfoldable pub on_events : List Event → Meter → Meter
unfolding on_event
on_events [] m = m
on_events (e ∷ es) m = on_events es (on_event e m)
