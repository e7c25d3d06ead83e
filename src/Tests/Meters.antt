-- ===== src/Tests/Meters.antt =====
-- Runs of the metrics writer of internal/cache/api/cache.go, and its theorems at concrete events.
use advinced_cache.Prelude.{◌≡◌, refl, List, [], ◌∷◌}
use advinced_cache.Prelude.Word.{add64}
use advinced_cache.Meter.{
  no_tally, add_tally, new_meter, Event, second, hour, on_event, on_events, add_taken, log_window,
}
use advinced_cache.Meter.Conserved.{
  taken, in_window, in_hourly, in_12_hourly, in_24_hourly, on_events_conserve,
}
use advinced_cache.Meter.Taken.{
  new_counter, count_request, load_counter, store_counter, Counted, start, served, overlapped,
  loading, storing, Counted-lost,
}

-- Three requests in the first second, two in the second, and an hour is over.
abbrev events : List Event
events = second (record no_tally { total = 3 }) ∷ second (record no_tally { total = 2 }) ∷ hour ∷ []

on_events_conserve_example :
    (in_window (on_events events new_meter) ≡ taken events)
    × (in_hourly (on_events events new_meter) ≡ taken events)
    × (in_12_hourly (on_events events new_meter) ≡ taken events)
    × (in_24_hourly (on_events events new_meter) ≡ taken events)
on_events_conserve_example = on_events_conserve events

five : taken events ≡ 5
unfolding taken
five = refl

logged_at_once : (on_events events new_meter).logged.total ≡ 3
unfolding on_events on_event add_taken log_window add_tally
logged_at_once = refl

-- One request before the load, one between the load and the store.
overlapping : Counted (store_counter (count_request (load_counter (count_request new_counter)))) 2 1
unfolding count_request load_counter
overlapping = storing (overlapped (loading (served start refl) refl) refl) refl

Counted-lost_example :
    2
    ≡ add64
        (add64
          (store_counter (count_request (load_counter (count_request new_counter)))).reported
          (store_counter (count_request (load_counter (count_request new_counter)))).live)
        1
unfolding store_counter
Counted-lost_example =
    Counted-lost (store_counter (count_request (load_counter (count_request new_counter)))) 2 1
      overlapping refl
