-- ===== src/Queue/Examples.antt =====
-- Tests of the queue of podping/dbif/src/lib.rs, and its theorems at concrete queues.
use podping_alpha.Prelude.{
  String, ◌≡◌, refl, true, false, none, List, [], ◌∷◌, length, ok, done, ◌-◌, select,
}
use podping_alpha.Ping.{
  Ping, reason_name, medium_name, reason_from_str, medium_from_str, update, live, podcast, music,
}
use podping_alpha.Queue.{
  Engine, sound, row_of, add_ping_to_queue, get_pings_from_queue, reset_pings_in_flight, is_stuck,
}
use podping_alpha.Queue.Rows.{Row, find_row}
use podping_alpha.Queue.Invariant.{IsValid, Call, add, mark, reset, run, step, run-nil-IsValid}
use podping_alpha.Queue.Select.{Picks, get_pings-Picks}
use podping_alpha.Queue.Updates.{after_add, answer_add, find_row-add_ping, add_live_ping_lost}
use podping_alpha.Queue.Reset.{ReleasedAt, reset_pings_lem}

abbrev pub feed : Ping
feed = record { url = "https://a"; time = 100; reason = update; medium = podcast }

abbrev pub show : Ping
show = record { url = "https://b"; time = 101; reason = live; medium = music }

abbrev script : List Call
script =
    add sound sound feed
    ∷ add sound sound show
    ∷ add sound sound feed
    ∷ mark sound show
    ∷ reset sound 400
    ∷ []

abbrev stored : List Row
stored = row_of feed ∷ record (row_of show) { createdon = 400 } ∷ []

script_runs : run [] script ≡ stored
unfolding run step add_ping_to_queue reset_pings_in_flight podping_alpha.Queue.set_ping_as_inflight
    podping_alpha.Queue.Rows.set_where reason_name medium_name
script_runs = refl

live_first :
    get_pings_from_queue sound 500 false stored ≡ done (ok (record show { time = 400 } ∷ feed ∷ []))
unfolding get_pings_from_queue reason_from_str medium_from_str reason_name medium_name
live_first = refl

run-nil-IsValid_example : IsValid (run [] script)
run-nil-IsValid_example = run-nil-IsValid script

get_pings-Picks_example : Picks 500 false (run [] script)
get_pings-Picks_example = get_pings-Picks 500 false (run [] script) (run-nil-IsValid script)

find_row-add_ping_example :
    ((add_ping_to_queue sound sound show stored).0 ≡ answer_add show (find_row "https://b" stored))
    × (find_row "https://b" (add_ping_to_queue sound sound show stored).1
        ≡ after_add show (find_row "https://b" stored))
find_row-add_ping_example = find_row-add_ping show stored "https://b"

reset_pings_lem_example :
    (length (select (is_stuck 700) (reset_pings_in_flight sound 700 stored).1)
      ≡ length (select (is_stuck 700) stored) - 25)
    × ((u : String)
        → ReleasedAt 700
            (find_row u stored)
            (find_row u (reset_pings_in_flight sound 700 stored).1))
reset_pings_lem_example = reset_pings_lem 700 stored

add_live_ping_lost_example :
    ((add_ping_to_queue (record { opens = true; runs = false; steps = true }) sound show []).0
      ≡ ok true)
    × (find_row "https://b"
          (add_ping_to_queue (record { opens = true; runs = false; steps = true }) sound show []).1
        ≡ none)
unfolding find_row
add_live_ping_lost_example = add_live_ping_lost show [] (λ e. cc) refl
