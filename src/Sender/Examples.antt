-- ===== src/Sender/Examples.antt =====
-- Tests of the sender thread of podping/src/main.rs, and its theorems at concrete rounds.
use podping_alpha.Prelude.{
  String, ◌≡◌, refl, true, false, none, some, List, [], ◌∷◌, Returns, done, arith, ok, ◌==◌,
}
use podping_alpha.Ping.{update}
use podping_alpha.Queue.{sound, row_of, is_due, add_ping_to_queue}
use podping_alpha.Queue.Rows.{Row, find_row, url_in}
use podping_alpha.Queue.Invariant.{run, add, run-nil-IsValid}
use podping_alpha.Queue.Examples.{feed, show}
use podping_alpha.Sender.{
  transaction, Turn, Config, Sender, Round, settle, send_pings, loop_round, receive_messages,
}
use podping_alpha.Sender.Delivery.{Safe, loop_round-Returns}
use podping_alpha.Sender.Marks.{Sends, send_pings-Sends, settle-find_row}
use podping_alpha.Sender.Races.{live_ping_lost}

abbrev config : Config
config = record { ephemeral = false; gossip_enabled = true }

abbrev calm : Turn
calm = record {
  gossip_takes = true;
  hive_takes = true;
  socket_opens = true;
  engine = sound;
  ask = λ _. sound;
  hive_in = some (transaction none);
  gossip_in = transaction (some (9, ("https://c" ∷ []) ∷ [])) ∷ [];
}

abbrev round : Round
round = record {
  before = calm;
  turns = λ _. calm;
  query = sound;
  query_now = 500;
  reset = sound;
  reset_now = 500;
}

abbrev queued : List Row
queued = run [] (add sound sound feed ∷ add sound sound show ∷ [])

abbrev start : Sender
start = record {
  queue = queued;
  waiting = [];
  to_hive = [];
  to_gossip = [];
  sent = 0;
  total_sent = 0;
}

loop_round-Returns_example :
    Returns (Safe "https://a" (url_in "https://a" queued)) (loop_round config round start)
loop_round-Returns_example =
    loop_round-Returns "https://a" config round start refl
      (run-nil-IsValid (add sound sound feed ∷ add sound sound show ∷ [])) tt
      (tt, (((refl, tt), tt), tt)) (λ _. (tt, (((refl, tt), tt), tt))) (λ _. refl) refl

send_pings-Sends_example :
    Returns
      (Sends (λ _. calm) 0 (show ∷ feed ∷ []) start)
      (send_pings config (λ _. calm) 0 (show ∷ feed ∷ []) start)
send_pings-Sends_example =
    send_pings-Sends config (λ _. calm) (λ _. (tt, (tt, tt))) (λ _. refl) 0 (show ∷ feed ∷ []) start
      tt

settle-find_row_example :
    ((r : Row)
      → find_row "https://b" (settle config calm show start).queue ≡ some r
      → (false ≡ false) × (is_due false 900 r ≡ false))
    × ((u : String)
        → ("https://b" == u) ≡ false
        → find_row u (settle config calm show start).queue ≡ find_row u queued)
settle-find_row_example = settle-find_row config calm show start 900 refl

abbrev in_flight : Row
in_flight = record (row_of (record show { reason = update })) { inflight = true }

live_ping_lost_example :
    let added = add_ping_to_queue sound sound show (in_flight ∷ []) in
    let reply = transaction (some (42, ("https://b" ∷ []) ∷ [])) in
    (added.0 ≡ ok true)
    × ((after : List Row) × (receive_messages (λ _. sound) (some reply) added.1
          ≡ done (true, after))
        × (find_row "https://b" after ≡ none))
unfolding find_row
live_ping_lost_example =
    live_ping_lost show (in_flight ∷ []) in_flight 42 refl (λ e. cc) (omega arith)
