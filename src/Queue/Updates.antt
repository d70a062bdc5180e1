-- ===== src/Queue/Updates.antt =====
-- The queue of podping/dbif/src/lib.rs as a map from URLs to rows: what each write does to it.
use podping_alpha.Prelude.{
  String, ◌≡◌, refl, Bool, true, false, Option, none, some, List, Result, ok, err, arith, ◌==◌,
  eq_iff, if◌then◌else◌, ◌≢◌,
}
use podping_alpha.Ping.{Ping, update, live, live_end, reason_name, medium_name}
use podping_alpha.Queue.{
  sound, row_of, add_ping_to_queue, update_ping_in_queue, set_ping_as_inflight,
  delete_ping_from_queue,
}
use podping_alpha.Queue.Rows.{
  Row, find_row, find_row-set_where, find_row-append, find_row-delete_where, map_row,
  url_in-is_some,
}

-- What a reader of a key sees once a ping with that key is added: the ping's row if the key was
-- free, and the ping's data, to be sent again, if its reason is a live one.
abbrev pub after_add : Ping → Option Row → Option Row
after_add ping none = some (row_of ping)
after_add ping (some old) = elim ping.reason [
  | update ↦ some old
  | live ↦ some (record (row_of ping) { url = old.url })
  | live_end ↦ some (record (row_of ping) { url = old.url })
]

abbrev pub answer_add : Ping → Option Row → Result Bool
answer_add ping none = ok true
answer_add ping (some old) = elim ping.reason [ update ↦ err | live ↦ ok true | live_end ↦ ok true ]

-- With an engine that answers, adding a ping changes the row of its URL alone. A free URL gets the
-- ping's row; a URL in use keeps its row, with an error, for an update, and for a live reason takes
-- the ping's data and waits to be sent again.
pub find_row-add_ping :
    (ping : Ping) (queue : List Row) (u : String)
    → ((add_ping_to_queue sound sound ping queue).0 ≡ answer_add ping (find_row ping.url queue))
      × (find_row u (add_ping_to_queue sound sound ping queue).1
          ≡ (if ping.url == u then after_add ping (find_row u queue) else find_row u queue))
unfolding add_ping_to_queue update_ping_in_queue
find_row-add_ping ping queue u = ground (
  arith,
  url_in-is_some ping.url queue,
  find_row-append u queue (row_of ping),
  find_row-set_where
      (λ r. record r {
        createdon = ping.time;
        reason = reason_name ping.reason;
        medium = medium_name ping.medium;
        inflight = false;
      })
      (λ r. refl) ping.url u queue,
  eq_iff ping.url u,
)

-- Marking a ping as in flight changes that flag of its URL's row alone.
pub find_row-set_ping_as_inflight :
    (ping : Ping) (queue : List Row) (u : String)
    → find_row u (set_ping_as_inflight sound ping queue).1 ≡ (
        if ping.url == u
        then map_row (λ r. record r { inflight = true }) (find_row u queue)
        else find_row u queue)
unfolding set_ping_as_inflight
find_row-set_ping_as_inflight ping queue u =
    find_row-set_where (λ r. record r { inflight = true }) (λ r. refl) ping.url u queue

pub find_row-delete_ping :
    (url : String) (queue : List Row) (u : String)
    → find_row u (delete_ping_from_queue sound url queue).1
      ≡ (if url == u then none else find_row u queue)
unfolding delete_ping_from_queue
find_row-delete_ping url queue u = find_row-delete_where url u queue

-- A live ping whose insertion fails for another reason than a duplicate key (the database is busy)
-- is reported as added, and is in the queue no more than before.
pub add_live_ping_lost :
    (ping : Ping) (queue : List Row)
    → ping.reason ≢ update
    → find_row ping.url queue ≡ none
    → ((add_ping_to_queue (record { opens = true; runs = false; steps = true }) sound ping queue).0
        ≡ ok true)
      × (find_row ping.url
            (add_ping_to_queue
              (record { opens = true; runs = false; steps = true })
              sound
              ping
              queue).1
          ≡ none)
unfolding add_ping_to_queue update_ping_in_queue
add_live_ping_lost ping queue h free = ground (
  arith,
  find_row-set_where
      (λ r. record r {
        createdon = ping.time;
        reason = reason_name ping.reason;
        medium = medium_name ping.medium;
        inflight = false;
      })
      (λ r. refl) ping.url ping.url queue,
)
