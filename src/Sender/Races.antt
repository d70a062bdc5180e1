-- ===== src/Sender/Races.antt =====
-- A live ping that a writer's late reply deletes (podping/src/main.rs, podping/dbif/src/lib.rs).
use podping_alpha.Prelude.{
  ℕ, ◌≡◌, ◌≢◌, true, none, some, List, [], ◌∷◌, done, ok, arith, str_eq_refl,
}
use podping_alpha.Ping.{Ping, update}
use podping_alpha.Queue.{sound, add_ping_to_queue, delete_ping_from_queue}
use podping_alpha.Queue.Rows.{Row, find_row}
use podping_alpha.Queue.Updates.{find_row-add_ping, find_row-delete_ping}
use podping_alpha.Sender.{transaction, delete_all, delete_podpings, receive_messages}

-- A row is in flight; a live ping for its URL takes the row over and is answered as added; then the
-- reply to the earlier message arrives. It deletes the row by its URL, and the live ping, which no
-- writer was sent, is gone.
pub live_ping_lost :
    (ping : Ping) (queue : List Row) (sent : Row) (block : ℕ)
    → find_row ping.url queue ≡ some sent
    → ping.reason ≢ update
    → block ≢ 0
    → let added = add_ping_to_queue sound sound ping queue in
      let reply = transaction (some (block, (ping.url ∷ []) ∷ [])) in
      (added.0 ≡ ok true)
      × ((after : List Row) × (receive_messages (λ _. sound) (some reply) added.1
            ≡ done (true, after))
          × (find_row ping.url after ≡ none))
unfolding receive_messages delete_podpings delete_all
live_ping_lost ping queue sent block there is_live mined =
    let added = add_ping_to_queue sound sound ping queue in
    let law = find_row-add_ping ping queue ping.url in
    (
      ground (arith, law.0),
      (
        (delete_ping_from_queue sound ping.url added.1).1,
        ground arith,
        ground (arith, find_row-delete_ping ping.url added.1 ping.url, str_eq_refl ping.url),
      ),
    )
