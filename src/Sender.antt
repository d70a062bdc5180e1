-- ===== src/Sender.antt =====
-- The sender thread of podping/src/main.rs: the queue checker loop and `receive_messages`. What the
-- sockets do and what the engine answers are arguments; a message is what Cap'n Proto reads from it.
pub mod Delivery
pub mod Marks
pub mod Races
mod Examples
use podping_alpha.Prelude.{
  ℕ, suc, ◌+◌, String, Bool, true, false, not, ◌&&◌, Option, none, some, List, [], ◌∷◌, ◌++◌,
  Result, ok, err, Outcome, done, panic, ◌>>=◌, ltb, eqb, if◌then◌else◌,
}
use podping_alpha.Ping.{Ping}
use podping_alpha.Queue.{
  Engine, get_pings_from_queue, set_ping_as_inflight, reset_pings_in_flight, delete_ping_from_queue,
}
use podping_alpha.Queue.Rows.{Row}

-- A message of a writer. A write error names an IRI if it has a `podping_write` with one; a
-- transaction has its podpings, if any, with the block's number and the IRIs of each podping.
pub data Message : Type 0 where
  garbled : Message
  write_error : Option String → Message
  transaction : Option (ℕ × List (List String)) → Message

-- The engine's answer to the deletion of each URL.
abbrev pub Answers : Type 0
Answers = String → Engine

unfoldable pub delete_all : Answers → List String → List Row → List Row
delete_all ask [] queue = queue
delete_all ask (iri ∷ iris) queue =
    delete_all ask iris (delete_ping_from_queue (ask iri) iri queue).1

unfoldable pub delete_podpings : Answers → List (List String) → List Row → List Row
unfolding delete_all
delete_podpings ask [] queue = queue
delete_podpings ask (iris ∷ rest) queue = delete_podpings ask rest (delete_all ask iris queue)

-- `receive_messages` on what `recv` returns: whether to go on reading, and the queue.
unfoldable pub receive_messages : Answers → Option Message → List Row → Outcome (Bool × List Row)
unfolding delete_podpings
receive_messages ask none queue = done (false, queue)
receive_messages ask (some garbled) queue = panic
receive_messages ask (some (write_error none)) queue = done (false, queue)
receive_messages ask (some (write_error (some iri))) queue =
    done (false, (delete_ping_from_queue (ask iri) iri queue).1)
receive_messages ask (some (transaction none)) queue = done (true, queue)
receive_messages ask (some (transaction (some (block, podpings)))) queue =
    if eqb block 0 then done (false, queue) else done (true, delete_podpings ask podpings queue)

-- `while receive_messages(gsock) {}` over the waiting messages; it also returns those left.
unfoldable pub drain : Answers → List Message → List Row → Outcome (List Message × List Row)
unfolding receive_messages
drain ask [] queue = done ([], queue)
drain ask (m ∷ waiting) queue = do
  received ← receive_messages ask (some m) queue
  let rest = drain ask waiting received.1
  if received.0 then rest else done (waiting, received.1)

-- What happens around one ping: whether the sends succeed, whether a new socket can be made after a
-- failed one, the engine's answers, and what has arrived at the two sockets by the time that they
-- are read.
pub record Turn : Type 0 where
  pub gossip_takes : Bool
  pub hive_takes : Bool
  pub socket_opens : Bool
  pub engine : Engine
  pub ask : Answers
  pub hive_in : Option Message
  pub gossip_in : List Message

pub record Config : Type 0 where
  pub ephemeral : Bool
  pub gossip_enabled : Bool

pub record Sender : Type 0 where
  pub queue : List Row
  pub waiting : List Message
  pub to_hive : List Ping
  pub to_gossip : List Ping
  pub sent : ℕ
  pub total_sent : ℕ

-- Both sockets are read: the hive's once, the gossip writer's until it is to stop.
unfoldable pub receive_both :
    Config → Answers → Option Message → List Message → Sender → Outcome Sender
unfolding receive_messages drain
receive_both c ask hive_in gossip_in s = do
  received ← receive_messages ask hive_in s.queue
  let drained = drain ask (s.waiting ++ gossip_in) received.1
  let both = drained >>= λ d. done (record s { queue = d.1; waiting = d.0 })
  if c.gossip_enabled then both else done (record s { queue = received.1 })

unfoldable pub send_gossip : Config → Turn → Ping → Sender → Sender
send_gossip c t ping s =
    if c.gossip_enabled && t.gossip_takes
    then record s { to_gossip = s.to_gossip ++ ping ∷ [] }
    else s

-- After the hive-writer took the message.
unfoldable pub settle : Config → Turn → Ping → Sender → Sender
settle c t ping s = record s {
  queue =
      if c.ephemeral
      then (delete_ping_from_queue t.engine ping.url s.queue).1
      else (set_ping_as_inflight t.engine ping s.queue).1;
  to_hive = s.to_hive ++ ping ∷ [];
}

abbrev count : Sender → Sender
count s = record s { sent = s.sent + 1; total_sent = s.total_sent + 1 }

-- The loop over the pings; a failed send reconnects on a new socket, which is unwrapped, and leaves
-- the loop.
unfoldable pub send_pings : Config → (ℕ → Turn) → ℕ → List Ping → Sender → Outcome Sender
unfolding send_gossip settle receive_both
send_pings c turns i [] s = done s
send_pings c turns i (ping ∷ pings) s =
    let t = turns i in
    let s' = send_gossip c t ping s in
    let rest = (do
      received ← receive_both c t.ask t.hive_in t.gossip_in (settle c t ping s')
      send_pings c turns (suc i) pings (count received)) in
    if t.hive_takes then rest else if t.socket_opens then done s' else panic

-- One round of the loop. The clock is read by the query and by the reset.
pub record Round : Type 0 where
  pub before : Turn
  pub turns : ℕ → Turn
  pub query : Engine
  pub query_now : ℕ
  pub reset : Engine
  pub reset_now : ℕ

unfoldable pub send_due : Config → Round → Result (List Ping) → Sender → Outcome Sender
unfolding send_pings
send_due c r (ok pings) s = send_pings c r.turns 0 pings s
send_due c r err s = done s

unfoldable pub reset_if_calm : Config → Round → Sender → Sender
reset_if_calm c r s =
    if not c.ephemeral && ltb s.sent 25
    then record s { queue = (reset_pings_in_flight r.reset r.reset_now s.queue).1 }
    else s

unfoldable pub loop_round : Config → Round → Sender → Outcome Sender
unfolding send_due reset_if_calm receive_both
loop_round c r s = do
  received ← receive_both c r.before.ask r.before.hive_in r.before.gossip_in (record s { sent = 0 })
  pings ← get_pings_from_queue r.query r.query_now false received.queue
  sent ← send_due c r pings received
  done (reset_if_calm c r sent)
