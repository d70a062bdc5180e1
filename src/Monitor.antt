-- ===== src/Monitor.antt =====
-- gossip-monitor/src/main.rs: what the tasks of the monitor share, and a step of each of them.
--
-- Times are in seconds. What an announcement measures is one value, `Metrics`, as in the registry.
-- The flag of the shutdown is left out: nothing happens after it. A receive task may end at any
-- time, and the peers that the watchdog joins again are not followed.
mod Steps
mod Reconnects
mod Neighbors
mod Recovery
mod Snapshot
mod Suggest
mod Pace
mod Examples
use podping_alpha.Prelude.{
  ℕ, ◌+◌, ◌-◌, ◌*◌, ◌%◌, ◌^◌, String, Bool, true, false, not, ◌&&◌, ◌||◌, Option, none, some, List,
  [], ◌∷◌, ◌++◌, length, select, contains, ltb, leb, eqb, if◌then◌else◌, ◌==◌,
}
use podping_alpha.Swarm.{PeerAnnounce, PeerRegistry, update}
use podping_alpha.Peers.{Files, save_peer_if_new}

abbrev pub rebootstrap_timeout : ℕ
rebootstrap_timeout = 180

abbrev pub reconnect_after_failures : ℕ
reconnect_after_failures = 5

abbrev pub isolation_check_interval_secs : ℕ
isolation_check_interval_secs = 300

abbrev pub isolation_min_unique_peers : ℕ
isolation_min_unique_peers = 3

abbrev pub endpoint_reset_after_reconnects : ℕ
endpoint_reset_after_reconnects = 3

abbrev pub periodic_reset_interval_secs : ℕ
periodic_reset_interval_secs = 43200

abbrev pub rss_ceiling_bytes : ℕ
rss_ceiling_bytes = 1073741824

-- The shared atomics and sets, and the variables that one task keeps: `last_reconnect` and
-- `consecutive_reconnects` of the reconnection monitor, `stall_count` of the watchdog, `last_reset`
-- of the health report. `endpoints` counts the fresh endpoints, and `is_joined` is that the shared
-- sender is of a gossip actor that runs.
pub record Hub (Metrics : Type 0) : Type 0 where
  pub broadcast_failures : ℕ
  pub reconnect_requested : Bool
  pub force_endpoint_reset : Bool
  pub reconnect_count : ℕ
  pub receive_generation : ℕ
  pub neighbor_count : ℕ
  pub neighbor_ids : List String
  pub unique_sources : List String
  pub last_notification_time : ℕ
  pub notifications_received : ℕ
  pub registry : PeerRegistry Metrics
  pub peers_file : List String
  pub last_reconnect : ℕ
  pub consecutive_reconnects : ℕ
  pub stall_count : ℕ
  pub last_reset : ℕ
  pub endpoints : ℕ
  pub is_joined : Bool

-- How the calls of a reconnection turn out, and how long they take.
pub record Attempt : Type 0 where
  pub binds : Bool
  pub subscribes : Bool
  pub splits : Bool
  pub takes : ℕ

pub data GossipEvent : Type 0 where
  received : String → List ℕ → GossipEvent
  neighbor_up : String → GossipEvent
  neighbor_down : String → GossipEvent
  lagged : GossipEvent

-- `my_node_id`, what the gossip library and the JSON parser answer, and whether an announcement has
-- a sample of the processor or the memory.
pub record Env (Metrics : Type 0) : Type 0 where
  pub my_node_id : String
  pub files : ℕ → Files
  pub parse : List ℕ → Option (PeerAnnounce Metrics)
  pub samples : Metrics → Bool

abbrev pub remove : String → List String → List String
remove id ids = select (λ x. not (x == id)) ids

abbrev pub insert : String → List String → List String
insert id ids = if contains ids id then ids else ids ++ id ∷ []

module _ {Metrics : Type 0} where
  abbrev pub needs_reconnect : Hub Metrics → Bool
  needs_reconnect h =
      leb reconnect_after_failures h.broadcast_failures
      || h.reconnect_requested
      || h.force_endpoint_reset

  -- What a round of the reconnection monitor does when the new subscription is there.
  unfoldable pub rejoined : ℕ → Hub Metrics → Hub Metrics
  rejoined now h = record h {
    broadcast_failures = 0;
    receive_generation = (h.receive_generation + 1) % 2 ^ 64;
    neighbor_ids = [];
    neighbor_count = 0;
    last_reconnect = now;
    reconnect_count = (h.reconnect_count + 1) % 2 ^ 64;
    is_joined = true;
  }

  -- From the end of the cooldown on: a fresh endpoint after enough attempts, and a new actor and
  -- subscription in place of the old one, which is shut down.
  unfoldable pub reconnect : ℕ → Attempt → Bool → Hub Metrics → Hub Metrics
  unfolding rejoined
  reconnect now a forced h =
      let consecutive =
        if forced
        then endpoint_reset_after_reconnects + 1
        else (h.consecutive_reconnects + 1) % 2 ^ 32 in
      let fresh = ltb endpoint_reset_after_reconnects consecutive && a.binds in
      let down : Hub Metrics = record h {
        broadcast_failures = 0;
        consecutive_reconnects = consecutive;
        endpoints = if fresh then h.endpoints + 1 else h.endpoints;
        is_joined = false;
      } in
      if a.subscribes && a.splits then rejoined (now + a.takes) down else down

  -- No reconnection is needed.
  unfoldable pub settle_down : ℕ → Hub Metrics → Hub Metrics
  settle_down elapsed h =
      if ltb 0 h.consecutive_reconnects && ltb isolation_check_interval_secs elapsed
      then record h { consecutive_reconnects = 0 }
      else h

  -- A round of the reconnection monitor, woken by its timer or by a notice.
  unfoldable pub wake : ℕ → Attempt → Hub Metrics → Hub Metrics
  unfolding reconnect settle_down
  wake now a h =
      let elapsed = now - h.last_reconnect in
      let swapped : Hub Metrics = record h {
        reconnect_requested = false;
        force_endpoint_reset = false;
      } in
      let zeroed : Hub Metrics = record swapped { broadcast_failures = 0 } in
      if needs_reconnect h
      then if not h.force_endpoint_reset && ltb elapsed 30
        then zeroed
        else reconnect now a h.force_endpoint_reset zeroed
      else settle_down elapsed swapped

  -- A broadcast that succeeds, and one that fails or takes too long.
  abbrev pub broadcast_ok : Hub Metrics → Hub Metrics
  broadcast_ok h = record h { broadcast_failures = 0 }

  abbrev pub broadcast_failed : Hub Metrics → Hub Metrics
  broadcast_failed h = record h { broadcast_failures = (h.broadcast_failures + 1) % 2 ^ 64 }

  -- A round of the watchdog; the peers that it joins again are not followed.
  unfoldable pub watchdog : ℕ → Hub Metrics → Hub Metrics
  watchdog now h =
      let stalls = (h.stall_count + 1) % 2 ^ 64 in
      let silent = (now + (2 ^ 64 - h.last_notification_time)) % 2 ^ 64 in
      if leb rebootstrap_timeout silent
      then if leb 2 stalls
        then record h { broadcast_failures = reconnect_after_failures; stall_count = 0 }
        else record h { stall_count = stalls }
      else record h { stall_count = 0 }

  unfoldable pub check_isolation : Hub Metrics → Hub Metrics
  check_isolation h =
      let cleared : Hub Metrics = record h { unique_sources = [] } in
      if eqb h.notifications_received 0
      then cleared
      else if ltb (length h.unique_sources) isolation_min_unique_peers
      then record cleared {
        broadcast_failures = reconnect_after_failures;
        reconnect_requested = true;
      }
      else cleared

  -- A round of the health report, with the memory that the process has.
  unfoldable pub report_health : ℕ → ℕ → Hub Metrics → Hub Metrics
  report_health now rss_bytes h =
      let time_elapsed = leb periodic_reset_interval_secs (now - h.last_reset) in
      if time_elapsed || ltb rss_ceiling_bytes rss_bytes
      then record h { force_endpoint_reset = true; reconnect_requested = true; last_reset = now }
      else h

  -- The end of the receive task of a generation.
  unfoldable pub end_task : ℕ → Hub Metrics → Hub Metrics
  end_task generation h =
      if eqb h.receive_generation generation
      then record h { broadcast_failures = reconnect_after_failures; reconnect_requested = true }
      else h

  -- What the receive task does with a message.
  unfoldable pub note_announce :
      Env Metrics → ℕ → Option (PeerAnnounce Metrics) → Hub Metrics → Hub Metrics
  note_announce e now none h = h
  note_announce e now (some a) h =
      if a.msg_type == "peer_announce"
      then record h {
        registry = update e.samples now a h.registry;
        last_notification_time = now;
        notifications_received = (h.notifications_received + 1) % 2 ^ 64;
        peers_file = save_peer_if_new (e.files now) a.node_id e.my_node_id h.peers_file;
      }
      else h

  unfoldable pub handle_event : Env Metrics → ℕ → GossipEvent → Hub Metrics → Hub Metrics
  unfolding note_announce
  handle_event e now (received from content) h =
      note_announce e now (e.parse content)
        (record h { unique_sources = insert from h.unique_sources })
  handle_event e now (neighbor_up id) h = record h {
    neighbor_count = (h.neighbor_count + 1) % 2 ^ 32;
    neighbor_ids = insert id h.neighbor_ids;
    peers_file = save_peer_if_new (e.files now) id e.my_node_id h.peers_file;
  }
  handle_event e now (neighbor_down id) h = record h {
    neighbor_count = (h.neighbor_count + (2 ^ 32 - 1)) % 2 ^ 32;
    neighbor_ids = remove id h.neighbor_ids;
  }
  handle_event e now lagged h = h

  -- A round of the receive task of a generation: a task that a newer one replaced does nothing.
  unfoldable pub receive : Env Metrics → ℕ → ℕ → GossipEvent → Hub Metrics → Hub Metrics
  unfolding handle_event
  receive e generation now event h =
      if eqb h.receive_generation generation then handle_event e now event h else h
