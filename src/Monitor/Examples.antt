-- ===== src/Monitor/Examples.antt =====
-- A monitor that reconnects, falls silent, and loses a neighbor: runs of gossip-monitor/src/main.rs.
use podping_alpha.Prelude.{
  ℕ, ◌+◌, ◌%◌, ◌^◌, ◌≡◌, arith, ◌-◌, refl, true, false, none, List, [], ◌∷◌, length, ◌*◌, ◌/◌, ltb,
  String, Returns, All,
}
use podping_alpha.Peers.{working}
use podping_alpha.Swarm.{new, PeerState, PeerRegistry}
use podping_alpha.Topology.Betweenness.{Floats}
use podping_alpha.Monitor.Snapshot.{Texts}
use podping_alpha.Monitor.Suggest.{Tick, Sending, begin_suggester}
use podping_alpha.Monitor.Pace.{IsPaced, IsAnalyzed, rounds, rounds-IsPaced}
use podping_alpha.Monitor.{
  Hub, Env, Attempt, GossipEvent, neighbor_up, neighbor_down, wake, reconnect, rejoined,
  report_health, handle_event, receive,
}
use podping_alpha.Monitor.Steps.{
  Step, woken, unsent, health_reported, IsSpaced, run, rejoins, rejoin_of, step,
}
use podping_alpha.Monitor.Reconnects.{run-IsSpaced}
use podping_alpha.Monitor.Neighbors.{IsCounted, receive_all, receive_all-IsCounted}

abbrev start : Hub ℕ
start = record {
  broadcast_failures = 0;
  reconnect_requested = false;
  force_endpoint_reset = false;
  reconnect_count = 0;
  receive_generation = 1;
  neighbor_count = 0;
  neighbor_ids = [];
  unique_sources = [];
  last_notification_time = 1000;
  notifications_received = 0;
  registry = new;
  peers_file = [];
  last_reconnect = 0;
  consecutive_reconnects = 0;
  stall_count = 0;
  last_reset = 0;
  endpoints = 0;
  is_joined = true;
}

abbrev env : Env ℕ
env = record { my_node_id = "m"; files = λ now. working; parse = λ b. none; samples = λ m. true }

abbrev succeeds : Attempt
succeeds = record { binds = true; subscribes = true; splits = true; takes = 2 }

abbrev steps : List Step
steps =
    unsent
    ∷ unsent
    ∷ unsent
    ∷ unsent
    ∷ unsent
    ∷ woken 60 succeeds
    ∷ health_reported 50000 0
    ∷ woken 50001 succeeds
    ∷ []

two_rejoins : length (rejoins env steps start) ≡ 2
unfolding rejoins rejoin_of step wake reconnect rejoined report_health
two_rejoins = refl

run-IsSpaced_example :
    IsSpaced start.last_reconnect (rejoins env steps start)
    × ((run env steps start).receive_generation
        ≡ (start.receive_generation + length (rejoins env steps start)) % 2 ^ 64)
run-IsSpaced_example = run-IsSpaced env steps start (omega arith)

abbrev events : List (ℕ × GossipEvent)
events = (1, neighbor_up "a") ∷ (2, neighbor_up "b") ∷ (3, neighbor_down "a") ∷ []

receive_all-IsCounted_example : IsCounted (receive_all env 1 events start)
unfolding receive handle_event
receive_all-IsCounted_example =
    receive_all-IsCounted env 1 events start
      ((refl, omega arith), ((refl, omega arith), (refl, tt)))
      (record { count = refl; distinct = tt; bounded = omega arith })

-- The new receive task runs before the reconnection resets the count: a neighbor that comes up in
-- between and goes down afterwards wraps the count around.
wrapped :
    (handle_event env 9
      (neighbor_down "a")
      (rejoined 8 (handle_event env 7 (neighbor_up "a") start))).neighbor_count
    ≡ 2 ^ 32 - 1
unfolding handle_event rejoined
wrapped = refl

-- Numbers in place of the `f64`.
abbrev numbers : Floats
numbers = record {
  F64 = ℕ;
  zero_f = 0;
  one = 1;
  two = 2;
  add = λ a b. a + b;
  mul = λ a b. a * b;
  div = λ a b. a / b;
  sub = λ a b. a - b;
  of_usize = λ n. n;
  less = ltb;
  is_nan = λ n. false;
  half = 0;
  four_fifths = 0;
  three_tenths = 1;
}

abbrev texts : Texts
texts = record { to_lowercase = λ s. s; less = λ a b. false }

abbrev sending : Sending
sending = record { monitor_pubkey = "m"; sign = λ m. "s"; broadcasts = λ m. true }

abbrev heard : String → PeerState ℕ
heard id = record {
  node_id = id;
  friendly_name = none;
  version = "1.0";
  last_seen = 900;
  stale = false;
  metrics = 0;
  neighbors = [];
}

abbrev apart : PeerRegistry ℕ
apart = record { peers = heard "a" ∷ heard "b" ∷ []; history = [] }

abbrev tick : ℕ → Tick numbers ℕ
tick now = record {
  now = now;
  delay = λ i. i * 10;
  orders = record { nodes = λ l. l; neighbors = λ g. g; scores = λ l. l; collected = λ i l. l };
  registry = apart;
}

abbrev times : List (Tick numbers ℕ)
times = tick 1000 ∷ tick 1060 ∷ tick 1300 ∷ []

analyzed : All (IsAnalyzed numbers sending texts) times
unfolding podping_alpha.Topology.Analysis.analyze_topology
    podping_alpha.Topology.Adjacency.active_ids podping_alpha.Monitor.Snapshot.snapshot
    podping_alpha.Topology.Analysis.place podping_alpha.Topology.components
    podping_alpha.Topology.next_component podping_alpha.Topology.bfs_component
    podping_alpha.Topology.search podping_alpha.Topology.scan
    podping_alpha.Topology.Adjacency.enter_all podping_alpha.Topology.Analysis.component_at
    podping_alpha.Topology.Analysis.last_longest
    podping_alpha.Topology.Betweenness.compute_betweenness podping_alpha.Prelude.entry_of
    podping_alpha.Prelude.get podping_alpha.Prelude.put
analyzed = (tt, (tt, (tt, tt)))

rounds-IsPaced_example :
    Returns (λ g. IsPaced g.sent) (rounds numbers sending texts times begin_suggester)
rounds-IsPaced_example = rounds-IsPaced numbers sending texts times analyzed
