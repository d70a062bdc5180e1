-- ===== src/Swarm.antt =====
-- The registry of gossip-monitor/src/swarm.rs: peers by their node ids, and their latest samples.
-- What an announcement measures (processor, memory, counters) is one value, `Metrics`; `samples`
-- says whether it has the processor or the memory. A map is its entries, each key once.
pub mod Tidy
pub mod Log
mod Examples
use podping_alpha.Prelude.{
  ℕ, ◌-◌, String, Bool, true, false, ◌||◌, Option, none, some, List, [], ◌∷◌, ◌++◌, length, drop,
  select, ltb, leb, if◌then◌else◌, ◌==◌,
}

abbrev pub max_history_samples : ℕ
max_history_samples = 60

abbrev pub prune_threshold_secs : ℕ
prune_threshold_secs = 1800

pub record PeerAnnounce (Metrics : Type 0) : Type 0 where
  pub msg_type : String
  pub node_id : String
  pub friendly_name : Option String
  pub version : String
  pub neighbors : Option (List String)
  pub metrics : Metrics

pub record PeerState (Metrics : Type 0) : Type 0 where
  pub node_id : String
  pub friendly_name : Option String
  pub version : String
  pub last_seen : ℕ
  pub stale : Bool
  pub metrics : Metrics
  pub neighbors : List String

pub record MetricSample (Metrics : Type 0) : Type 0 where
  pub timestamp : ℕ
  pub metrics : Metrics

pub record PeerRegistry (Metrics : Type 0) : Type 0 where
  pub peers : List (PeerState Metrics)
  pub history : List (String × List (MetricSample Metrics))

module _ {Metrics : Type 0} where
  abbrev pub new : PeerRegistry Metrics
  new = record { peers = []; history = [] }

  unfoldable pub has_peer : List (PeerState Metrics) → String → Bool
  has_peer [] id = false
  has_peer (p ∷ peers) id = (p.node_id == id) || has_peer peers id

  unfoldable pub put_peer : PeerState Metrics → List (PeerState Metrics) → List (PeerState Metrics)
  put_peer p [] = p ∷ []
  put_peer p (q ∷ peers) =
      let rest = put_peer p peers in if q.node_id == p.node_id then p ∷ peers else q ∷ rest

  abbrev pub keep_latest : List (MetricSample Metrics) → List (MetricSample Metrics)
  keep_latest samples =
      if ltb max_history_samples (length samples)
      then drop (length samples - max_history_samples) samples
      else samples

  unfoldable pub add_sample :
      String
      → MetricSample Metrics
      → List (String × List (MetricSample Metrics))
      → List (String × List (MetricSample Metrics))
  add_sample id s [] = (id, s ∷ []) ∷ []
  add_sample id s (e ∷ history) =
      let rest = add_sample id s history in
      if e.0 == id then (e.0, keep_latest (e.1 ++ s ∷ [])) ∷ history else e ∷ rest

  unfoldable pub state_of : ℕ → PeerAnnounce Metrics → PeerState Metrics
  state_of now a = record {
    node_id = a.node_id;
    friendly_name = a.friendly_name;
    version = a.version;
    last_seen = now;
    stale = false;
    metrics = a.metrics;
    neighbors = elim a.neighbors [ none ↦ [] | some ns ↦ ns ];
  }

  unfoldable pub update :
      (Metrics → Bool) → ℕ → PeerAnnounce Metrics → PeerRegistry Metrics → PeerRegistry Metrics
  unfolding state_of add_sample put_peer
  update samples now a r =
      let sample : MetricSample Metrics = record { timestamp = now; metrics = a.metrics } in
      let history =
        if samples a.metrics then add_sample a.node_id sample r.history else r.history in
      let updated : PeerRegistry Metrics = record {
        peers = put_peer (state_of now a) r.peers;
        history = history;
      } in
      if a.msg_type == "peer_announce" then updated else r

  abbrev pub is_recent : ℕ → PeerState Metrics → Bool
  is_recent now p = leb (now - p.last_seen) prune_threshold_secs

  -- `prune_stale`, with the count that it returns.
  unfoldable pub prune_stale : ℕ → PeerRegistry Metrics → PeerRegistry Metrics × ℕ
  unfolding has_peer
  prune_stale now r =
      let peers = select (is_recent now) r.peers in
      let removed = length r.peers - length peers in
      let kept =
        select (λ (e : String × List (MetricSample Metrics)). has_peer peers e.0) r.history in
      (record { peers = peers; history = if ltb 0 removed then kept else r.history }, removed)
