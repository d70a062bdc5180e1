-- ===== src/Monitor/Snapshot.antt =====
-- `PeerRegistry::snapshot` of gossip-monitor/src/swarm.rs.
--
-- The order of texts and their lower case are an argument. A peer of the snapshot stands beside its
-- history, which the code copies into it.
use podping_alpha.Prelude.{
  ℕ, ◌-◌, String, Bool, none, some, List, [], ◌∷◌, length, select, map, ltb, ◌||◌, ◌&&◌,
  if◌then◌else◌, ◌==◌, get, false,
}
use podping_alpha.Swarm.{PeerState, PeerRegistry, MetricSample}
use podping_alpha.Topology.Analysis.{sort}

abbrev pub stale_threshold_secs : ℕ
stale_threshold_secs = 600

pub record Texts : Type 0 where
  pub to_lowercase : String → String
  pub less : String → String → Bool

abbrev pub Edge : Type 0
Edge = String × String

pub record SwarmSnapshot (Metrics : Type 0) : Type 0 where
  pub peers : List (PeerState Metrics × List (MetricSample Metrics))
  pub edges : List Edge
  pub total_peers : ℕ
  pub active_peers : ℕ
  pub stale_peers : ℕ
  pub timestamp : ℕ

abbrev pub has_edge : Edge → List Edge → Bool
has_edge e [] = false
has_edge e (f ∷ edges) = (f.0 == e.0) && (f.1 == e.1) || has_edge e edges

-- `edge_set.insert(pair)`
abbrev pub insert_edge : Edge → List Edge → List Edge
insert_edge e edges = if has_edge e edges then edges else e ∷ edges

module _ (t : Texts) where
  abbrev pub edge_of : String → String → Edge
  edge_of id neighbor = if t.less id neighbor then (id, neighbor) else (neighbor, id)

  unfoldable pub edges_from : String → List String → List Edge → List Edge
  edges_from id [] edges = edges
  edges_from id (n ∷ neighbors) edges = edges_from id neighbors (insert_edge (edge_of id n) edges)

  abbrev pub edge_before : Edge → Edge → Bool
  edge_before a b = t.less a.0 b.0 || (a.0 == b.0) && t.less a.1 b.1

  module _ {Metrics : Type 0} where
    unfoldable pub edge_set : List (PeerState Metrics) → List Edge → List Edge
    unfolding edges_from
    edge_set [] edges = edges
    edge_set (p ∷ peers) edges = edge_set peers (edges_from p.node_id p.neighbors edges)

    -- The name that the peers are sorted by.
    abbrev pub shown_name : PeerState Metrics → String
    shown_name p = t.to_lowercase (elim p.friendly_name [ none ↦ p.node_id | some name ↦ name ])

    abbrev pub named_before : PeerState Metrics → PeerState Metrics → Bool
    named_before p q = t.less (shown_name p) (shown_name q)

    unfoldable pub mark_stale : ℕ → List (PeerState Metrics) → List (PeerState Metrics)
    mark_stale now [] = []
    mark_stale now (p ∷ peers) =
        record p { stale = ltb stale_threshold_secs (now - p.last_seen) } ∷ mark_stale now peers

    abbrev pub with_history :
        List (String × List (MetricSample Metrics))
        → PeerState Metrics
        → PeerState Metrics × List (MetricSample Metrics)
    with_history history p =
        (p, elim (get p.node_id history) [ none ↦ [] | some samples ↦ samples ])

    abbrev pub is_stale : PeerState Metrics → Bool
    is_stale p = p.stale

    -- The registry, whose peers are marked, and the snapshot.
    unfoldable pub snapshot :
        ℕ → PeerRegistry Metrics → PeerRegistry Metrics × SwarmSnapshot Metrics
    unfolding mark_stale edge_set sort
    snapshot now r =
        let marked = mark_stale now r.peers in
        let peers = sort named_before marked in
        let stale_peers = length (select is_stale peers) in
        (
          record { peers = marked; history = r.history },
          record {
            peers = map (with_history r.history) peers;
            edges = sort edge_before (edge_set peers []);
            total_peers = length peers;
            active_peers = length peers - stale_peers;
            stale_peers = stale_peers;
            timestamp = now;
          },
        )
