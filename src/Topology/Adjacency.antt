-- ===== src/Topology/Adjacency.antt =====
-- Step 1 of `analyze_topology` of gossip-monitor/src/topology.rs: the adjacency map.
use podping_alpha.Prelude.{String, List, [], ◌∷◌, contains, select, if◌then◌else◌, ◌==◌}
use podping_alpha.Topology.{Graph, insert}
use podping_alpha.Swarm.{PeerState}

-- `set.extend(nodes)`
abbrev pub insert_all : List String → List String → List String
insert_all [] set = set
insert_all (node ∷ nodes) set = insert_all nodes (insert node set)

-- `adj.entry(node).or_default().extend(neighbors)`
unfoldable pub extend : String → List String → Graph → Graph
extend node neighbors [] = (node, insert_all neighbors []) ∷ []
extend node neighbors (entry ∷ adj) =
    let rest = extend node neighbors adj in
    if entry.0 == node then (entry.0, insert_all neighbors entry.1) ∷ adj else entry ∷ rest

-- The loop that enters a node with each of its neighbors.
unfoldable pub link : String → List String → Graph → Graph
link node [] adj = adj
link node (n ∷ neighbors) adj = link node neighbors (extend n (node ∷ []) adj)

module _ {Metrics : Type 0} where
  -- The set is collected with `insert`.
  unfoldable pub active_ids : List (PeerState Metrics) → List String
  active_ids [] = []
  active_ids (p ∷ peers) =
      let rest = active_ids peers in if p.stale then rest else insert p.node_id rest

  unfoldable pub active_neighbors : List String → PeerState Metrics → List String
  active_neighbors active p = insert_all (select (contains active) p.neighbors) []

  unfoldable pub enter : List String → PeerState Metrics → Graph → Graph
  unfolding extend link active_neighbors
  enter active p adj =
      let neighbors = active_neighbors active p in
      extend p.node_id neighbors (link p.node_id neighbors adj)

  unfoldable pub enter_all : List String → List (PeerState Metrics) → Graph → Graph
  unfolding enter
  enter_all active [] adj = adj
  enter_all active (p ∷ peers) adj =
      enter_all active peers (if p.stale then adj else enter active p adj)

  abbrev pub adjacency : List (PeerState Metrics) → Graph
  adjacency peers = enter_all (active_ids peers) peers []
