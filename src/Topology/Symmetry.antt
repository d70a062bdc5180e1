-- ===== src/Topology/Symmetry.antt =====
-- The edges of the adjacency map of gossip-monitor/src/topology.rs.
use podping_alpha.Prelude.{
  String, Bool, true, false, not, ◌&&◌, ◌||◌, ◌≡◌, List, [], ◌∷◌, contains, contains-append, select,
  if◌then◌else◌, ◌==◌, arith, eq_iff,
}
use podping_alpha.Topology.{Graph, insert, neighbors_of}
use podping_alpha.Topology.Reachable.{IsSymmetric}
use podping_alpha.Topology.Adjacency.{
  insert_all, extend, link, active_ids, active_neighbors, enter, enter_all, adjacency,
}
use podping_alpha.Swarm.{PeerState}

pub contains-insert :
    (node : String) (set : List String) (y : String)
    → contains (insert node set) y ≡ (contains set y || (node == y))
contains-insert node set y = ground (arith, contains-append set (node ∷ []) y, eq_iff node y)

contains-insert_all :
    (nodes set : List String) (y : String)
    → contains (insert_all nodes set) y ≡ (contains set y || contains nodes y)
contains-insert_all [] set y = ground arith
contains-insert_all (node ∷ nodes) set y =
    ground (arith, contains-insert node set y, contains-insert_all nodes (insert node set) y)

contains-select :
    (active nodes : List String) (y : String)
    → contains (select (contains active) nodes) y ≡ (contains active y && contains nodes y)
contains-select active [] y = ground arith
contains-select active (x ∷ nodes) y = ground (arith, contains-select active nodes y, eq_iff x y)

edge-extend :
    (node : String) (neighbors : List String) (adj : Graph) (x y : String)
    → contains (neighbors_of (extend node neighbors adj) x) y
      ≡ (contains (neighbors_of adj x) y || (node == x) && contains neighbors y)
unfolding extend
edge-extend node neighbors [] x y = ground (arith, contains-insert_all neighbors [] y)
edge-extend node neighbors (entry ∷ adj) x y = ground (
  arith,
  contains-insert_all neighbors entry.1 y,
  edge-extend node neighbors adj x y,
  eq_iff entry.0 node,
  eq_iff entry.0 x,
  eq_iff node x,
)

edge-link :
    (node : String) (neighbors : List String) (adj : Graph) (x y : String)
    → contains (neighbors_of (link node neighbors adj) x) y
      ≡ (contains (neighbors_of adj x) y || contains neighbors x && (node == y))
unfolding link
edge-link node [] adj x y = ground arith
edge-link node (n ∷ neighbors) adj x y = ground (
  arith,
  edge-link node neighbors (extend n (node ∷ []) adj) x y,
  edge-extend n (node ∷ []) adj x y,
)

module _ {Metrics : Type 0} where
  -- A peer that is not stale has the id `x` and lists the active node `y`.
  unfoldable pub reports : List String → List (PeerState Metrics) → String → String → Bool
  reports active [] x y = false
  reports active (p ∷ peers) x y =
      not p.stale && (p.node_id == x) && (contains active y && contains p.neighbors y)
      || reports active peers x y

  edge-enter :
      (active : List String) (p : PeerState Metrics) (adj : Graph) (x y : String)
      → contains (neighbors_of (enter active p adj) x) y ≡ (
          contains (neighbors_of adj x) y
          || (p.node_id == x) && (contains active y && contains p.neighbors y)
          || (p.node_id == y) && (contains active x && contains p.neighbors x))
  unfolding enter active_neighbors
  edge-enter active p adj x y =
      let ns = active_neighbors active p in
      ground (
        arith,
        edge-extend p.node_id ns (link p.node_id ns adj) x y,
        edge-link p.node_id ns adj x y,
        contains-insert_all (select (contains active) p.neighbors) [] x,
        contains-insert_all (select (contains active) p.neighbors) [] y,
        contains-select active p.neighbors x,
        contains-select active p.neighbors y,
      )

  edge-enter_all :
      (active : List String) (peers : List (PeerState Metrics)) (adj : Graph) (x y : String)
      → contains (neighbors_of (enter_all active peers adj) x) y
        ≡ (contains (neighbors_of adj x) y || reports active peers x y || reports active peers y x)
  unfolding enter_all reports
  edge-enter_all active [] adj x y = ground arith
  edge-enter_all active (p ∷ peers) adj x y = ground (
    arith,
    edge-enter_all active peers (if p.stale then adj else enter active p adj) x y,
    edge-enter active p adj x y,
  )

  -- Two nodes are joined exactly when a peer that is not stale is one of them and lists the other,
  -- which is the id of a peer that is not stale, too.
  pub adjacency-reports :
      (peers : List (PeerState Metrics)) (x y : String)
      → contains (neighbors_of (adjacency peers) x) y
        ≡ (reports (active_ids peers) peers x y || reports (active_ids peers) peers y x)
  adjacency-reports peers x y = ground (arith, edge-enter_all (active_ids peers) peers [] x y)

  pub adjacency-IsSymmetric : (peers : List (PeerState Metrics)) → IsSymmetric (adjacency peers)
  adjacency-IsSymmetric peers x y h =
      ground (arith, h, adjacency-reports peers x y, adjacency-reports peers y x)

  reports-active :
      (active : List String) (peers : List (PeerState Metrics)) (x y : String)
      → reports active peers x y ≡ true
      → (contains (active_ids peers) x ≡ true) × (contains active y ≡ true)
  unfolding reports active_ids
  reports-active active [] x y h = absurd (ground (arith, h))
  reports-active active (p ∷ peers) x y h =
      let rest : reports active peers x y ≡ true
          → (contains (active_ids peers) x ≡ true) × (contains active y ≡ true) =
        reports-active active peers x y in
      ground (arith, h, rest, contains-insert p.node_id (active_ids peers) x)

  -- Every neighbor in the map is the id of a peer that is not stale.
  pub neighbors_of-active :
      (peers : List (PeerState Metrics)) (x y : String)
      → contains (neighbors_of (adjacency peers) x) y ≡ true
      → contains (active_ids peers) y ≡ true
  neighbors_of-active peers x y h =
      let one = reports-active (active_ids peers) peers x y in
      let two = reports-active (active_ids peers) peers y x in
      ground (arith, h, adjacency-reports peers x y, one, two)
