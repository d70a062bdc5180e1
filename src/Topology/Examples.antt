-- ===== src/Topology/Examples.antt =====
-- Two nodes that list each other, and one that nobody lists: runs of
-- gossip-monitor/src/topology.rs, and its theorems applied to them.
use podping_alpha.Prelude.{
  ℕ, ◌+◌, ◌*◌, ◌/◌, ◌-◌, String, false, ◌≡◌, refl, none, List, [], ◌∷◌, ltb, contains, done,
  Returns, ◌||◌,
}
use podping_alpha.Swarm.{PeerState}
use podping_alpha.Topology.{
  Graph, neighbors_of, scan, search, bfs_component, next_component, components,
}
use podping_alpha.Topology.Found.{IsComponent, bfs_component-IsComponent}
use podping_alpha.Topology.Components.{IsPartition, components-IsPartition}
use podping_alpha.Topology.Adjacency.{active_ids, adjacency}
use podping_alpha.Topology.Symmetry.{
  reports, adjacency-reports, adjacency-IsSymmetric, neighbors_of-active,
}
use podping_alpha.Topology.Betweenness.{Floats, compute_betweenness}
use podping_alpha.Topology.Scores.{IsScored, compute_betweenness-IsScored}
use podping_alpha.Topology.Advice.{Advises, analyze_topology-Advises}
use podping_alpha.Topology.Analysis.{Orders, analyze_topology}

-- Numbers in place of the `f64`.
abbrev numbers : Floats
numbers = record {
  F64 = ℕ;
  zero_f = 0;
  one = 1;
  two = 2;
  add = λ a b. a + b;
  mul = λ a b. a * b;
  div = λ a b. a / b;
  sub = λ a b. a - b;
  of_usize = λ n. n;
  less = ltb;
  is_nan = λ n. false;
  half = 0;
  four_fifths = 0;
  three_tenths = 1;
}

abbrev peer : String → List String → PeerState Unit
peer id neighbors = record {
  node_id = id;
  friendly_name = none;
  version = "1.0";
  last_seen = 0;
  stale = false;
  metrics = tt;
  neighbors = neighbors;
}

abbrev three_peers : List (PeerState Unit)
three_peers = peer "a" ("b" ∷ []) ∷ peer "b" ("a" ∷ []) ∷ peer "c" [] ∷ []

abbrev small : Graph
small = ("a", "b" ∷ []) ∷ ("b", "a" ∷ []) ∷ ("c", []) ∷ []

runs : components ("a" ∷ "b" ∷ "c" ∷ []) small [] ≡ done (("a" ∷ "b" ∷ []) ∷ ("c" ∷ []) ∷ [])
unfolding components next_component bfs_component search scan
runs = refl

bfs_component-IsComponent_example :
    Returns
      (IsComponent (adjacency three_peers) ("c" ∷ []) "a")
      (bfs_component "a" (adjacency three_peers) ("c" ∷ []))
bfs_component-IsComponent_example =
    bfs_component-IsComponent "a" (adjacency three_peers) ("c" ∷ []) (refl, tt) refl

components-IsPartition_example :
    Returns
      (IsPartition (adjacency three_peers) ("a" ∷ "b" ∷ "c" ∷ []))
      (components ("a" ∷ "b" ∷ "c" ∷ []) (adjacency three_peers) [])
components-IsPartition_example =
    components-IsPartition ("a" ∷ "b" ∷ "c" ∷ []) (adjacency three_peers)
      (adjacency-IsSymmetric three_peers)

adjacency-reports_example : contains (neighbors_of (adjacency three_peers) "a") "b" ≡ (
    reports (active_ids three_peers) three_peers "a" "b"
    || reports (active_ids three_peers) three_peers "b" "a")
adjacency-reports_example = adjacency-reports three_peers "a" "b"

compute_betweenness-IsScored_example :
    Returns
      (IsScored (active_ids three_peers))
      (compute_betweenness numbers (active_ids three_peers) (adjacency three_peers))
compute_betweenness-IsScored_example =
    compute_betweenness-IsScored numbers (active_ids three_peers) (adjacency three_peers)
      (neighbors_of-active three_peers)

abbrev inserted : Orders numbers
inserted = record { nodes = λ l. l; neighbors = λ g. g; scores = λ l. l; collected = λ i l. l }

analyze_topology-Advises_example :
    Advises numbers
      (active_ids three_peers)
      (adjacency three_peers)
      (analyze_topology numbers inserted 7 three_peers)
analyze_topology-Advises_example = analyze_topology-Advises numbers inserted 7 three_peers (record {
  nodes = λ l x. refl;
  neighbors = λ g x y. refl;
  scores = λ x l. refl;
  collected = λ i x l. refl;
})
