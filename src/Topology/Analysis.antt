-- ===== src/Topology/Analysis.antt =====
-- `top_betweenness` and `analyze_topology` of gossip-monitor/src/topology.rs.
use podping_alpha.Prelude.{
  ℕ, zero, suc, ◌+◌, ◌-◌, ◌*◌, ◌/◌, String, Bool, not, ◌&&◌, List, [], ◌∷◌, ◌++◌, length, take,
  select, contains, eqb, leb, ltb, if◌then◌else◌, ◌==◌, Outcome, done, panic, ◌>>=◌, false, ◌||◌,
}
use podping_alpha.Topology.{Graph, neighbors_of, insert, components}
use podping_alpha.Topology.Adjacency.{active_ids, adjacency}
use podping_alpha.Topology.Betweenness.{Floats, compute_betweenness}
use podping_alpha.Swarm.{PeerState}

pub record PeerSuggestion (F64 : Type 0) : Type 0 where
  pub target_node_id : String
  pub suggested_peers : List String
  pub reason : String
  pub isolation_score : F64

pub record TopologyAnalysis (F64 : Type 0) : Type 0 where
  pub suggestions : List (PeerSuggestion F64)
  pub node_betweenness : List (String × F64)
  pub timestamp : ℕ

-- `sort_by` with a total order, which keeps the order of items that are not apart: `earlier y x` is
-- that `y` is before `x` in the new order. (With another comparison it may panic: see `checked`.)
module _ {A : Type 0} (earlier : A → A → Bool) where
  unfoldable pub place : A → List A → List A
  place x [] = x ∷ []
  place x (y ∷ ys) = let rest = place x ys in if earlier y x then y ∷ rest else x ∷ y ∷ ys

  unfoldable pub sort : List A → List A
  sort [] = []
  sort (x ∷ xs) = place x (sort xs)

abbrev pub keys {ℓ} : {A : Type ℓ} → List (String × A) → List String
keys [] = []
keys (entry ∷ map) = entry.0 ∷ keys map

-- The index of the last of the longest components.
unfoldable pub last_longest : ℕ → ℕ → ℕ → List (List String) → ℕ
last_longest i best longest [] = best
last_longest i best longest (c ∷ cs) =
    let longer = leb longest (length c) in
    last_longest (suc i) (if longer then i else best) (if longer then length c else longest) cs

abbrev pub largest_idx : List (List String) → ℕ
largest_idx cs = last_longest 0 0 0 cs

-- `components[i]`
unfoldable pub component_at : ℕ → List (List String) → Outcome (List String)
component_at i [] = panic
component_at zero (c ∷ cs) = done c
component_at (suc i) (c ∷ cs) = component_at i cs

-- The pairs of neighbors that are joined themselves.
unfoldable pub edges_among : Graph → List String → ℕ
edges_among adj [] = 0
edges_among adj (n ∷ neighbors) =
    length (select (contains (neighbors_of adj n)) neighbors) + edges_among adj neighbors

abbrev pub new_hops : String → List String → List String → List String → List String
new_hops node neighbors [] found = found
new_hops node neighbors (sn ∷ seconds) found =
    new_hops node neighbors seconds
      (if not (sn == node) && not (contains neighbors sn) then insert sn found else found)

unfoldable pub two_hop : Graph → String → List String → List String → List String → List String
two_hop adj node neighbors [] found = found
two_hop adj node neighbors (n ∷ rest) found =
    two_hop adj node neighbors rest (new_hops node neighbors (neighbors_of adj n) found)

module _ (e : Floats) where
  abbrev Scores : Type 0
  Scores = List (String × e.F64)

  -- By the scores, the highest first.
  abbrev pub higher : String × e.F64 → String × e.F64 → Bool
  higher a b = e.less b.1 a.1

  unfoldable pub top_betweenness : Scores → List String → ℕ → List String
  top_betweenness scores exclude count = keys (
      take count (sort higher (select (λ (c : String × e.F64). not (contains exclude c.0)) scores)))

  unfoldable pub suggest_each : List String → List String → List (PeerSuggestion e.F64)
  suggest_each suggested [] = []
  suggest_each suggested (node_id ∷ component) =
      record {
        target_node_id = node_id;
        suggested_peers = suggested;
        reason = "isolated_clique";
        isolation_score = e.one;
      }
      ∷ suggest_each suggested component

  -- Step 4; the components that are left begin at the index `i`. For each, a map of the scores in the
  -- main component is collected, in an order of its own.
  unfoldable pub suggest_isolated :
      (ℕ → Scores → Scores)
      → Scores
      → List String
      → ℕ
      → ℕ
      → List (List String)
      → List (PeerSuggestion e.F64)
  unfolding top_betweenness suggest_each
  suggest_isolated collect scores main largest i [] = []
  suggest_isolated collect scores main largest i (component ∷ cs) =
      let rest = suggest_isolated collect scores main largest (suc i) cs in
      let main_betweenness =
        collect i (select (λ (c : String × e.F64). contains main c.0) scores) in
      let suggested = top_betweenness main_betweenness component 3 in
      if eqb i largest then rest else suggest_each suggested component ++ rest

  unfoldable pub cluster_density : Graph → List String → e.F64
  unfolding edges_among
  cluster_density adj neighbors =
      let max_edges = length neighbors * (length neighbors - 1) / 2 in
      if ltb 0 max_edges
      then e.div (e.of_usize (edges_among adj neighbors)) (e.of_usize max_edges)
      else e.zero_f

  unfoldable pub external_reach : Graph → ℕ → String → List String → e.F64
  unfolding two_hop
  external_reach adj total_known node_id neighbors =
      if ltb 1 total_known
      then e.div (e.of_usize (length (two_hop adj node_id neighbors neighbors [])))
          (e.of_usize (total_known - 1))
      else e.zero_f

  -- The body of step 5: at most one suggestion for a node.
  unfoldable pub suggest_member : Scores → Graph → ℕ → String → List (PeerSuggestion e.F64)
  unfolding top_betweenness cluster_density external_reach
  suggest_member scores adj total_known node_id =
      let neighbors = neighbors_of adj node_id in
      let suggested = top_betweenness scores (insert node_id neighbors) 3 in
      let density = cluster_density adj neighbors in
      let reach = external_reach adj total_known node_id neighbors in
      let low : PeerSuggestion e.F64 = record {
        target_node_id = node_id;
        suggested_peers = suggested;
        reason = "low_connectivity";
        isolation_score = if eqb (length neighbors) 0 then e.one else e.half;
      } in
      let clique : PeerSuggestion e.F64 = record {
        target_node_id = node_id;
        suggested_peers = suggested;
        reason = "isolated_clique";
        isolation_score = e.mul density (e.sub e.one reach);
      } in
      if ltb (length neighbors) 2
      then low ∷ []
      else if e.less e.four_fifths density && e.less reach e.three_tenths
      then clique ∷ []
      else []

  unfoldable pub suggest_members : Scores → Graph → ℕ → List String → List (PeerSuggestion e.F64)
  unfolding suggest_member
  suggest_members scores adj total_known [] = []
  suggest_members scores adj total_known (node_id ∷ component) =
      suggest_member scores adj total_known node_id
      ++ suggest_members scores adj total_known component

  abbrev pub more_isolated : PeerSuggestion e.F64 → PeerSuggestion e.F64 → Bool
  more_isolated a b = e.less b.isolation_score a.isolation_score

  abbrev pub some_score_is_nan : Scores → Bool
  some_score_is_nan [] = false
  some_score_is_nan (s ∷ scores) = e.is_nan s.1 || some_score_is_nan scores

  abbrev pub some_isolation_is_nan : List (PeerSuggestion e.F64) → Bool
  some_isolation_is_nan [] = false
  some_isolation_is_nan (s ∷ suggestions) =
      e.is_nan s.isolation_score || some_isolation_is_nan suggestions

  abbrev pub has_nan : TopologyAnalysis e.F64 → Bool
  has_nan a = some_score_is_nan a.node_betweenness || some_isolation_is_nan a.suggestions

  -- The sorts compare by `partial_cmp(..).unwrap_or(Equal)`, which is a total order unless there is
  -- a NaN, where `sort_by` may panic. Every score is sorted in the end, if not before.
  unfoldable pub checked : TopologyAnalysis e.F64 → Outcome (TopologyAnalysis e.F64)
  checked a = if has_nan a then panic else done a

  -- The orders in which the `HashSet` of the nodes, those of the neighbors and the `HashMap` of the
  -- scores are iterated, and that of the main component's scores collected for each component.
  pub record Orders : Type 0 where
    pub nodes : List String → List String
    pub neighbors : Graph → Graph
    pub scores : List (String × e.F64) → List (String × e.F64)
    pub collected : ℕ → List (String × e.F64) → List (String × e.F64)

  -- The analysis of a map that is not empty, if no sort panics.
  unfoldable pub advise_nodes : Orders → ℕ → List String → Graph → Outcome (TopologyAnalysis e.F64)
  unfolding sort suggest_isolated suggest_members
  advise_nodes o now nodes adj = do
    cs ← components nodes adj []
    main ← component_at (largest_idx cs) cs
    computed ← compute_betweenness e nodes adj
    let scores = o.scores computed
    done (record {
      suggestions = sort more_isolated (
          suggest_isolated o.collected scores main (largest_idx cs) 0 cs
          ++ suggest_members scores adj (length nodes) main);
      node_betweenness = sort higher scores;
      timestamp = now;
    })

  unfoldable pub analyze_nodes : Orders → ℕ → List String → Graph → Outcome (TopologyAnalysis e.F64)
  unfolding advise_nodes checked
  analyze_nodes o now nodes adj = advise_nodes o now nodes adj >>= checked

  unfoldable pub analyze_topology :
      {Metrics : Type 0} → Orders → ℕ → List (PeerState Metrics) → Outcome (TopologyAnalysis e.F64)
  unfolding analyze_nodes
  analyze_topology o now peers = elim (active_ids peers) [
    | [] ↦ done (record { suggestions = []; node_betweenness = []; timestamp = now })
    | x ∷ xs ↦ analyze_nodes o now (o.nodes (active_ids peers)) (o.neighbors (adjacency peers))
  ]
