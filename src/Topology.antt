-- ===== src/Topology.antt =====
-- gossip-monitor/src/topology.rs, the search for connected components.
--
-- A `HashMap<String, HashSet<String>>` is the list of its entries, and a set the list of its items,
-- in the order that its iterator happens to take.
mod Reachable
mod Search
mod Found
mod Components
pub mod Adjacency
mod Symmetry
pub mod Betweenness
mod Paths
mod Scores
pub mod Analysis
mod Tops
mod Suggestions
mod Main
pub mod Advice
mod Examples
use podping_alpha.Prelude.{
  ℕ, zero, suc, ◌+◌, String, List, [], ◌∷◌, ◌++◌, length, contains, if◌then◌else◌, ◌==◌, Outcome,
  done, panic, ◌>>=◌,
}

abbrev pub Graph : Type 0
Graph = List (String × List String)

-- `adj.get(node)`, or no neighbor when the node has no entry.
abbrev pub neighbors_of : Graph → String → List String
neighbors_of [] node = []
neighbors_of (entry ∷ adj) node = if entry.0 == node then entry.1 else neighbors_of adj node

-- `visited.insert(node)`
abbrev pub insert : String → List String → List String
insert node set = if contains set node then set else set ++ node ∷ []

-- The loop over a node's neighbors, which marks and queues those that are not marked.
unfoldable pub scan : List String → List String → List String → List String × List String
scan [] visited queue = (visited, queue)
scan (neighbor ∷ neighbors) visited queue =
    if contains visited neighbor
    then scan neighbors visited queue
    else scan neighbors (visited ++ neighbor ∷ []) (queue ++ neighbor ∷ [])

-- The `while let` loop: the marked nodes and the component. Spent fuel counts as a panic, and the
-- theorem on the search shows that neither happens.
unfoldable pub search :
    ℕ → Graph → List String → List String → List String → Outcome (List String × List String)
search fuel adj visited [] component = done (visited, component)
search zero adj visited (node ∷ queue) component = panic
search (suc fuel) adj visited (node ∷ queue) component =
    let scanned = scan (neighbors_of adj node) visited queue in
    search fuel adj scanned.0 scanned.1 (component ++ node ∷ [])

-- Every neighbor of every entry.
abbrev pub targets : Graph → List String
targets [] = []
targets (entry ∷ adj) = entry.1 ++ targets adj

unfoldable pub bfs_component : String → Graph → List String → Outcome (List String × List String)
bfs_component start adj visited =
    search (suc (length (targets adj))) adj (insert start visited) (start ∷ []) []

-- One round of the loop over the nodes: the marked nodes and the component that the round adds.
unfoldable pub next_component :
    String → Graph → List String → Outcome (List String × List (List String))
next_component node adj visited =
    if contains visited node
    then done (visited, [])
    else bfs_component node adj visited >>= λ found. done (found.0, found.1 ∷ [])

-- Step 2 of `analyze_topology`: a component for each node that no earlier one has.
unfoldable pub components : List String → Graph → List String → Outcome (List (List String))
components [] adj visited = done []
components (node ∷ nodes) adj visited = do
  round ← next_component node adj visited
  more ← components nodes adj round.0
  done (round.1 ++ more)
