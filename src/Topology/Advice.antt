-- ===== src/Topology/Advice.antt =====
-- The whole of `analyze_topology` of gossip-monitor/src/topology.rs.
use podping_alpha.Prelude.{
  ℕ, suc, ◌≤◌, String, true, false, ◌||◌, ◌≡◌, refl, sym, subst, ap, ◌∙◌, List, [], ◌∷◌, ◌++◌,
  length, All, All-append, contains, done, Returns, Returns-bind, inl, inr, arith, str_eq_refl, has,
  panic, Outcome, if◌then◌else◌, ◌>>=◌,
}
use podping_alpha.Topology.{Graph, neighbors_of, components}
use podping_alpha.Topology.Reachable.{IsReachable, IsSymmetric}
use podping_alpha.Topology.Components.{
  flatten, IsClass, IsPartition, components-IsPartition, IsGiven,
}
use podping_alpha.Topology.Adjacency.{active_ids, adjacency}
use podping_alpha.Topology.Symmetry.{adjacency-IsSymmetric, neighbors_of-active}
use podping_alpha.Topology.Betweenness.{Floats, compute_betweenness}
use podping_alpha.Topology.Scores.{IsScored, compute_betweenness-IsScored}
use podping_alpha.Topology.Tops.{All-sort, named, named-sort, named-has, key}
use podping_alpha.Topology.Suggestions.{
  IsFitting, suggest_isolated-IsFitting, suggest_members-IsFitting, last_longest-lt,
}
use podping_alpha.Topology.Analysis.{
  TopologyAnalysis, sort, largest_idx, component_at, suggest_isolated, suggest_members,
  more_isolated, analyze_nodes, analyze_topology, higher, Orders, checked, has_nan, advise_nodes,
}
use podping_alpha.Swarm.{PeerState}
use podping_alpha.Topology.Main.{
  target, named-append, IsMain, component_at-IsMain, component_at-All, Returns-both,
}

-- What the analysis of a map tells.
pub record IsAdvice (F64 : Type 0) (nodes : List String) (adj : Graph) (a : TopologyAnalysis F64)
    : Type 0 where
  pub fitting : All (IsFitting nodes adj) a.suggestions
  pub connected :
      (x y : String)
      → contains nodes x ≡ true
      → contains nodes y ≡ true
      → (named target a.suggestions x || named target a.suggestions y) ≡ false
      → IsReachable adj [] x y
  pub scored : IsScored nodes a.node_betweenness

-- Any order of the iteration lists the same nodes, neighbors and scores.
pub record IsIteration {e : Floats} (o : Orders e) : Type 0 where
  pub nodes : (l : List String) (x : String) → contains (o.nodes l) x ≡ contains l x
  pub neighbors :
      (g : Graph) (x y : String)
      → contains (neighbors_of (o.neighbors g) x) y ≡ contains (neighbors_of g x) y
  pub scores : (x : String) (l : List (String × e.F64)) → has x (o.scores l) ≡ has x l
  pub collected :
      (i : ℕ) (x : String) (l : List (String × e.F64)) → has x (o.collected i l) ≡ has x l

module _ (e : Floats) (o : Orders e) (nodes : List String) (adj : Graph) where
  within_nodes :
      (cs : List (List String))
      → ((x y : String) → contains (neighbors_of adj x) y ≡ true → contains nodes y ≡ true)
      → IsPartition adj nodes cs
      → (x : String) → contains (flatten cs) x ≡ true
      → contains nodes x ≡ true
  within_nodes cs inside p x h = given (p.given x h)
    where
      given : IsGiven adj nodes x → contains nodes x ≡ true
      given (inl k) = k
      given (inr w) = inside w.0 x w.1

  some_component :
      (cs : List (List String)) (x : String)
      → contains (flatten cs) x ≡ true
      → suc (largest_idx cs) ≤ length cs
  some_component [] x h = absurd (ground (arith, h))
  some_component (c ∷ cs) x h = omega (arith, last_longest-lt 0 0 0 (c ∷ cs) (omega arith))

  advise :
      (now : ℕ) (cs : List (List String)) (main : List String) (scores : List (String × e.F64))
      → ((x : String) → contains (flatten cs) x ≡ true → contains nodes x ≡ true)
      → IsPartition adj nodes cs
      → IsMain e o.collected (largest_idx cs) 0 cs main
      → IsClass adj main
      → ((i : ℕ) (x : String) (l : List (String × e.F64)) → has x (o.collected i l) ≡ has x l)
      → IsScored nodes scores
      → IsAdvice e.F64 nodes adj (record {
        suggestions = sort (more_isolated e) (
            suggest_isolated e o.collected scores main (largest_idx cs) 0 cs
            ++ suggest_members e scores adj (length nodes) main);
        node_betweenness = sort (higher e) scores;
        timestamp = now;
      })
  advise now cs main scores w p m k k' i =
      let isolated = suggest_isolated e o.collected scores main (largest_idx cs) 0 cs in
      let members = suggest_members e scores adj (length nodes) main in
      record {
        fitting = All-sort (more_isolated e) (IsFitting nodes adj) (isolated ++ members) (
            All-append (IsFitting nodes adj) isolated members
              (suggest_isolated-IsFitting e nodes adj o.collected scores main (largest_idx cs) 0 cs
                k' i p.classes w)
              (suggest_members-IsFitting e nodes adj scores (length nodes) main i
                (λ x h. w x (m.within x h))));
        connected = λ x y hx hy f.
            let sx = named-sort (more_isolated e) target (isolated ++ members) x in
            let sy = named-sort (more_isolated e) target (isolated ++ members) y in
            (k x y (
                ground (
                  arith,
                  f,
                  m.covers scores main x (p.covering x hx),
                  sx,
                  named-append target isolated members x,
                ))).0
              (ground (
                arith,
                f,
                m.covers scores main y (p.covering y hy),
                sy,
                named-append target isolated members y,
              ));
        scored = λ x.
            sym (named-has (sort (higher e) scores) x)
            ∙ named-sort (higher e) key scores x
            ∙ named-has scores x
            ∙ i x;
      }

  advise_nodes-IsAdvice :
      (now : ℕ) (start : String)
      → IsIteration o
      → IsSymmetric adj
      → ((x y : String) → contains (neighbors_of adj x) y ≡ true → contains nodes y ≡ true)
      → contains nodes start ≡ true
      → Returns (IsAdvice e.F64 nodes adj) (advise_nodes e o now nodes adj)
  unfolding advise_nodes
  advise_nodes-IsAdvice now start lists s inside h =
      Returns-bind (IsPartition adj nodes) (IsAdvice e.F64 nodes adj) (components nodes adj []) _
        (components-IsPartition nodes adj s)
        (λ cs p.
          let k = largest_idx cs in
          let l = some_component cs start (p.covering start h) in
          let found : Returns (IsMain e o.collected k 0 cs) (component_at k cs) =
            subst (λ n. Returns (IsMain e o.collected n 0 cs) (component_at k cs)) (omega arith)
              (component_at-IsMain e o.collected k 0 cs l) in
          Returns-bind (λ main. IsMain e o.collected k 0 cs main × IsClass adj main)
            (IsAdvice e.F64 nodes adj) (component_at k cs) _
            (Returns-both (IsMain e o.collected k 0 cs) (IsClass adj) (component_at k cs) found
              (component_at-All (IsClass adj) k cs l p.classes))
            (λ main m.
              Returns-bind (IsScored nodes) (IsAdvice e.F64 nodes adj)
                (compute_betweenness e nodes adj) _
                (compute_betweenness-IsScored e nodes adj inside)
                (λ scores i.
                  advise now cs main (o.scores scores) (within_nodes cs inside p) p m.0 m.1
                    lists.collected (λ x. lists.scores x scores ∙ i x))))

-- What the analysis finds, with the reason for which it may panic.
pub record Advises (e : Floats) (nodes : List String) (adj : Graph)
    (m : Outcome (TopologyAnalysis e.F64)) : Type 0 where
  pub found : TopologyAnalysis e.F64
  pub advice : IsAdvice e.F64 nodes adj found
  pub answers : m ≡ (if has_nan e found then panic else done found)

Advises-checked :
    (e : Floats) (nodes : List String) (adj : Graph) (m : Outcome (TopologyAnalysis e.F64))
    → Returns (IsAdvice e.F64 nodes adj) m
    → Advises e nodes adj (m >>= checked e)
unfolding checked
Advises-checked e nodes adj (done a) i = record { found = a; advice = i; answers = refl }
Advises-checked e nodes adj panic i = absurd i

-- For every swarm, and in whatever order the nodes, the neighbors and the scores are iterated, the
-- analysis ends; it returns what it finds unless a score in it is NaN, where a sort may panic. Each
-- suggestion is for an active node, with at most three other active nodes, none of them its neighbor
-- already; of two active nodes that no edges connect, one at least gets a suggestion; and the active
-- nodes are the ones with a betweenness.
pub analyze_topology-Advises :
    {Metrics : Type 0} (e : Floats) (o : Orders e) (now : ℕ) (peers : List (PeerState Metrics))
    → IsIteration o
    → Advises e
        (o.nodes (active_ids peers))
        (o.neighbors (adjacency peers))
        (analyze_topology e o now peers)
unfolding analyze_topology analyze_nodes
analyze_topology-Advises e o now peers k = by_nodes (active_ids peers) refl
  where
    nodes : List String
    nodes = o.nodes (active_ids peers)

    adj : Graph
    adj = o.neighbors (adjacency peers)

    symmetric : IsSymmetric adj
    symmetric x y h =
        k.neighbors (adjacency peers) y x
        ∙ adjacency-IsSymmetric peers x y (sym (k.neighbors (adjacency peers) x y) ∙ h)

    inside : (x y : String) → contains (neighbors_of adj x) y ≡ true → contains nodes y ≡ true
    inside x y h =
        k.nodes (active_ids peers) y
        ∙ neighbors_of-active peers x y (sym (k.neighbors (adjacency peers) x y) ∙ h)

    by_nodes :
        (ids : List String)
        → active_ids peers ≡ ids
        → Advises e nodes adj (elim ids [
          | [] ↦ done (record { suggestions = []; node_betweenness = []; timestamp = now })
          | x ∷ xs ↦ advise_nodes e o now nodes adj >>= checked e
        ])
    by_nodes [] q =
        let none : (x : String) → contains nodes x ≡ false =
          λ x. k.nodes (active_ids peers) x ∙ ap (λ v. contains v x) q in
        record {
          found = record { suggestions = []; node_betweenness = []; timestamp = now };
          advice = record {
            fitting = tt;
            connected = λ x y hx hy f. absurd (ground (arith, hx, none x));
            scored = λ x. sym (none x);
          };
          answers = refl;
        }
    by_nodes (x ∷ xs) q = Advises-checked e nodes adj (advise_nodes e o now nodes adj) (
        advise_nodes-IsAdvice e o nodes adj now x k symmetric inside (
          k.nodes (active_ids peers) x
          ∙ subst (λ v. contains v x ≡ true) (sym q) (ground (arith, str_eq_refl x))))
