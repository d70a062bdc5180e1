-- ===== src/Topology/Betweenness.antt =====
-- `compute_betweenness` of gossip-monitor/src/topology.rs.
--
-- A distance is kept one higher than the code's `i64`: 0 is its −1, which no path has set. The
-- numbers `f64` are a parameter with their operations.
use podping_alpha.Prelude.{
  ℕ, zero, suc, String, Bool, List, [], ◌∷◌, ◌++◌, length, eqb, if◌then◌else◌, ◌==◌, Outcome, done,
  panic, ◌>>=◌, put, entry_of,
}
use podping_alpha.Topology.{Graph, neighbors_of}

pub record Floats : Type 1 where
  pub F64 : Type 0
  pub zero_f : F64
  pub one : F64
  pub two : F64
  pub add : F64 → F64 → F64
  pub mul : F64 → F64 → F64
  pub div : F64 → F64 → F64
  pub sub : F64 → F64 → F64
  pub of_usize : ℕ → F64
  pub less : F64 → F64 → Bool
  pub is_nan : F64 → Bool
  pub half : F64
  pub four_fifths : F64
  pub three_tenths : F64

-- What a search from one node knows; the top of the stack is its first item.
pub record Paths (F64 : Type 0) : Type 0 where
  pub stack : List String
  pub predecessors : List (String × List String)
  pub sigma : List (String × F64)
  pub dist : List (String × ℕ)
  pub queue : List String

-- `map.insert(node, value)` for each node.
unfoldable pub fill {ℓ} : {A : Type ℓ} → A → List String → List (String × A)
fill a [] = []
fill a (node ∷ nodes) = put node a (fill a nodes)

module _ (e : Floats) where
  abbrev Number : Type 0
  Number = e.F64

  unfoldable pub begin_paths : List String → String → Paths Number
  unfolding fill
  begin_paths nodes s = record {
    stack = [];
    predecessors = fill [] nodes;
    sigma = put s e.one (fill e.zero_f nodes);
    dist = put s 1 (fill 0 nodes);
    queue = s ∷ [];
  }

  -- Found for the first time?
  unfoldable pub discover : ℕ → String → Paths Number → Outcome (Paths Number)
  discover d_v w p = do
    d ← entry_of w p.dist
    done (
        if eqb d 0
        then record {
          stack = p.stack;
          predecessors = p.predecessors;
          sigma = p.sigma;
          dist = put w (suc d_v) p.dist;
          queue = p.queue ++ w ∷ [];
        }
        else p)

  -- What a shortest path over `v` adds.
  unfoldable pub count_path : String → String → Paths Number → Outcome (Paths Number)
  count_path v w p = do
    more ← entry_of v p.sigma
    old ← entry_of w p.sigma
    ps ← entry_of w p.predecessors
    done (record {
      stack = p.stack;
      predecessors = put w (ps ++ v ∷ []) p.predecessors;
      sigma = put w (e.add old more) p.sigma;
      dist = p.dist;
      queue = p.queue;
    })

  unfoldable pub visit : String → ℕ → String → Paths Number → Outcome (Paths Number)
  unfolding discover count_path
  visit v d_v w p = do
    q ← discover d_v w p
    d ← entry_of w q.dist
    if eqb d (suc d_v) then count_path v w q else done q

  unfoldable pub visit_all : String → ℕ → List String → Paths Number → Outcome (Paths Number)
  unfolding visit
  visit_all v d_v [] p = done p
  visit_all v d_v (w ∷ neighbors) p = visit v d_v w p >>= visit_all v d_v neighbors

  abbrev pub pop_front : String → List String → Paths Number → Paths Number
  pop_front v queue p = record {
    stack = v ∷ p.stack;
    predecessors = p.predecessors;
    sigma = p.sigma;
    dist = p.dist;
    queue = queue;
  }

  -- The search; as elsewhere, spent fuel counts as a panic.
  unfoldable pub find_paths : ℕ → Graph → List String → Paths Number → Outcome (Paths Number)
  unfolding visit_all
  find_paths fuel adj [] p = done p
  find_paths zero adj (v ∷ queue) p = panic
  find_paths (suc fuel) adj (v ∷ queue) p = do
    d_v ← entry_of v p.dist
    q ← visit_all v d_v (neighbors_of adj v) (pop_front v queue p)
    find_paths fuel adj q.queue q

  -- The loop over the predecessors of `w`.
  unfoldable pub share :
      List (String × Number)
      → String
      → List String
      → List (String × Number)
      → Outcome (List (String × Number))
  share sigma w [] delta = done delta
  share sigma w (v ∷ ps) delta = do
    sigma_v ← entry_of v sigma
    sigma_w ← entry_of w sigma
    delta_w ← entry_of w delta
    old ← entry_of v delta
    share sigma w ps (put v (e.add old (e.mul (e.div sigma_v sigma_w) (e.add e.one delta_w))) delta)

  -- The betweenness of a node other than the start grows by its share.
  unfoldable pub credit :
      String
      → String
      → List (String × Number)
      → List (String × Number)
      → Outcome (List (String × Number))
  credit s w delta scores = do
    delta_w ← entry_of w delta
    old ← entry_of w scores
    done (put w (e.add old delta_w) scores)

  unfoldable pub back_propagate :
      String
      → Paths Number
      → List String
      → List (String × Number)
      → List (String × Number)
      → Outcome (List (String × Number))
  unfolding share credit
  back_propagate s p [] delta scores = done scores
  back_propagate s p (w ∷ stack) delta scores = do
    ps ← entry_of w p.predecessors
    shared ← share p.sigma w ps delta
    credited ← if w == s then done scores else credit s w shared scores
    back_propagate s p stack shared credited

  unfoldable pub run_from :
      List String → Graph → String → List (String × Number) → Outcome (List (String × Number))
  unfolding begin_paths find_paths back_propagate
  run_from nodes adj s scores = do
    p ← find_paths (suc (length nodes)) adj (s ∷ []) (begin_paths nodes s)
    back_propagate s p p.stack (fill e.zero_f nodes) scores

  unfoldable pub run_all :
      List String → Graph → List String → List (String × Number) → Outcome (List (String × Number))
  unfolding run_from
  run_all nodes adj [] scores = done scores
  run_all nodes adj (s ∷ starts) scores = run_from nodes adj s scores >>= run_all nodes adj starts

  abbrev pub halve : List (String × Number) → List (String × Number)
  halve [] = []
  halve (score ∷ scores) = (score.0, e.div score.1 e.two) ∷ halve scores

  unfoldable pub compute_betweenness : List String → Graph → Outcome (List (String × Number))
  unfolding run_all
  compute_betweenness nodes adj =
      run_all nodes adj nodes (fill e.zero_f nodes) >>= λ scores. done (halve scores)
