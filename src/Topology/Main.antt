-- ===== src/Topology/Main.antt =====
-- The main component in step 4 of `analyze_topology` of gossip-monitor/src/topology.rs.
use podping_alpha.Prelude.{
  ℕ, zero, suc, ◌+◌, ◌≤◌, String, true, ◌||◌, ◌≡◌, refl, subst, List, [], ◌∷◌, ◌++◌, length, select,
  All, contains, contains-append, eqb, if_then, if_else, Outcome, done, panic, Returns, Returns-imp,
  arith,
}
use podping_alpha.Topology.Components.{flatten}
use podping_alpha.Topology.Betweenness.{Floats}
use podping_alpha.Topology.Tops.{named}
use podping_alpha.Topology.Analysis.{
  PeerSuggestion, component_at, top_betweenness, suggest_each, suggest_isolated,
}

-- Some suggestion is for the node.
abbrev pub target : {F64 : Type 0} → PeerSuggestion F64 → String
target s = s.target_node_id

pub named-append {ℓ} :
    {A : Type ℓ} (name : A → String) (xs ys : List A) (s : String)
    → named name (xs ++ ys) s ≡ (named name xs s || named name ys s)
named-append name [] ys s = refl
named-append name (x ∷ xs) ys s = ground (arith, named-append name xs ys s)

module _ (e : Floats) (collect : ℕ → List (String × e.F64) → List (String × e.F64))
    (scores : List (String × e.F64)) (main : List String) where
  named-suggest_each :
      (suggested c : List String) (x : String)
      → named target (suggest_each e suggested c) x ≡ contains c x
  unfolding suggest_each
  named-suggest_each suggested [] x = refl
  named-suggest_each suggested (t ∷ c) x = ground (arith, named-suggest_each suggested c x)

  beyond :
      (largest i : ℕ) (cs : List (List String)) (x : String)
      → suc largest ≤ i
      → contains (flatten cs) x ≡ true
      → named target (suggest_isolated e collect scores main largest i cs) x ≡ true
  unfolding suggest_isolated
  beyond largest i [] x l h = h
  beyond largest i (c ∷ cs) x l h =
      let left = collect i (select (λ (a : String × e.F64). contains main a.0) scores) in
      let suggested = top_betweenness e left c 3 in
      let rest = suggest_isolated e collect scores main largest (suc i) cs in
      if_else (λ v. named target v x ≡ true) (eqb i largest) rest
        (suggest_each e suggested c ++ rest) (ground arith)
        (ground (
          arith,
          h,
          contains-append c (flatten cs) x,
          named-append target (suggest_each e suggested c) rest x,
          named-suggest_each suggested c x,
          beyond largest (suc i) cs x (omega arith),
        ))

-- The component `c`: the others are suggested for.
module _ (e : Floats) (collect : ℕ → List (String × e.F64) → List (String × e.F64)) where
  pub record IsMain (largest i : ℕ) (cs : List (List String)) (c : List String) : Type 0 where
    pub within : (x : String) → contains c x ≡ true → contains (flatten cs) x ≡ true
    pub covers :
        (scores : List (String × e.F64)) (main : List String) (x : String)
        → contains (flatten cs) x ≡ true
        → (contains c x || named target (suggest_isolated e collect scores main largest i cs) x)
          ≡ true

  pub component_at-IsMain :
      (k i : ℕ) (cs : List (List String))
      → suc k ≤ length cs
      → Returns (IsMain (k + i) i cs) (component_at k cs)
  unfolding component_at suggest_isolated
  component_at-IsMain k i [] l = absurd (omega arith)
  component_at-IsMain zero i (c ∷ cs) l = record {
    within = λ x h. ground (arith, h, contains-append c (flatten cs) x);
    covers = λ scores main x h.
        if_then (λ v. (contains c x || named target v x) ≡ true) (eqb i (zero + i))
          (suggest_isolated e collect scores main (zero + i) (suc i) cs)
          (suggest_each e
              (top_betweenness e
                (collect i (select (λ (a : String × e.F64). contains main a.0) scores)) c 3)
              c
            ++ suggest_isolated e collect scores main (zero + i) (suc i) cs)
          (ground arith)
          (ground (
            arith,
            h,
            contains-append c (flatten cs) x,
            beyond e collect scores main (zero + i) (suc i) cs x (omega arith),
          ));
  }
  component_at-IsMain (suc k) i (c ∷ cs) l =
      Returns-imp (IsMain (k + suc i) (suc i) cs) (IsMain (suc k + i) i (c ∷ cs))
        (λ d f. record {
          within = λ x h. ground (arith, f.within x h, contains-append c (flatten cs) x);
          covers = λ scores main x h.
              let left = collect i (select (λ (a : String × e.F64). contains main a.0) scores) in
              let each = suggest_each e (top_betweenness e left c 3) c in
              let rest = suggest_isolated e collect scores main (suc k + i) (suc i) cs in
              let old : contains (flatten cs) x ≡ true
                  → (contains d x || named target rest x) ≡ true =
                λ m.
                  subst
                    (λ n.
                      (contains d x
                        || named target (suggest_isolated e collect scores main n (suc i) cs) x)
                      ≡ true)
                    (omega arith) (f.covers scores main x m) in
              if_else (λ v. (contains d x || named target v x) ≡ true) (eqb i (suc k + i)) rest
                (each ++ rest) (ground arith)
                (ground (
                  arith,
                  h,
                  old,
                  contains-append c (flatten cs) x,
                  named-append target each rest x,
                  named-suggest_each e collect scores main (top_betweenness e left c 3) c x,
                ));
        })
        (component_at k cs) (component_at-IsMain k (suc i) cs (omega arith))

pub Returns-both :
    {A : Type 0} (P Q : A → Type 0) (m : Outcome A)
    → Returns P m
    → Returns Q m
    → Returns (λ a. P a × Q a) m
Returns-both P Q (done a) p q = (p, q)
Returns-both P Q panic p q = p

pub component_at-All :
    (P : List String → Type 0) (k : ℕ) (cs : List (List String))
    → suc k ≤ length cs
    → All P cs
    → Returns P (component_at k cs)
unfolding component_at
component_at-All P k [] l h = absurd (omega arith)
component_at-All P zero (c ∷ cs) l h = h.0
component_at-All P (suc k) (c ∷ cs) l h = component_at-All P k cs (omega arith) h.1
