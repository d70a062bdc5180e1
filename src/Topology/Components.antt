-- ===== src/Topology/Components.antt =====
-- The connected components that gossip-monitor/src/topology.rs finds.
use podping_alpha.Prelude.{
  String, ◌≡◌, ◌↔◌, refl, sym, subst, List, [], ◌∷◌, ◌++◌, contains, contains-append, All,
  All-append, IsDistinct, if_cases, done, Returns, Returns-bind, Returns-imp, true, false, arith,
  append_assoc, append-nil, ap, ◌∙◌, ◌⊎◌, inl, inr, str_eq_refl,
}
use podping_alpha.Topology.{Graph, bfs_component, next_component, components, neighbors_of}
use podping_alpha.Topology.Reachable.{
  IsReachable, IsSymmetric, IsClosed, IsReachable-trans, IsReachable-sym, IsReachable-avoid,
  IsReachable-forget, here, along,
}
use podping_alpha.Topology.Search.{contains-cons_elim}
use podping_alpha.Topology.Found.{IsComponent, bfs_component-IsComponent}

abbrev pub flatten : List (List String) → List String
flatten [] = []
flatten (c ∷ cs) = c ++ flatten cs

flatten-append : (cs ds : List (List String)) → flatten (cs ++ ds) ≡ flatten cs ++ flatten ds
flatten-append [] ds = refl
flatten-append (c ∷ cs) ds =
    ap (λ v. c ++ v) (flatten-append cs ds) ∙ sym (append_assoc c (flatten cs) (flatten ds))

-- The nodes of a class are the ones that are connected with any of them.
abbrev pub IsClass : Graph → List String → Type 0
IsClass adj c =
    (x y : String) → contains c x ≡ true → (contains c y ≡ true) ↔ IsReachable adj [] x y

-- A node is one of the nodes, or a neighbor of some node.
abbrev pub IsGiven : Graph → List String → String → Type 0
IsGiven adj nodes x =
    (contains nodes x ≡ true) ⊎ ((a : String) × (contains (neighbors_of adj a) x ≡ true))

IsReachable-IsGiven :
    (adj : Graph) (visited nodes : List String) (node x : String)
    → IsReachable adj visited node x
    → IsGiven adj (node ∷ nodes) x
IsReachable-IsGiven adj visited nodes node x here = inl (ground (arith, str_eq_refl node))
IsReachable-IsGiven adj visited nodes node x (along {a} w e n) = inr (a, e)

IsGiven-cons :
    (adj : Graph) (nodes : List String) (node x : String)
    → IsGiven adj nodes x
    → IsGiven adj (node ∷ nodes) x
IsGiven-cons adj nodes node x (inl h) = inl (ground (arith, h))
IsGiven-cons adj nodes node x (inr w) = inr w

contains-append_elim :
    (P : String → Type 0) (xs ys : List String)
    → ((x : String) → contains xs x ≡ true → P x)
    → ((x : String) → contains ys x ≡ true → P x)
    → (x : String) → contains (xs ++ ys) x ≡ true
    → P x
contains-append_elim P xs ys f g x h =
    if_cases (λ t. t ≡ true → P x) (contains xs x) true (contains ys x) (λ k _. f x k)
      (λ _ k. g x k) (ground (arith, h, contains-append xs ys x))

-- The marked nodes and a round's components.
record IsRound (adj : Graph) (node : String) (visited : List String)
    (round : List String × List (List String)) : Type 0 where
  joined : round.0 ≡ visited ++ flatten round.1
  distinct : IsDistinct round.0
  closed : IsClosed adj round.0
  present : contains round.0 node ≡ true
  classes : All (IsClass adj) round.1
  given :
      (nodes : List String) (x : String)
      → contains (flatten round.1) x ≡ true
      → IsGiven adj (node ∷ nodes) x

component-IsClass :
    (adj : Graph) (visited : List String) (start : String) (found : List String × List String)
    → IsSymmetric adj
    → IsClosed adj visited
    → contains visited start ≡ false
    → IsComponent adj visited start found
    → IsClass adj found.1
component-IsClass adj visited start found s c f r x y h =
    let w = IsReachable-forget adj visited start x ((r.exact x).0 h) in
    (
      (λ k.
          IsReachable-trans adj x start y (IsReachable-sym adj start x s w)
            (IsReachable-forget adj visited start y ((r.exact y).0 k))),
      (λ k.
          (r.exact y).1
            (IsReachable-avoid adj visited start y s c f (IsReachable-trans adj start x y w k))),
    )

component-IsClosed :
    (adj : Graph) (visited : List String) (start : String) (found : List String × List String)
    → IsSymmetric adj
    → IsClosed adj visited
    → contains visited start ≡ false
    → IsComponent adj visited start found
    → IsClosed adj found.0
component-IsClosed adj visited start found s c f r x y h e =
    let split : contains (visited ++ found.1) x ≡ true =
      subst (λ v. contains v x ≡ true) r.joined h in
    let old : contains visited x ≡ true → contains visited y ≡ true = λ k. c x y k e in
    let new : contains found.1 x ≡ true → contains found.1 y ≡ true =
      λ k. (component-IsClass adj visited start found s c f r x y k).1 (along here e refl) in
    subst (λ v. contains v y ≡ true) (sym r.joined)
      (ground (
        arith,
        split,
        old,
        new,
        contains-append visited found.1 x,
        contains-append visited found.1 y,
      ))

next_component-IsRound :
    (node : String) (adj : Graph) (visited : List String)
    → IsSymmetric adj
    → IsDistinct visited
    → IsClosed adj visited
    → Returns (IsRound adj node visited) (next_component node adj visited)
unfolding next_component
next_component-IsRound node adj visited s d c =
    if_cases (Returns (IsRound adj node visited)) (contains visited node) _ _
      (λ old. record {
        joined = sym (append-nil visited);
        distinct = d;
        closed = c;
        present = old;
        classes = tt;
        given = λ nodes x h. absurd (ground (arith, h));
      })
      (λ f.
        Returns-bind (IsComponent adj visited node) (IsRound adj node visited)
          (bfs_component node adj visited) _ (bfs_component-IsComponent node adj visited d f)
          (λ found r. record {
            joined = r.joined ∙ ap (λ v. visited ++ v) (sym (append-nil found.1));
            distinct = r.distinct;
            closed = component-IsClosed adj visited node found s c f r;
            present =
                subst (λ v. contains v node ≡ true) (sym r.joined)
                  (ground (arith, (r.exact node).1 here, contains-append visited found.1 node));
            classes = (component-IsClass adj visited node found s c f r, tt);
            given = λ nodes x h.
                IsReachable-IsGiven adj visited nodes node x
                  ((r.exact x).0 (subst (λ v. contains v x ≡ true) (append-nil found.1) h));
          }))

-- The components that are still to be found when `visited` are marked.
record IsRest (adj : Graph) (nodes visited : List String) (cs : List (List String)) : Type 0 where
  distinct : IsDistinct (visited ++ flatten cs)
  covering : (x : String) → contains nodes x ≡ true → contains (visited ++ flatten cs) x ≡ true
  classes : All (IsClass adj) cs
  given : (x : String) → contains (flatten cs) x ≡ true → IsGiven adj nodes x

components-IsRest :
    (nodes : List String) (adj : Graph) (visited : List String)
    → IsSymmetric adj
    → IsDistinct visited
    → IsClosed adj visited
    → Returns (IsRest adj nodes visited) (components nodes adj visited)
unfolding components
components-IsRest [] adj visited s d c = record {
  distinct = subst IsDistinct (sym (append-nil visited)) d;
  covering = λ x h. absurd (ground (arith, h));
  classes = tt;
  given = λ x h. absurd (ground (arith, h));
}
components-IsRest (node ∷ nodes) adj visited s d c =
    Returns-bind (IsRound adj node visited) (IsRest adj (node ∷ nodes) visited)
      (next_component node adj visited) _ (next_component-IsRound node adj visited s d c)
      (λ round r.
        Returns-bind (IsRest adj nodes round.0) (IsRest adj (node ∷ nodes) visited)
          (components nodes adj round.0) (λ more. done (round.1 ++ more))
          (components-IsRest nodes adj round.0 s r.distinct r.closed)
          (λ more q.
            let joined : round.0 ++ flatten more ≡ visited ++ flatten (round.1 ++ more) =
              ap (λ v. v ++ flatten more) r.joined
              ∙ append_assoc visited (flatten round.1) (flatten more)
              ∙ ap (λ v. visited ++ v) (sym (flatten-append round.1 more)) in
            record {
              distinct = subst IsDistinct joined q.distinct;
              covering = λ x h.
                  subst (λ v. contains v x ≡ true) joined
                    (contains-cons_elim (λ x. contains (round.0 ++ flatten more) x ≡ true) node
                      nodes (ground (arith, r.present, contains-append round.0 (flatten more) node))
                      q.covering x h);
              classes = All-append (IsClass adj) round.1 more r.classes q.classes;
              given = λ x h.
                  contains-append_elim (IsGiven adj (node ∷ nodes)) (flatten round.1) (flatten more)
                    (r.given nodes) (λ x k. IsGiven-cons adj nodes node x (q.given x k)) x
                    (subst (λ v. contains v x ≡ true) (flatten-append round.1 more) h);
            }))

-- The components that a whole map has.
pub record IsPartition (adj : Graph) (nodes : List String) (cs : List (List String)) : Type 0 where
  pub distinct : IsDistinct (flatten cs)
  pub covering : (x : String) → contains nodes x ≡ true → contains (flatten cs) x ≡ true
  pub classes : All (IsClass adj) cs
  pub given : (x : String) → contains (flatten cs) x ≡ true → IsGiven adj nodes x

-- On the map of an undirected graph the loop ends, whatever order the sets are iterated in: every
-- node is in one of the components and in no two, nothing but the nodes and neighbors of nodes is in
-- one, and what is in a component is in it with exactly what edges connect it to.
pub components-IsPartition :
    (nodes : List String) (adj : Graph)
    → IsSymmetric adj
    → Returns (IsPartition adj nodes) (components nodes adj [])
components-IsPartition nodes adj s =
    Returns-imp (IsRest adj nodes []) (IsPartition adj nodes)
      (λ cs r. record {
        distinct = r.distinct;
        covering = r.covering;
        classes = r.classes;
        given = r.given;
      })
      (components nodes adj [])
      (components-IsRest nodes adj [] s tt (λ x y h e. absurd (ground (arith, h))))
