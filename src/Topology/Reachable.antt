-- ===== src/Topology/Reachable.antt =====
-- The nodes that a search over an adjacency map can get to.
use podping_alpha.Prelude.{String, List, [], ◌≡◌, refl, true, false, contains, arith}
use podping_alpha.Topology.{Graph, neighbors_of}

-- The nodes that edges lead to from a start, none of the later ones marked.
pub data IsReachable (adj : Graph) (marked : List String) (start : String) : String → Type 0 where
  here : IsReachable adj marked start start
  along :
      {a b : String}
      → IsReachable adj marked start a
      → contains (neighbors_of adj a) b ≡ true
      → contains marked b ≡ false
      → IsReachable adj marked start b

-- As in the map of an undirected graph.
abbrev pub IsSymmetric : Graph → Type 0
IsSymmetric adj =
    (x y : String) → contains (neighbors_of adj x) y ≡ true → contains (neighbors_of adj y) x ≡ true

-- No edge leaves the nodes of a list.
abbrev pub IsClosed : Graph → List String → Type 0
IsClosed adj set =
    (x y : String)
    → contains set x ≡ true
    → contains (neighbors_of adj x) y ≡ true
    → contains set y ≡ true

module _ (adj : Graph) where
  pub IsReachable-trans :
      (x y z : String) → IsReachable adj [] x y → IsReachable adj [] y z → IsReachable adj [] x z
  IsReachable-trans x y z h here = h
  IsReachable-trans x y z h (along {a} w e n) = along (IsReachable-trans x y a h w) e n

  pub IsReachable-sym :
      (x y : String) → IsSymmetric adj → IsReachable adj [] x y → IsReachable adj [] y x
  IsReachable-sym x y s here = here
  IsReachable-sym x y s (along {a} w e n) =
      IsReachable-trans y a x (along here (s a y e) refl) (IsReachable-sym x a s w)

  outside :
      (visited : List String) (start x : String)
      → IsSymmetric adj
      → IsClosed adj visited
      → contains visited start ≡ false
      → IsReachable adj [] start x
      → contains visited x ≡ false
  outside visited start x s c f here = f
  outside visited start x s c f (along {a} w e n) =
      let back : contains visited x ≡ true → contains visited a ≡ true = λ h. c x a h (s a x e) in
      let old = outside visited start a s c f w in ground (arith, back, old)

  -- What is closed under the edges of a symmetric map does not stand in the way.
  pub IsReachable-avoid :
      (visited : List String) (start x : String)
      → IsSymmetric adj
      → IsClosed adj visited
      → contains visited start ≡ false
      → IsReachable adj [] start x
      → IsReachable adj visited start x
  IsReachable-avoid visited start x s c f here = here
  IsReachable-avoid visited start x s c f (along {a} w e n) =
      along (IsReachable-avoid visited start a s c f w) e
        (outside visited start x s c f (along w e n))

  pub IsReachable-forget :
      (visited : List String) (start x : String)
      → IsReachable adj visited start x
      → IsReachable adj [] start x
  IsReachable-forget visited start x here = here
  IsReachable-forget visited start x (along {a} w e n) =
      along (IsReachable-forget visited start a w) e refl
