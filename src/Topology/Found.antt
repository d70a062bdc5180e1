-- ===== src/Topology/Found.antt =====
-- The result of `bfs_component` of gossip-monitor/src/topology.rs.
use podping_alpha.Prelude.{
  ℕ, zero, suc, ◌+◌, ◌≤◌, String, ◌≡◌, ap, subst, sym, List, [], ◌∷◌, ◌++◌, length, contains,
  contains-append, IsDistinct, Returns, Returns-imp, true, false, arith, str_eq_refl, ◌∙◌,
  append_assoc, append-nil, ◌↔◌, if_else, IsDistinct-snoc, eq_iff, refl,
}
use podping_alpha.Topology.{Graph, neighbors_of, scan, search, targets, insert, bfs_component}
use podping_alpha.Topology.Reachable.{IsReachable, along, here}
use podping_alpha.Topology.Search.{IsScanned, scan-IsScanned, unmarked, contains-snoc_elim}

-- The neighbors of a node are among those of all entries.
neighbors_of-targets :
    (adj : Graph) (node x : String)
    → contains (neighbors_of adj node) x ≡ true
    → contains (targets adj) x ≡ true
neighbors_of-targets [] node x h = h
neighbors_of-targets (entry ∷ adj) node x h =
    ground (arith, contains-append entry.1 (targets adj) x, neighbors_of-targets adj node x, h)

-- What a search that began with `marked` nodes, and later had marked `visited`, ends with.
record IsEnd (adj : Graph) (marked : List String) (start : String) (visited : List String)
    (found : List String × List String) : Type 0 where
  joined : found.0 ≡ marked ++ found.1
  distinct : IsDistinct found.0
  sound : (x : String) → contains found.1 x ≡ true → IsReachable adj marked start x
  closed :
      (x y : String)
      → contains found.1 x ≡ true
      → contains (neighbors_of adj x) y ≡ true
      → contains found.0 y ≡ true
  kept : (x : String) → contains visited x ≡ true → contains found.0 x ≡ true

module _ (adj : Graph) (marked : List String) (start : String) where
  apart :
      (component queue visited : List String) (x : String)
      → visited ≡ marked ++ component ++ queue
      → contains visited x ≡ false
      → contains marked x ≡ false
  apart component queue visited x j n =
      let known : contains (marked ++ component ++ queue) x ≡ false =
        subst (λ v. contains v x ≡ false) j n in
      ground (
        arith,
        known,
        contains-append (marked ++ component) queue x,
        contains-append marked component x,
      )

  search-IsEnd :
      (fuel : ℕ) (visited queue component : List String)
      → visited ≡ marked ++ component ++ queue
      → IsDistinct visited
      → ((x : String) → contains component x ≡ true → IsReachable adj marked start x)
      → ((x : String) → contains queue x ≡ true → IsReachable adj marked start x)
      → ((x y : String)
          → contains component x ≡ true
          → contains (neighbors_of adj x) y ≡ true
          → contains visited y ≡ true)
      → unmarked (targets adj) visited + length queue ≤ fuel
      → Returns (IsEnd adj marked start visited) (search fuel adj visited queue component)
  unfolding search
  search-IsEnd fuel visited [] component j d s q c f = record {
    joined = j ∙ append-nil (marked ++ component);
    distinct = d;
    sound = s;
    closed = c;
    kept = λ x h. h;
  }
  search-IsEnd zero visited (node ∷ queue) component j d s q c f = absurd (omega arith)
  search-IsEnd (suc fuel) visited (node ∷ queue) component j d s q c f =
      let reached : IsReachable adj marked start node = q node (ground (arith, str_eq_refl node)) in
      let before : List String = marked ++ (component ++ node ∷ []) in
      let scanned : List String × List String = scan (neighbors_of adj node) visited queue in
      let moved : visited ≡ before ++ queue =
        j
        ∙ sym (append_assoc (marked ++ component) (node ∷ []) queue)
        ∙ ap (λ v. v ++ queue) (append_assoc marked component (node ∷ [])) in
      let e : IsScanned (IsReachable adj marked start) (targets adj) before (neighbors_of adj node)
          visited queue scanned =
        scan-IsScanned (IsReachable adj marked start) (targets adj) before (neighbors_of adj node)
          visited queue moved d (λ x h. q x (ground (arith, h)))
          (λ x h n. along reached h (apart component (node ∷ queue) visited x j n))
          (neighbors_of-targets adj node) in
      Returns-imp (IsEnd adj marked start scanned.0) (IsEnd adj marked start visited)
        (λ found r. record {
          joined = r.joined;
          distinct = r.distinct;
          sound = r.sound;
          closed = r.closed;
          kept = λ x h. r.kept x (e.grown x h);
        })
        (search fuel adj scanned.0 scanned.1 (component ++ node ∷ []))
        (search-IsEnd fuel scanned.0 scanned.1 (component ++ node ∷ []) e.joined e.distinct
          (contains-snoc_elim (IsReachable adj marked start) component node s reached) e.sound
          (λ x y h k.
            contains-snoc_elim
              (λ a.
                (y : String) → contains (neighbors_of adj a) y ≡ true → contains scanned.0 y ≡ true)
              component node (λ a h y k. e.grown y (c a y h k)) e.covers x h y k)
          (omega (arith, e.bounded)))

-- What a search from an unmarked start returns: the marked nodes are the old ones and then the
-- component, none twice, and the component has the nodes that can be reached, and no others.
pub record IsComponent (adj : Graph) (marked : List String) (start : String)
    (found : List String × List String) : Type 0 where
  pub joined : found.0 ≡ marked ++ found.1
  pub distinct : IsDistinct found.0
  pub exact : (x : String) → (contains found.1 x ≡ true) ↔ IsReachable adj marked start x

insert-new :
    (marked : List String) (start : String)
    → contains marked start ≡ false
    → insert start marked ≡ marked ++ start ∷ []
insert-new marked start f =
    if_else (λ v. v ≡ marked ++ start ∷ []) (contains marked start) marked (marked ++ start ∷ []) f
      refl

inside :
    (adj : Graph) (marked : List String) (start : String) (found : List String × List String)
    → IsEnd adj marked start (marked ++ start ∷ []) found
    → (x : String) → contains found.0 x ≡ true
    → contains marked x ≡ false
    → contains found.1 x ≡ true
inside adj marked start found r x h n =
    let known : contains (marked ++ found.1) x ≡ true =
      subst (λ v. contains v x ≡ true) r.joined h in
    ground (arith, known, contains-append marked found.1 x)

complete :
    (adj : Graph) (marked : List String) (start : String) (found : List String × List String)
    → contains marked start ≡ false
    → IsEnd adj marked start (marked ++ start ∷ []) found
    → (x : String) → IsReachable adj marked start x
    → contains found.1 x ≡ true
complete adj marked start found f r x here =
    inside adj marked start found r start
      (r.kept start (ground (arith, contains-append marked (start ∷ []) start, str_eq_refl start)))
      f
complete adj marked start found f r b (along {a} w h n) =
    inside adj marked start found r b (r.closed a b (complete adj marked start found f r a w) h) n

unmarked-all : (entries marked : List String) → unmarked entries marked ≤ length entries
unmarked-all [] marked = omega arith
unmarked-all (x ∷ xs) marked = ground (arith, unmarked-all xs marked)

-- The search from an unmarked node, the marked ones all different, ends, whatever order the sets
-- are iterated in: the nodes that it marks are the ones marked before and then the component, none
-- of them twice, and the component has exactly the nodes that edges lead to from the start without
-- entering a node marked before.
pub bfs_component-IsComponent :
    (start : String) (adj : Graph) (visited : List String)
    → IsDistinct visited
    → contains visited start ≡ false
    → Returns (IsComponent adj visited start) (bfs_component start adj visited)
unfolding bfs_component
bfs_component-IsComponent start adj visited d f =
    subst
      (λ marked.
        Returns (IsComponent adj visited start)
          (search (suc (length (targets adj))) adj marked (start ∷ []) []))
      (sym (insert-new visited start f))
      (Returns-imp (IsEnd adj visited start (visited ++ start ∷ [])) (IsComponent adj visited start)
        (λ found r. record {
          joined = r.joined;
          distinct = r.distinct;
          exact = λ x. (r.sound x, complete adj visited start found f r x);
        })
        (search (suc (length (targets adj))) adj (visited ++ start ∷ []) (start ∷ []) [])
        (search-IsEnd adj visited start (suc (length (targets adj))) (visited ++ start ∷ [])
          (start ∷ []) [] (ap (λ v. v ++ start ∷ []) (sym (append-nil visited)))
          (IsDistinct-snoc visited start d f) (λ x h. absurd (ground (arith, h)))
          (λ x h.
            subst (IsReachable adj visited start) ((eq_iff start x).0 (ground (arith, h))) here)
          (λ x y h k. absurd (ground (arith, h)))
          (omega (arith, unmarked-all (targets adj) (visited ++ start ∷ [])))))
