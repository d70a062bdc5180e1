-- ===== src/Topology/Scores.antt =====
-- The scores of `compute_betweenness` of gossip-monitor/src/topology.rs.
use podping_alpha.Prelude.{
  ℕ, suc, ◌≤◌, String, true, ◌≡◌, refl, sym, subst, ◌∙◌, List, [], ◌∷◌, length, contains,
  if◌then◌else◌, if_cases, if_elim, ◌==◌, some, done, Returns, Returns-bind, get, put, has, has-put,
  get-put, entry_of, entry_of-has, arith, eq_iff, str_eq_refl, some-injective,
}
use podping_alpha.Topology.{Graph, neighbors_of}
use podping_alpha.Topology.Betweenness.{
  Floats, Paths, fill, begin_paths, find_paths, share, credit, back_propagate, run_from, run_all,
  halve, compute_betweenness,
}
use podping_alpha.Topology.Paths.{IsFull, IsFull-put, IsPaths, unset, find_paths-IsPaths}

-- The keys of the map are the nodes.
abbrev pub IsScored {ℓ} : {A : Type ℓ} → List String → List (String × A) → Type 0
IsScored nodes map = (x : String) → has x map ≡ contains nodes x

fill-IsScored {ℓ} : {A : Type ℓ} (a : A) (nodes : List String) → IsScored nodes (fill a nodes)
unfolding fill
fill-IsScored a [] x = refl
fill-IsScored a (node ∷ nodes) x =
    ground (arith, has-put node a (fill a nodes) x, fill-IsScored a nodes x)

fill-IsFull {ℓ} : {A : Type ℓ} (a : A) (nodes : List String) → IsFull nodes (fill a nodes)
fill-IsFull a nodes x h = fill-IsScored a nodes x ∙ h

fill-get {ℓ} :
    {A : Type ℓ} (a b : A) (nodes : List String) (x : String)
    → get x (fill a nodes) ≡ some b
    → a ≡ b
unfolding fill get
fill-get a b [] x h = absurd (ground (arith, h))
fill-get a b (node ∷ nodes) x h =
    if_cases (λ o. o ≡ some b → a ≡ b) (node == x) (some a) (get x (fill a nodes))
      (λ _ q. some-injective a b q) (λ _ q. fill-get a b nodes x q)
      (sym (get-put node a (fill a nodes) x) ∙ h)

unset-le : (nodes : List String) (dist : List (String × ℕ)) → unset nodes dist ≤ length nodes
unset-le [] dist = omega arith
unset-le (x ∷ nodes) dist = ground (arith, unset-le nodes dist)

module _ (e : Floats) (nodes : List String) where
  begin_paths-IsPaths :
      (s : String)
      → contains nodes s ≡ true
      → IsPaths e.F64 nodes (suc (length nodes)) (begin_paths e nodes s)
  unfolding begin_paths
  begin_paths-IsPaths s h = record {
    origins = fill-IsFull [] nodes;
    sigma = IsFull-put nodes s e.one (fill e.zero_f nodes) (fill-IsFull e.zero_f nodes);
    dist = IsFull-put nodes s 1 (fill 0 nodes) (fill-IsFull 0 nodes);
    stack = λ x k. absurd (ground (arith, k));
    queue = λ x k. subst (λ v. contains nodes v ≡ true) ((eq_iff s x).0 (ground (arith, k))) h;
    sources = λ k ps g x m.
        absurd
          (ground (arith, subst (λ l. contains l x ≡ true) (sym (fill-get [] ps nodes k g)) m));
    bounded = omega (arith, unset-le nodes (put s 1 (fill 0 nodes)));
  }

  share-IsFull :
      (sigma : List (String × e.F64)) (w : String) (ps : List String)
      (delta : List (String × e.F64))
      → IsFull nodes sigma
      → contains nodes w ≡ true
      → ((x : String) → contains ps x ≡ true → contains nodes x ≡ true)
      → IsFull nodes delta
      → Returns (IsFull nodes) (share e sigma w ps delta)
  unfolding share
  share-IsFull sigma w [] delta f h s d = d
  share-IsFull sigma w (v ∷ ps) delta f h s d =
      let hv = s v (ground (arith, str_eq_refl v)) in
      Returns-bind (λ a. get v sigma ≡ some a) (IsFull nodes) (entry_of v sigma) _
        (entry_of-has v sigma (f v hv))
        (λ a _.
          Returns-bind (λ b. get w sigma ≡ some b) (IsFull nodes) (entry_of w sigma) _
            (entry_of-has w sigma (f w h))
            (λ b _.
              Returns-bind (λ c. get w delta ≡ some c) (IsFull nodes) (entry_of w delta) _
                (entry_of-has w delta (d w h))
                (λ c _.
                  Returns-bind (λ o. get v delta ≡ some o) (IsFull nodes) (entry_of v delta) _
                    (entry_of-has v delta (d v hv))
                    (λ o _.
                      share-IsFull sigma w ps
                        (put v (e.add o (e.mul (e.div a b) (e.add e.one c))) delta) f h
                        (λ x k. s x (ground (arith, k)))
                        (IsFull-put nodes v (e.add o (e.mul (e.div a b) (e.add e.one c))) delta
                          d)))))

  credit-IsScored :
      (s w : String) (delta scores : List (String × e.F64))
      → contains nodes w ≡ true
      → IsFull nodes delta
      → IsScored nodes scores
      → Returns (IsScored nodes) (credit e s w delta scores)
  unfolding credit
  credit-IsScored s w delta scores h d i =
      Returns-bind (λ a. get w delta ≡ some a) (IsScored nodes) (entry_of w delta) _
        (entry_of-has w delta (d w h))
        (λ a _.
          Returns-bind (λ b. get w scores ≡ some b) (IsScored nodes) (entry_of w scores) _
            (entry_of-has w scores (i w ∙ h))
            (λ b _ x. ground (arith, has-put w (e.add b a) scores x, i x, eq_iff w x, h)))

  back_propagate-IsScored :
      (s : String) (bound : ℕ) (p : Paths e.F64)
      → IsPaths e.F64 nodes bound p
      → (stack : List String) → ((x : String) → contains stack x ≡ true → contains nodes x ≡ true)
      → (delta scores : List (String × e.F64)) → IsFull nodes delta
      → IsScored nodes scores
      → Returns (IsScored nodes) (back_propagate e s p stack delta scores)
  unfolding back_propagate
  back_propagate-IsScored s bound p j [] h delta scores d i = i
  back_propagate-IsScored s bound p j (w ∷ stack) h delta scores d i =
      let hw = h w (ground (arith, str_eq_refl w)) in
      Returns-bind (λ ps. get w p.predecessors ≡ some ps) (IsScored nodes)
        (entry_of w p.predecessors) _ (entry_of-has w p.predecessors (j.origins w hw))
        (λ ps known.
          Returns-bind (IsFull nodes) (IsScored nodes) (share e p.sigma w ps delta) _
            (share-IsFull p.sigma w ps delta j.sigma hw (j.sources w ps known) d)
            (λ shared q.
              Returns-bind (IsScored nodes) (IsScored nodes)
                (if w == s then done scores else credit e s w shared scores) _
                (if_elim (Returns (IsScored nodes)) (w == s) (done scores)
                  (credit e s w shared scores) i (credit-IsScored s w shared scores hw q i))
                (λ credited c.
                  back_propagate-IsScored s bound p j stack (λ x k. h x (ground (arith, k))) shared
                    credited q c)))

  module _ (adj : Graph)
      (inside : (x y : String)
        → contains (neighbors_of adj x) y ≡ true
        → contains nodes y ≡ true) where
    run_from-IsScored :
        (s : String) (scores : List (String × e.F64))
        → contains nodes s ≡ true
        → IsScored nodes scores
        → Returns (IsScored nodes) (run_from e nodes adj s scores)
    unfolding run_from begin_paths
    run_from-IsScored s scores h i =
        Returns-bind (λ q. (bound : ℕ) × IsPaths e.F64 nodes bound q) (IsScored nodes)
          (find_paths e (suc (length nodes)) adj (s ∷ []) (begin_paths e nodes s)) _
          (find_paths-IsPaths e nodes adj inside (suc (length nodes)) (s ∷ [])
            (begin_paths e nodes s) refl (begin_paths-IsPaths s h))
          (λ p j.
            back_propagate-IsScored s j.0 p j.1 p.stack j.1.stack (fill e.zero_f nodes) scores
              (fill-IsFull e.zero_f nodes) i)

    run_all-IsScored :
        (starts : List String) (scores : List (String × e.F64))
        → ((x : String) → contains starts x ≡ true → contains nodes x ≡ true)
        → IsScored nodes scores
        → Returns (IsScored nodes) (run_all e nodes adj starts scores)
    unfolding run_all
    run_all-IsScored [] scores h i = i
    run_all-IsScored (s ∷ starts) scores h i =
        Returns-bind (IsScored nodes) (IsScored nodes) (run_from e nodes adj s scores)
          (run_all e nodes adj starts)
          (run_from-IsScored s scores (h s (ground (arith, str_eq_refl s))) i)
          (λ more j. run_all-IsScored starts more (λ x k. h x (ground (arith, k))) j)

  halve-IsScored :
      (scores : List (String × e.F64)) (x : String) → has x (halve e scores) ≡ has x scores
  halve-IsScored [] x = refl
  halve-IsScored (score ∷ scores) x = ground (arith, halve-IsScored scores x)

-- Where every neighbor in the map is one of the nodes, the computation ends, no index and no
-- `unwrap` of it panics, and it scores exactly the nodes, whatever the operations on `f64` are.
pub compute_betweenness-IsScored :
    (e : Floats) (nodes : List String) (adj : Graph)
    → ((x y : String) → contains (neighbors_of adj x) y ≡ true → contains nodes y ≡ true)
    → Returns (IsScored nodes) (compute_betweenness e nodes adj)
unfolding compute_betweenness
compute_betweenness-IsScored e nodes adj inside =
    Returns-bind (IsScored nodes) (IsScored nodes) (run_all e nodes adj nodes (fill e.zero_f nodes))
      (λ scores. done (halve e scores))
      (run_all-IsScored e nodes adj inside nodes (fill e.zero_f nodes) (λ x h. h)
        (fill-IsScored e.zero_f nodes))
      (λ scores i x. halve-IsScored e nodes scores x ∙ i x)
