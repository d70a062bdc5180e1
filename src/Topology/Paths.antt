-- ===== src/Topology/Paths.antt =====
-- The searches of `compute_betweenness` of gossip-monitor/src/topology.rs end and do not panic.
use podping_alpha.Prelude.{
  ℕ, zero, suc, ◌+◌, ◌≤◌, String, Bool, true, false, ◌≡◌, refl, sym, subst, ap, List, [], ◌∷◌, ◌++◌,
  length, length-append, contains, eqb, if◌then◌else◌, if_cases, ◌==◌, Option, none, some, done,
  Returns, Returns-bind, get, put, has, has-put, get-put, entry_of, entry_of-has, arith, eq_iff,
  ◌∙◌, some-injective, str_eq_refl, if_elim,
}
use podping_alpha.Topology.{Graph, neighbors_of}
use podping_alpha.Topology.Search.{contains-snoc_elim, contains-cons_elim}
use podping_alpha.Topology.Betweenness.{
  Floats, Paths, discover, count_path, visit, visit_all, find_paths, pop_front,
}

-- The map has a value for each node.
abbrev pub IsFull {ℓ} : {A : Type ℓ} → List String → List (String × A) → Type 0
IsFull nodes map = (x : String) → contains nodes x ≡ true → has x map ≡ true

pub IsFull-put {ℓ} :
    {A : Type ℓ} (nodes : List String) (k : String) (a : A) (map : List (String × A))
    → IsFull nodes map
    → IsFull nodes (put k a map)
IsFull-put nodes k a map f x h = ground (arith, f x h, has-put k a map x)

abbrev is_unset : Option ℕ → Bool
is_unset none = false
is_unset (some d) = eqb d 0

-- How many nodes no path has reached.
abbrev pub unset : List String → List (String × ℕ) → ℕ
unset [] dist = 0
unset (x ∷ nodes) dist =
    let rest = unset nodes dist in if is_unset (get x dist) then suc rest else rest

unset-put_le :
    (nodes : List String) (w : String) (d : ℕ) (dist : List (String × ℕ))
    → unset nodes (put w (suc d) dist) ≤ unset nodes dist
unset-put_le [] w d dist = omega arith
unset-put_le (x ∷ nodes) w d dist =
    if_cases
      (λ o.
        get x (put w (suc d) dist) ≡ o
        → unset (x ∷ nodes) (put w (suc d) dist) ≤ unset (x ∷ nodes) dist)
      (w == x) (some (suc d)) (get x dist) (λ t q. ground (arith, q, unset-put_le nodes w d dist))
      (λ f q. ground (arith, q, unset-put_le nodes w d dist)) (get-put w (suc d) dist x)

unset-put_lt :
    (nodes : List String) (w : String) (d : ℕ) (dist : List (String × ℕ))
    → contains nodes w ≡ true
    → get w dist ≡ some 0
    → suc (unset nodes (put w (suc d) dist)) ≤ unset nodes dist
unset-put_lt [] w d dist h z = absurd (ground (arith, h))
unset-put_lt (x ∷ nodes) w d dist h z =
    if_cases
      (λ o.
        get x (put w (suc d) dist) ≡ o
        → suc (unset (x ∷ nodes) (put w (suc d) dist)) ≤ unset (x ∷ nodes) dist)
      (w == x) (some (suc d)) (get x dist)
      (λ t q. ground (
        arith,
        q,
        subst (λ v. get v dist ≡ some 0) ((eq_iff w x).0 t) z,
        unset-put_le nodes w d dist,
      ))
      (λ f q. ground (arith, q, unset-put_lt nodes w d dist, eq_iff x w)) (get-put w (suc d) dist x)

-- The maps have a value for each node, the lists have only nodes, and what is left to do is bounded.
pub record IsPaths (F64 : Type 0) (nodes : List String) (bound : ℕ) (p : Paths F64) : Type 0 where
  pub origins : IsFull nodes p.predecessors
  pub sigma : IsFull nodes p.sigma
  pub dist : IsFull nodes p.dist
  pub stack : (x : String) → contains p.stack x ≡ true → contains nodes x ≡ true
  pub queue : (x : String) → contains p.queue x ≡ true → contains nodes x ≡ true
  pub sources :
      (k : String) (ps : List String)
      → get k p.predecessors ≡ some ps
      → (x : String) → contains ps x ≡ true
      → contains nodes x ≡ true
  pub bounded : unset nodes p.dist + length p.queue ≤ bound

module _ (e : Floats) (nodes : List String) (bound : ℕ) where
  discover-IsPaths :
      (d_v : ℕ) (w : String) (p : Paths e.F64)
      → contains nodes w ≡ true
      → IsPaths e.F64 nodes bound p
      → Returns (IsPaths e.F64 nodes bound) (discover e d_v w p)
  unfolding discover
  discover-IsPaths d_v w p h i =
      Returns-bind (λ d. get w p.dist ≡ some d) (IsPaths e.F64 nodes bound) (entry_of w p.dist) _
        (entry_of-has w p.dist (i.dist w h))
        (λ d known.
          if_cases (IsPaths e.F64 nodes bound) (eqb d 0) _ _
            (λ t.
              let fresh : get w p.dist ≡ some 0 = known ∙ ap some (ground arith) in
              record {
                origins = i.origins;
                sigma = i.sigma;
                dist = IsFull-put nodes w (suc d_v) p.dist i.dist;
                stack = i.stack;
                queue = contains-snoc_elim (λ x. contains nodes x ≡ true) p.queue w i.queue h;
                sources = i.sources;
                bounded = omega (
                  arith,
                  i.bounded,
                  length-append p.queue (w ∷ []),
                  unset-put_lt nodes w d_v p.dist h fresh,
                );
              })
            (λ f. i))

  sources-put :
      (v w : String) (p : Paths e.F64) (ps : List String)
      → contains nodes v ≡ true
      → get w p.predecessors ≡ some ps
      → ((k : String) (qs : List String)
          → get k p.predecessors ≡ some qs
          → (x : String) → contains qs x ≡ true
          → contains nodes x ≡ true)
      → (k : String) (qs : List String) → get k (put w (ps ++ v ∷ []) p.predecessors) ≡ some qs
      → (x : String) → contains qs x ≡ true
      → contains nodes x ≡ true
  sources-put v w p ps hv known s k qs g =
      if_cases (λ o. o ≡ some qs → (x : String) → contains qs x ≡ true → contains nodes x ≡ true)
        (w == k) (some (ps ++ v ∷ [])) (get k p.predecessors)
        (λ _ q.
          subst (λ l. (x : String) → contains l x ≡ true → contains nodes x ≡ true)
            (some-injective (ps ++ v ∷ []) qs q)
            (contains-snoc_elim (λ x. contains nodes x ≡ true) ps v (s w ps known) hv))
        (λ _ q. s k qs q) (sym (get-put w (ps ++ v ∷ []) p.predecessors k) ∙ g)

  count_path-IsPaths :
      (v w : String) (p : Paths e.F64)
      → contains nodes v ≡ true
      → contains nodes w ≡ true
      → IsPaths e.F64 nodes bound p
      → Returns (IsPaths e.F64 nodes bound) (count_path e v w p)
  unfolding count_path
  count_path-IsPaths v w p hv hw i =
      Returns-bind (λ more. get v p.sigma ≡ some more) (IsPaths e.F64 nodes bound)
        (entry_of v p.sigma) _ (entry_of-has v p.sigma (i.sigma v hv))
        (λ more _.
          Returns-bind (λ old. get w p.sigma ≡ some old) (IsPaths e.F64 nodes bound)
            (entry_of w p.sigma) _ (entry_of-has w p.sigma (i.sigma w hw))
            (λ old _.
              Returns-bind (λ ps. get w p.predecessors ≡ some ps) (IsPaths e.F64 nodes bound)
                (entry_of w p.predecessors) _ (entry_of-has w p.predecessors (i.origins w hw))
                (λ ps known. record {
                  origins = IsFull-put nodes w (ps ++ v ∷ []) p.predecessors i.origins;
                  sigma = IsFull-put nodes w (e.add old more) p.sigma i.sigma;
                  dist = i.dist;
                  stack = i.stack;
                  queue = i.queue;
                  sources = sources-put v w p ps hv known i.sources;
                  bounded = i.bounded;
                })))

  visit-IsPaths :
      (v : String) (d_v : ℕ) (w : String) (p : Paths e.F64)
      → contains nodes v ≡ true
      → contains nodes w ≡ true
      → IsPaths e.F64 nodes bound p
      → Returns (IsPaths e.F64 nodes bound) (visit e v d_v w p)
  unfolding visit
  visit-IsPaths v d_v w p hv hw i =
      Returns-bind (IsPaths e.F64 nodes bound) (IsPaths e.F64 nodes bound) (discover e d_v w p) _
        (discover-IsPaths d_v w p hw i)
        (λ q j.
          Returns-bind (λ d. get w q.dist ≡ some d) (IsPaths e.F64 nodes bound) (entry_of w q.dist)
            _ (entry_of-has w q.dist (j.dist w hw))
            (λ d _.
              if_elim (Returns (IsPaths e.F64 nodes bound)) (eqb d (suc d_v)) (count_path e v w q)
                (done q) (count_path-IsPaths v w q hv hw j) j))

  pub visit_all-IsPaths :
      (v : String) (d_v : ℕ) (neighbors : List String) (p : Paths e.F64)
      → contains nodes v ≡ true
      → ((x : String) → contains neighbors x ≡ true → contains nodes x ≡ true)
      → IsPaths e.F64 nodes bound p
      → Returns (IsPaths e.F64 nodes bound) (visit_all e v d_v neighbors p)
  unfolding visit_all
  visit_all-IsPaths v d_v [] p hv h i = i
  visit_all-IsPaths v d_v (w ∷ neighbors) p hv h i =
      Returns-bind (IsPaths e.F64 nodes bound) (IsPaths e.F64 nodes bound) (visit e v d_v w p) _
        (visit-IsPaths v d_v w p hv (h w (ground (arith, str_eq_refl w))) i)
        (λ q j. visit_all-IsPaths v d_v neighbors q hv (λ x k. h x (ground (arith, k))) j)

-- The loop ends, with maps that have a value for each node, and lists that have only nodes.
pub find_paths-IsPaths :
    (e : Floats) (nodes : List String) (adj : Graph)
    → ((x y : String) → contains (neighbors_of adj x) y ≡ true → contains nodes y ≡ true)
    → (fuel : ℕ) (queue : List String) (p : Paths e.F64) → p.queue ≡ queue
    → IsPaths e.F64 nodes fuel p
    → Returns (λ q. (bound : ℕ) × IsPaths e.F64 nodes bound q) (find_paths e fuel adj queue p)
unfolding find_paths
find_paths-IsPaths e nodes adj h fuel [] p r i = (fuel, i)
find_paths-IsPaths e nodes adj h zero (v ∷ queue) p r i =
    absurd (omega (arith, i.bounded, ap length r))
find_paths-IsPaths e nodes adj h (suc fuel) (v ∷ queue) p r i =
    let known : (x : String) → contains (v ∷ queue) x ≡ true → contains nodes x ≡ true =
      subst (λ l. (x : String) → contains l x ≡ true → contains nodes x ≡ true) r i.queue in
    let hv : contains nodes v ≡ true = known v (ground (arith, str_eq_refl v)) in
    let popped : IsPaths e.F64 nodes fuel (pop_front e v queue p) = record {
      origins = i.origins;
      sigma = i.sigma;
      dist = i.dist;
      stack = contains-cons_elim (λ x. contains nodes x ≡ true) v p.stack hv i.stack;
      queue = λ x k. known x (ground (arith, k));
      sources = i.sources;
      bounded = omega (arith, i.bounded, ap length r);
    } in
    Returns-bind (λ d. get v p.dist ≡ some d) (λ q. (bound : ℕ) × IsPaths e.F64 nodes bound q)
      (entry_of v p.dist) _ (entry_of-has v p.dist (i.dist v hv))
      (λ d_v _.
        Returns-bind (IsPaths e.F64 nodes fuel) (λ q. (bound : ℕ) × IsPaths e.F64 nodes bound q)
          (visit_all e v d_v (neighbors_of adj v) (pop_front e v queue p)) _
          (visit_all-IsPaths e nodes fuel v d_v (neighbors_of adj v) (pop_front e v queue p) hv
            (h v) popped)
          (λ q j. find_paths-IsPaths e nodes adj h fuel q.queue q refl j))
