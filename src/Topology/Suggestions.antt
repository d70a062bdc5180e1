-- ===== src/Topology/Suggestions.antt =====
-- What `analyze_topology` of gossip-monitor/src/topology.rs suggests.
use podping_alpha.Prelude.{
  ℕ, suc, ◌+◌, ◌≤◌, String, true, false, ◌&&◌, ◌≡◌, refl, sym, subst, ◌∙◌, List, [], ◌∷◌, ◌++◌,
  length, select, All, All-append, contains, contains-append, eqb, if◌then◌else◌, if_elim, ◌==◌,
  arith, eq_iff, str_eq_refl, leb, ltb, has,
}
use podping_alpha.Topology.{Graph, neighbors_of, insert}
use podping_alpha.Topology.Reachable.{along, here}
use podping_alpha.Topology.Components.{flatten, IsClass}
use podping_alpha.Topology.Symmetry.{contains-insert}
use podping_alpha.Topology.Betweenness.{Floats}
use podping_alpha.Topology.Scores.{IsScored}
use podping_alpha.Topology.Tops.{length-top_betweenness, contains-top_betweenness, has-select}
use podping_alpha.Topology.Analysis.{
  PeerSuggestion, last_longest, top_betweenness, suggest_each, suggest_isolated, suggest_member,
  suggest_members, cluster_density, external_reach,
}

-- A suggestion for an active node: at most three other active nodes, none of them its neighbor.
pub record IsFitting {F64 : Type 0} (nodes : List String) (adj : Graph) (s : PeerSuggestion F64)
    : Type 0 where
  pub active : contains nodes s.target_node_id ≡ true
  pub few : length s.suggested_peers ≤ 3
  pub known : (x : String) → contains s.suggested_peers x ≡ true → contains nodes x ≡ true
  pub apart :
      (x : String)
      → contains s.suggested_peers x ≡ true
      → contains (insert s.target_node_id (neighbors_of adj s.target_node_id)) x ≡ false

module _ (e : Floats) (nodes : List String) (adj : Graph) where
  suggest_each-IsFitting :
      (c suggested : List String)
      → IsClass adj c
      → ((x : String) → contains c x ≡ true → contains nodes x ≡ true)
      → length suggested ≤ 3
      → ((x : String)
          → contains suggested x ≡ true
          → (contains nodes x ≡ true) × (contains c x ≡ false))
      → (part : List String) → ((x : String) → contains part x ≡ true → contains c x ≡ true)
      → All (IsFitting nodes adj) (suggest_each e suggested part)
  unfolding suggest_each
  suggest_each-IsFitting c suggested k w l f [] h = tt
  suggest_each-IsFitting c suggested k w l f (t ∷ part) h =
      let ht = h t (ground (arith, str_eq_refl t)) in
      (
        record {
          active = w t ht;
          few = l;
          known = λ x m. (f x m).0;
          apart = λ x m.
              let joined : contains (neighbors_of adj t) x ≡ true → contains c x ≡ true =
                λ n. (k t x ht).1 (along here n refl) in
              let same : (t == x) ≡ true → contains c x ≡ true =
                λ q. subst (λ v. contains c v ≡ true) ((eq_iff t x).0 q) ht in
              ground (arith, f x m, joined, same, contains-insert t (neighbors_of adj t) x);
        },
        suggest_each-IsFitting c suggested k w l f part (λ x m. h x (ground (arith, m))),
      )

  fitting :
      (t : String) (suggested : List String) (reason : String) (score : e.F64)
      → contains nodes t ≡ true
      → length suggested ≤ 3
      → ((x : String) → contains suggested x ≡ true → contains nodes x ≡ true)
      → ((x : String)
          → contains suggested x ≡ true
          → contains (insert t (neighbors_of adj t)) x ≡ false)
      → All (IsFitting {F64 = e.F64} nodes adj) (
          record {
            target_node_id = t;
            suggested_peers = suggested;
            reason = reason;
            isolation_score = score;
          }
          ∷ [])
  fitting t suggested reason score h few known apart =
      (record { active = h; few = few; known = known; apart = apart }, tt)

  suggest_member-IsFitting :
      (scores : List (String × e.F64)) (total : ℕ) (t : String)
      → IsScored nodes scores
      → contains nodes t ≡ true
      → All (IsFitting nodes adj) (suggest_member e scores adj total t)
  unfolding suggest_member
  suggest_member-IsFitting scores total t i h =
      let Q : List (PeerSuggestion e.F64) → Type 0 = All (IsFitting nodes adj) in
      let neighbors = neighbors_of adj t in
      let suggested = top_betweenness e scores (insert t neighbors) 3 in
      let density = cluster_density e adj neighbors in
      let reach = external_reach e adj total t neighbors in
      let fits : (reason : String) (score : e.F64)
          → Q (
              record {
                target_node_id = t;
                suggested_peers = suggested;
                reason = reason;
                isolation_score = score;
              }
              ∷ []) =
        λ reason score.
          fitting t suggested reason score h
            (length-top_betweenness e scores (insert t neighbors) 3)
            (λ x m. sym (i x) ∙ (contains-top_betweenness e scores (insert t neighbors) 3 x m).0)
            (λ x m. (contains-top_betweenness e scores (insert t neighbors) 3 x m).1) in
      let score = e.mul density (e.sub e.one reach) in
      let clique : PeerSuggestion e.F64 = record {
        target_node_id = t;
        suggested_peers = suggested;
        reason = "isolated_clique";
        isolation_score = score;
      } in
      let isolated = e.less e.four_fifths density && e.less reach e.three_tenths in
      let low_score = if eqb (length neighbors) 0 then e.one else e.half in
      let low : PeerSuggestion e.F64 = record {
        target_node_id = t;
        suggested_peers = suggested;
        reason = "low_connectivity";
        isolation_score = low_score;
      } in
      if_elim Q (ltb (length neighbors) 2) (low ∷ []) (if isolated then clique ∷ [] else [])
        (fits "low_connectivity" low_score)
        (if_elim Q isolated (clique ∷ []) [] (fits "isolated_clique" score) tt)

  pub suggest_members-IsFitting :
      (scores : List (String × e.F64)) (total : ℕ) (c : List String)
      → IsScored nodes scores
      → ((x : String) → contains c x ≡ true → contains nodes x ≡ true)
      → All (IsFitting nodes adj) (suggest_members e scores adj total c)
  unfolding suggest_members
  suggest_members-IsFitting scores total [] i w = tt
  suggest_members-IsFitting scores total (t ∷ c) i w =
      All-append (IsFitting nodes adj) (suggest_member e scores adj total t)
        (suggest_members e scores adj total c)
        (suggest_member-IsFitting scores total t i (w t (ground (arith, str_eq_refl t))))
        (suggest_members-IsFitting scores total c i (λ x m. w x (ground (arith, m))))

  pub suggest_isolated-IsFitting :
      (collect : ℕ → List (String × e.F64) → List (String × e.F64)) (scores : List (String × e.F64))
      (main : List String) (largest i : ℕ) (cs : List (List String))
      → ((i : ℕ) (x : String) (l : List (String × e.F64)) → has x (collect i l) ≡ has x l)
      → IsScored nodes scores
      → All (IsClass adj) cs
      → ((x : String) → contains (flatten cs) x ≡ true → contains nodes x ≡ true)
      → All (IsFitting nodes adj) (suggest_isolated e collect scores main largest i cs)
  unfolding suggest_isolated
  suggest_isolated-IsFitting collect scores main largest i [] lists s k w = tt
  suggest_isolated-IsFitting collect scores main largest i (c ∷ cs) lists s k w =
      let kept = select (λ (a : String × e.F64). contains main a.0) scores in
      let left = collect i kept in
      let suggested = top_betweenness e left c 3 in
      let rest =
        suggest_isolated-IsFitting collect scores main largest (suc i) cs lists s k.1
          (λ x m. w x (ground (arith, m, contains-append c (flatten cs) x))) in
      if_elim (All (IsFitting nodes adj)) (eqb i largest) _
        (suggest_each e suggested c ++ suggest_isolated e collect scores main largest (suc i) cs)
        rest
        (All-append (IsFitting nodes adj) (suggest_each e suggested c)
          (suggest_isolated e collect scores main largest (suc i) cs)
          (suggest_each-IsFitting c suggested k.0
            (λ x m. w x (ground (arith, m, contains-append c (flatten cs) x)))
            (length-top_betweenness e left c 3)
            (λ x m. ground (
              arith,
              contains-top_betweenness e left c 3 x m,
              lists i x kept,
              has-select main scores x,
              s x,
            ))
            c (λ x m. m))
          rest)

pub last_longest-lt :
    (i best longest : ℕ) (cs : List (List String))
    → suc best ≤ i + length cs
    → suc (last_longest i best longest cs) ≤ i + length cs
unfolding last_longest
last_longest-lt i best longest [] h = h
last_longest-lt i best longest (c ∷ cs) h =
    let rest =
      last_longest-lt (suc i) (if leb longest (length c) then i else best)
        (if leb longest (length c) then length c else longest) cs
        (if_elim (λ b. suc b ≤ suc i + length cs) (leb longest (length c)) i best (omega arith)
          (omega arith)) in
    omega (arith, rest)
