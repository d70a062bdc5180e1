-- ===== src/Monitor/Pace.antt =====
-- How often the monitor of gossip-monitor/src/main.rs suggests peers to the same node.
use podping_alpha.Prelude.{
  ℕ, suc, ◌+◌, ◌≤◌, String, Bool, true, false, All, ◌≡◌, refl, ap, ◌∙◌, Option, none, some, List,
  [], ◌∷◌, map, if◌then◌else◌, if_cases, ◌==◌, get, get-put, Outcome, done, ◌>>=◌, Returns,
  Returns-bind, arith, some-injective, Returns-imp,
}
use podping_alpha.Swarm.{PeerState}
use podping_alpha.Topology.Betweenness.{Floats}
use podping_alpha.Topology.Analysis.{PeerSuggestion, analyze_topology}
use podping_alpha.Monitor.Snapshot.{Texts, snapshot}
use podping_alpha.Monitor.Suggest.{
  Tick, Sending, Suggester, is_limited, message, suggest, suggest_all, topology_round,
  begin_suggester,
}

-- The beginning of the round of what was sent.
abbrev pub began : Option (ℕ × ℕ) → Option ℕ
began none = none
began (some m) = some m.0

-- The round of whatever was sent began 300 seconds or more after that of what was sent to the same
-- target before it, and not after it was sent; the latest is first.
abbrev pub IsPaced : List (String × (ℕ × ℕ)) → Type 0
IsPaced [] = Unit
IsPaced (m ∷ older) =
    ((before : ℕ × ℕ) → get m.0 older ≡ some before → before.0 + 300 ≤ m.1.0)
    × (m.1.0 ≤ m.1.1)
    × IsPaced older

-- The map of the last suggestions is that of what was sent.
pub record IsTracked (g : Suggester) : Type 0 where
  pub paced : IsPaced g.sent
  pub known : (x : String) → get x g.last_suggest ≡ began (get x g.sent)

began_if :
    (b : Bool) (m : ℕ × ℕ) (o : Option (ℕ × ℕ))
    → (if b then some m.0 else began o) ≡ began (if b then some m else o)
began_if true m o = refl
began_if false m o = refl

late :
    (now : ℕ) (o : Option ℕ) (before : ℕ)
    → is_limited now o ≡ false
    → o ≡ some before
    → before + 300 ≤ now
late now none before f q = absurd (ground (arith, q))
late now (some last) before f q = ground (arith, f, some-injective last before q)

module _ (e : Floats) (w : Sending) {Metrics : Type 0} where
  suggest-IsTracked :
      (now at : ℕ) (peers : List (PeerState Metrics)) (s : PeerSuggestion e.F64) (g : Suggester)
      → now ≤ at
      → IsTracked g
      → IsTracked (suggest e w now at peers s g)
  unfolding suggest get
  suggest-IsTracked now at peers s g l i =
      if_cases IsTracked (is_limited now (get s.target_node_id g.last_suggest)) _ _ (λ _. i)
        (λ f.
          if_cases IsTracked (w.broadcasts (message e w at s)) _ _
            (λ _. record {
              paced = (
                λ before q.
                    late now (get s.target_node_id g.last_suggest) before.0 f
                      (i.known s.target_node_id ∙ ap began q),
                l,
                i.paced,
              );
              known = λ x.
                  get-put s.target_node_id now g.last_suggest x
                  ∙ ap (λ o. if s.target_node_id == x then some now else o) (i.known x)
                  ∙ began_if (s.target_node_id == x) (now, at) (get x g.sent);
            })
            (λ _. record { paced = i.paced; known = i.known }))

  suggest_all-IsTracked :
      (now : ℕ) (delay : ℕ → ℕ) (n : ℕ) (peers : List (PeerState Metrics))
      (suggestions : List (PeerSuggestion e.F64)) (g : Suggester)
      → IsTracked g
      → IsTracked (suggest_all e w now delay n peers suggestions g)
  unfolding suggest_all
  suggest_all-IsTracked now delay n peers [] g i = i
  suggest_all-IsTracked now delay n peers (s ∷ suggestions) g i =
      suggest_all-IsTracked now delay (suc n) peers suggestions _
        (suggest-IsTracked now (now + delay n) peers s g (omega arith) i)

  -- The analysis of the round does not panic on a NaN.
  abbrev pub IsAnalyzed : Texts → Tick e Metrics → Type 0
  IsAnalyzed t v =
      Returns (λ _. Unit {0})
        (analyze_topology e v.orders v.now (map (λ p. p.0) (snapshot t v.now v.registry).1.peers))

  topology_round-IsTracked :
      (t : Texts) (v : Tick e Metrics) (g : Suggester)
      → IsAnalyzed t v
      → IsTracked g
      → Returns IsTracked (topology_round e w t v g)
  unfolding topology_round
  topology_round-IsTracked t v g h i =
      Returns-bind (λ _. Unit {0}) IsTracked
        (analyze_topology e v.orders v.now (map (λ p. p.0) (snapshot t v.now v.registry).1.peers)) _
        h
        (λ a _.
          suggest_all-IsTracked v.now v.delay 0 (snapshot t v.now v.registry).0.peers a.suggestions
            g i)

  -- Rounds of the task, at any times and with any registries.
  unfoldable pub rounds : Texts → List (Tick e Metrics) → Suggester → Outcome Suggester
  unfolding topology_round
  rounds t [] g = done g
  rounds t (v ∷ more) g = topology_round e w t v g >>= rounds t more

  rounds-IsTracked :
      (t : Texts) (vs : List (Tick e Metrics)) (g : Suggester)
      → All (IsAnalyzed t) vs
      → IsTracked g
      → Returns IsTracked (rounds t vs g)
  unfolding rounds
  rounds-IsTracked t [] g h i = i
  rounds-IsTracked t (v ∷ more) g h i =
      Returns-bind IsTracked IsTracked (topology_round e w t v g) (rounds t more)
        (topology_round-IsTracked t v g h.0 i) (λ k j. rounds-IsTracked t more k h.1 j)

  -- Whatever the registry holds in each round, whenever the rounds are, however long each broadcast
  -- takes and whichever fail: if no analysis panics (on a NaN), the rounds end without a panic. What
  -- is broadcast for a node is broadcast in a round that began 300 seconds or more after the
  -- beginning of the round in which something was broadcast for it before, and not before its own
  -- round began. (So two broadcasts for a node may be less than 300 seconds apart, by as much as the
  -- first came late in its round.)
  pub rounds-IsPaced :
      (t : Texts) (vs : List (Tick e Metrics))
      → All (IsAnalyzed t) vs
      → Returns (λ g. IsPaced g.sent) (rounds t vs begin_suggester)
  unfolding get
  rounds-IsPaced t vs h =
      Returns-imp IsTracked (λ g. IsPaced g.sent) (λ g i. i.paced) (rounds t vs begin_suggester)
        (rounds-IsTracked t vs begin_suggester h (record { paced = tt; known = λ x. refl }))
