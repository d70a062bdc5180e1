-- ===== src/Swarm/Tidy.antt =====
-- The registry of gossip-monitor/src/swarm.rs keeps no history without a peer, and none too long.
use podping_alpha.Prelude.{
  ℕ, ◌-◌, ◌≤◌, String, ◌≡◌, refl, sym, ap, subst, ◌∙◌, Bool, true, ◌||◌, List, [], ◌∷◌, ◌++◌,
  length, length-drop, select, length-select-le, All, All-map, All-select, ltb, if_cases, if_elim,
  ◌==◌, eq_iff, str_eq_refl, arith, leb→le, ◌+◌,
}
use podping_alpha.Swarm.{
  PeerAnnounce, PeerState, MetricSample, PeerRegistry, max_history_samples, new, has_peer, put_peer,
  keep_latest, add_sample, state_of, update, is_recent, prune_stale, prune_threshold_secs,
}

module _ {ℓ} {A : Type ℓ} (p : A → Bool) where
  select_holds : (xs : List A) → All (λ x. p x ≡ true) (select p xs)
  select_holds [] = tt
  select_holds (x ∷ xs) =
      let rest = select_holds xs in
      if_cases (All (λ x. p x ≡ true)) (p x) _ _ (λ t. (t, rest)) (λ f. rest)

  select_all : (xs : List A) → length xs ≤ length (select p xs) → select p xs ≡ xs
  select_all [] h = refl
  select_all (x ∷ xs) h =
      if_cases (λ l. length (x ∷ xs) ≤ length l → l ≡ x ∷ xs) (p x) _ _
        (λ t b. ap (◌∷◌ x) (select_all xs (omega (arith, b))))
        (λ f b. absurd (omega (arith, b, length-select-le p xs))) h

abbrev pub History : Type 0 → Type 0
History Metrics = String × List (MetricSample Metrics)

-- An announcement at a time, or a pruning at a time.
pub data Step (Metrics : Type 0) : Type 0 where
  announced : ℕ → PeerAnnounce Metrics → Step Metrics
  pruned : ℕ → Step Metrics

module _ {Metrics : Type 0} where
  -- Every history is of a peer, and has at most 60 samples.
  pub record IsTidy (r : PeerRegistry Metrics) : Type 0 where
    pub known : All (λ (e : History Metrics). has_peer r.peers e.0 ≡ true) r.history
    pub short : All (λ (e : History Metrics). length e.1 ≤ max_history_samples) r.history

  put_peer-has :
      (p : PeerState Metrics) (peers : List (PeerState Metrics))
      → has_peer (put_peer p peers) p.node_id ≡ true
  unfolding put_peer has_peer
  put_peer-has p [] = ground (arith, str_eq_refl p.node_id)
  put_peer-has p (q ∷ peers) =
      if_elim (λ l. has_peer l p.node_id ≡ true) (q.node_id == p.node_id) (p ∷ peers)
        (q ∷ put_peer p peers) (ground (arith, str_eq_refl p.node_id))
        (ground (arith, put_peer-has p peers))

  put_peer-keeps :
      (p : PeerState Metrics) (peers : List (PeerState Metrics)) (k : String)
      → has_peer peers k ≡ true
      → has_peer (put_peer p peers) k ≡ true
  unfolding put_peer has_peer
  put_peer-keeps p [] k h = absurd (ground (arith, h))
  put_peer-keeps p (q ∷ peers) k h =
      if_cases (λ l. has_peer l k ≡ true) (q.node_id == p.node_id) (p ∷ peers)
        (q ∷ put_peer p peers)
        (λ t. ap (λ id. (id == k) || has_peer peers k) (sym ((eq_iff q.node_id p.node_id).0 t)) ∙ h)
        (λ f. ground (arith, h, put_peer-keeps p peers k))

  add_sample-known :
      (Q : String → Type 0) (id : String) (s : MetricSample Metrics)
      (history : List (History Metrics))
      → Q id
      → All (λ (e : History Metrics). Q e.0) history
      → All (λ (e : History Metrics). Q e.0) (add_sample id s history)
  unfolding add_sample
  add_sample-known Q id s [] q h = (q, tt)
  add_sample-known Q id s (e ∷ history) q h =
      if_elim (All (λ (e : History Metrics). Q e.0)) (e.0 == id) _ _ (h.0, h.1)
        (h.0, add_sample-known Q id s history q h.1)

  length-keep_latest :
      (samples : List (MetricSample Metrics)) → length (keep_latest samples) ≤ max_history_samples
  length-keep_latest samples =
      ground (arith, length-drop (length samples - max_history_samples) samples)

  add_sample-short :
      (id : String) (s : MetricSample Metrics) (history : List (History Metrics))
      → All (λ (e : History Metrics). length e.1 ≤ max_history_samples) history
      → All (λ (e : History Metrics). length e.1 ≤ max_history_samples) (add_sample id s history)
  unfolding add_sample
  add_sample-short id s [] h = (omega arith, tt)
  add_sample-short id s (e ∷ history) h =
      if_elim (All (λ (e : History Metrics). length e.1 ≤ max_history_samples)) (e.0 == id) _ _
        (length-keep_latest (e.1 ++ s ∷ []), h.1) (h.0, add_sample-short id s history h.1)

  update-IsTidy :
      (samples : Metrics → Bool) (now : ℕ) (a : PeerAnnounce Metrics) (r : PeerRegistry Metrics)
      → IsTidy r
      → IsTidy (update samples now a r)
  unfolding update
  update-IsTidy samples now a r h =
      let p = state_of now a in
      let peers = put_peer p r.peers in
      let Q : String → Type 0 = λ k. has_peer peers k ≡ true in
      let old =
        All-map (λ (e : History Metrics). Q e.0)
          (λ (e : History Metrics) (k : has_peer r.peers e.0 ≡ true).
            put_peer-keeps p r.peers e.0 k)
          r.history h.known in
      if_elim IsTidy (a.msg_type == "peer_announce") _ _
        (record {
          known =
              if_elim (All (λ (e : History Metrics). Q e.0)) (samples a.metrics) _ _
                (add_sample-known Q a.node_id _ r.history (put_peer-has p r.peers) old) old;
          short =
              if_elim (All (λ (e : History Metrics). length e.1 ≤ max_history_samples))
                (samples a.metrics) _ _ (add_sample-short a.node_id _ r.history h.short) h.short;
        })
        h

  prune_stale-IsTidy :
      (now : ℕ) (r : PeerRegistry Metrics) → IsTidy r → IsTidy (prune_stale now r).0
  unfolding prune_stale
  prune_stale-IsTidy now r h =
      let peers = select (is_recent now) r.peers in
      let test : History Metrics → Bool = λ (e : History Metrics). has_peer peers e.0 in
      let P : List (History Metrics) → Type 0 =
        All (λ (e : History Metrics). has_peer peers e.0 ≡ true) in
      record {
        known =
            if_cases P (ltb 0 (length r.peers - length peers)) _ _
              (λ t. select_holds test r.history)
              (λ f.
                subst (λ l. All (λ (e : History Metrics). has_peer l e.0 ≡ true) r.history)
                  (sym (select_all (is_recent now) r.peers (ground arith))) h.known);
        short =
            if_elim (All (λ (e : History Metrics). length e.1 ≤ max_history_samples))
              (ltb 0 (length r.peers - length peers)) _ _
              (All-select (λ (e : History Metrics). length e.1 ≤ max_history_samples) test r.history
                h.short)
              h.short;
      }

  unfoldable pub run :
      (Metrics → Bool) → List (Step Metrics) → PeerRegistry Metrics → PeerRegistry Metrics
  run samples [] r = r
  run samples (announced now a ∷ steps) r = run samples steps (update samples now a r)
  run samples (pruned now ∷ steps) r = run samples steps (prune_stale now r).0

  run-IsTidy :
      (samples : Metrics → Bool) (steps : List (Step Metrics)) (r : PeerRegistry Metrics)
      → IsTidy r
      → IsTidy (run samples steps r)
  unfolding run
  run-IsTidy samples [] r h = h
  run-IsTidy samples (announced now a ∷ steps) r h =
      run-IsTidy samples steps _ (update-IsTidy samples now a r h)
  run-IsTidy samples (pruned now ∷ steps) r h =
      run-IsTidy samples steps _ (prune_stale-IsTidy now r h)

  -- After any announcements and prunings of an empty registry, every history is of a peer that the
  -- registry has, and has at most 60 samples.
  pub run-new-IsTidy :
      (samples : Metrics → Bool) (steps : List (Step Metrics)) → IsTidy (run samples steps new)
  run-new-IsTidy samples steps = run-IsTidy samples steps new (record { known = tt; short = tt })

  -- What a pruning leaves and counts.
  pub record IsPruned (now : ℕ) (before : PeerRegistry Metrics) (after : PeerRegistry Metrics)
      (removed : ℕ) : Type 0 where
    pub recent :
        All (λ (p : PeerState Metrics). now - p.last_seen ≤ prune_threshold_secs) after.peers
    pub counted : removed + length after.peers ≡ length before.peers
    pub tidy : IsTidy after
    pub found : (k : String) → has_peer after.peers k ≡ true → has_peer before.peers k ≡ true

  select-has :
      (test : PeerState Metrics → Bool) (peers : List (PeerState Metrics)) (k : String)
      → has_peer (select test peers) k ≡ true
      → has_peer peers k ≡ true
  unfolding has_peer
  select-has test [] k h = h
  select-has test (p ∷ peers) k h = ground (arith, select-has test peers k)

  -- A pruning of a tidy registry leaves only peers seen in the last 1,800 seconds, all of them
  -- known before, returns the number of those it removed, and keeps the registry tidy.
  pub prune_stale-IsPruned :
      (now : ℕ) (r : PeerRegistry Metrics)
      → IsTidy r
      → IsPruned now r (prune_stale now r).0 (prune_stale now r).1
  unfolding prune_stale
  prune_stale-IsPruned now r h = record {
    recent =
        All-map (λ (p : PeerState Metrics). now - p.last_seen ≤ prune_threshold_secs)
          (λ (p : PeerState Metrics) (t : is_recent now p ≡ true).
            leb→le (now - p.last_seen) prune_threshold_secs t)
          (select (is_recent now) r.peers) (select_holds (is_recent now) r.peers);
    counted = omega (arith, length-select-le (is_recent now) r.peers);
    tidy = prune_stale-IsTidy now r h;
    found = select-has (is_recent now) r.peers;
  }
