-- ===== src/Merge/Overlap.antt =====
-- The merge by overlapping messages of dtt-fork/src/gossip/merge/message_overlap.rs, with what the
-- publisher of dtt-fork/src/gossip/topic/publisher.rs puts into its records.
use podping_alpha.Prelude.{
  ◌≤◌, String, Bool, true, false, not, ◌&&◌, ◌≡◌, refl, sym, subst, ◌∙◌, Option, some, List, [],
  ◌∷◌, ◌++◌, length, take, select, contains, contains-append, ltb, if◌then◌else◌, if_then, ◌==◌,
  arith, eq_iff, str_eq_refl, min,
}
use podping_alpha.Merge.{
  Env, DhtRecord, to_set, content_of, pad, join_peers, overlaps, hashes_of, active_peers_of,
  overlap_peers_of, overlap_peers, any_overlap, merge_overlap,
}
use podping_alpha.Merge.Choice.{
  IsShuffle, contains-to_set, contains-length, contains-select, contains-pad, length-join_peers,
  join_peers-contains, contains-join_peers,
}

-- The record of a node with these neighbors and latest messages.
abbrev pub record_of : Env → String → List String → List String → DhtRecord
record_of e id neighbors hashes = record {
  node_id = id;
  content = some (content_of e neighbors hashes);
}

-- What the merge joins on the strength of a node's record: some of the candidates, as many as it can
-- up to five. The node is a candidate, and so are its first neighbors; all candidates are joined if
-- there are at most five.
pub record IsJoined (e : Env) (id : String) (neighbors : List String) (candidates : List String)
    (joined : Option (List String)) : Type 0 where
  pub ids : List String
  pub asked : joined ≡ some ids
  pub count : length ids ≡ min 5 (length candidates)
  pub some_joined : 1 ≤ length ids
  pub chosen : (x : String) → contains ids x ≡ true → contains candidates x ≡ true
  pub publisher : contains candidates id ≡ true
  pub peers :
      (x : String)
      → contains (take 5 neighbors) x ≡ true
      → (x == e.zero_key) ≡ false
      → e.is_key x ≡ true
      → contains candidates x ≡ true
  pub all :
      length candidates ≤ 5 → (x : String) → contains candidates x ≡ true → contains ids x ≡ true

module _ (e : Env) (local : List String) where
  overlaps-contains :
      (hashes : List String) (h : String)
      → contains hashes h ≡ true
      → (h == e.zero_key) ≡ false
      → contains local h ≡ true
      → overlaps e local hashes ≡ true
  unfolding overlaps
  overlaps-contains [] h c z l = absurd (ground (arith, c))
  overlaps-contains (y ∷ hashes) h c z l =
      let same : (y == h) ≡ true → (not (y == e.zero_key) && contains local y) ≡ true = λ t.
        subst (λ v. (not (v == e.zero_key) && contains local v) ≡ true) (sym ((eq_iff y h).0 t))
          (ground (arith, z, l)) in
      let rest : contains hashes h ≡ true → overlaps e local hashes ≡ true =
        λ t. overlaps-contains hashes h t z l in
      ground (arith, c, same, rest)

  any_overlap-Mem :
      (before after : List DhtRecord) (r : DhtRecord)
      → overlaps e local (hashes_of e r.content) ≡ true
      → any_overlap e local (before ++ r ∷ after) ≡ true
  unfolding any_overlap
  any_overlap-Mem [] after r o = ground (arith, o)
  any_overlap-Mem (s ∷ before) after r o = ground (arith, any_overlap-Mem before after r o)

  overlap_peers-Mem :
      (before after : List DhtRecord) (r : DhtRecord) (x : String)
      → overlaps e local (hashes_of e r.content) ≡ true
      → contains (overlap_peers_of e r) x ≡ true
      → contains (overlap_peers e local (before ++ r ∷ after)) x ≡ true
  unfolding overlap_peers
  overlap_peers-Mem [] after r x o c =
      if_then (λ v. contains (v ++ overlap_peers e local after) x ≡ true)
        (overlaps e local (hashes_of e r.content)) (overlap_peers_of e r) [] o
        (ground (arith, c, contains-append (overlap_peers_of e r) (overlap_peers e local after) x))
  overlap_peers-Mem (s ∷ before) after r x o c =
      let first = if overlaps e local (hashes_of e s.content) then overlap_peers_of e s else [] in
      ground (
        arith,
        overlap_peers-Mem before after r x o c,
        contains-append first (overlap_peers e local (before ++ r ∷ after)) x,
      )

  overlap_peers_of-publisher :
      (r : DhtRecord) → e.is_key r.node_id ≡ true → contains (overlap_peers_of e r) r.node_id ≡ true
  overlap_peers_of-publisher r k =
      if_then
        (λ v.
          contains
            (v
              ++ select (λ peer. not (peer == e.zero_key) && e.is_key peer)
                  (active_peers_of e r.content))
            r.node_id
          ≡ true)
        (e.is_key r.node_id) (r.node_id ∷ []) [] k (ground (arith, str_eq_refl r.node_id))

  overlap_peers_of-active :
      (r : DhtRecord) (x : String)
      → contains (active_peers_of e r.content) x ≡ true
      → (x == e.zero_key) ≡ false
      → e.is_key x ≡ true
      → contains (overlap_peers_of e r) x ≡ true
  overlap_peers_of-active r x c z k =
      let first = if e.is_key r.node_id then r.node_id ∷ [] else [] in
      let kept : String → Bool = λ peer. not (peer == e.zero_key) && e.is_key peer in
      ground (
        arith,
        c,
        z,
        k,
        contains-append first (select kept (active_peers_of e r.content)) x,
        contains-select kept (active_peers_of e r.content) x,
      )

  -- A node publishes its record; another one finds it, whatever else it finds, and has received one
  -- of the first five messages that the record names. Then the publisher and those of its first five
  -- neighbors that have a valid key are candidates. Where the shuffle only reorders, the node joins
  -- five of the candidates, or all of them if there are at most five.
  pub merge_overlap-IsJoined :
      (s : IsShuffle e) (id : String) (neighbors hashes : List String) (h : String)
      (before after : List DhtRecord)
      → e.is_key id ≡ true
      → contains (take 5 hashes) h ≡ true
      → (h == e.zero_key) ≡ false
      → contains local h ≡ true
      → IsJoined e id neighbors
          (to_set (overlap_peers e local (before ++ record_of e id neighbors hashes ∷ after)))
          (merge_overlap e local (before ++ record_of e id neighbors hashes ∷ after))
  unfolding merge_overlap content_of
  merge_overlap-IsJoined s id neighbors hashes h before after k c z l =
      let r = record_of e id neighbors hashes in
      let records = before ++ r ∷ after in
      let candidates = to_set (overlap_peers e local records) in
      let o = overlaps-contains (pad e 5 hashes) h (contains-pad e 5 hashes h c) z l in
      let member : (x : String)
          → contains (overlap_peers_of e r) x ≡ true
          → contains candidates x ≡ true =
        λ x m.
          contains-to_set (overlap_peers e local records) x
          ∙ overlap_peers-Mem before after r x o m in
      let self = member id (overlap_peers_of-publisher r k) in
      record {
        ids = join_peers e candidates;
        asked =
            if_then (λ v. v ≡ some (join_peers e candidates))
              (ltb 0 (length local) && any_overlap e local records) _ _
              (ground (arith, contains-length local h l, any_overlap-Mem before after r o)) refl;
        count = length-join_peers e s candidates;
        some_joined =
            omega (arith, length-join_peers e s candidates, contains-length candidates id self);
        chosen = λ x m. contains-join_peers e s candidates x m;
        publisher = self;
        peers =
            λ x n y q. member x (overlap_peers_of-active r x (contains-pad e 5 neighbors x n) y q);
        all = λ m x h. join_peers-contains e s candidates x m h;
      }
