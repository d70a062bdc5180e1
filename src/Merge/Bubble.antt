-- ===== src/Merge/Bubble.antt =====
-- The merge of bubbles of dtt-fork/src/gossip/merge/bubble.rs.
use podping_alpha.Prelude.{
  ◌≤◌, ◌<◌, String, Bool, true, false, not, ◌&&◌, ◌||◌, ◌≡◌, refl, sym, subst, ◌∙◌, Option, none,
  some, List, [], ◌∷◌, ◌++◌, length, select, contains, contains-append, ltb, if◌then◌else◌,
  if_cases, if_then, ◌==◌, arith, eq_iff, str_eq_refl,
}
use podping_alpha.Merge.{
  Env, DhtRecord, to_set, join_peers, active_peers_of, is_bubble_peer, bubble_peers, merge_bubble,
}
use podping_alpha.Merge.Choice.{
  IsShuffle, contains-to_set, contains-length, contains-select, length-join_peers,
  contains-join_peers, join_peers-contains,
}

-- Some record is the node's.
abbrev pub published_by : String → List DhtRecord → Bool
published_by x [] = false
published_by x (r ∷ records) = (r.node_id == x) || published_by x records

abbrev pub Holds {ℓ} : (List String → Type ℓ) → Option (List String) → Type ℓ
Holds P none = Unit
Holds P (some ids) = P ids

-- What the merge joins, and when it does.
pub record IsBubbleMerge (e : Env) (own : String) (neighbors : List String)
    (records : List DhtRecord) (joined : Option (List String)) : Type 0 where
  pub safe :
      Holds
        (λ ids.
          (length neighbors < 4)
          × ((length ids ≤ 5)
              × ((x : String)
                  → contains ids x ≡ true
                  → (e.is_key x ≡ true) × ((x == own) ≡ false))))
        joined
  pub active :
      (x : String)
      → length neighbors < 4
      → published_by x records ≡ true
      → e.is_key x ≡ true
      → (x == own) ≡ false
      → (ids : List String) × ((joined ≡ some ids)
          × ((1 ≤ length ids)
              × (length (to_set (bubble_peers e own neighbors records)) ≤ 5
                  → contains ids x ≡ true)))

module _ (e : Env) (own : String) (neighbors : List String) where
  bubble_peers-apart :
      (records : List DhtRecord) (x : String)
      → contains (bubble_peers e own neighbors records) x ≡ true
      → (e.is_key x ≡ true) × ((x == own) ≡ false)
  unfolding bubble_peers
  bubble_peers-apart [] x h = absurd (ground (arith, h))
  bubble_peers-apart (r ∷ records) x h =
      let some_peers = select (is_bubble_peer e own neighbors r) (active_peers_of e r.content) in
      let publisher = if e.is_key r.node_id && not (r.node_id == own) then r.node_id ∷ [] else [] in
      let rest = bubble_peers e own neighbors records in
      ground (
        arith,
        h,
        contains-append some_peers (publisher ++ rest) x,
        contains-append publisher rest x,
        contains-select (is_bubble_peer e own neighbors r) (active_peers_of e r.content) x,
        eq_iff r.node_id x,
        bubble_peers-apart records x,
      )

  bubble_peers-publisher :
      (records : List DhtRecord) (x : String)
      → published_by x records ≡ true
      → e.is_key x ≡ true
      → (x == own) ≡ false
      → contains (bubble_peers e own neighbors records) x ≡ true
  unfolding bubble_peers
  bubble_peers-publisher [] x p k n = absurd (ground (arith, p))
  bubble_peers-publisher (r ∷ records) x p k n =
      let some_peers = select (is_bubble_peer e own neighbors r) (active_peers_of e r.content) in
      let publisher = if e.is_key r.node_id && not (r.node_id == own) then r.node_id ∷ [] else [] in
      let rest = bubble_peers e own neighbors records in
      let old : published_by x records ≡ true → contains rest x ≡ true =
        λ q. bubble_peers-publisher records x q k n in
      let new : (r.node_id == x) ≡ true → contains publisher x ≡ true =
        λ q. published r.node_id x q k n in
      ground (
        arith,
        p,
        old,
        new,
        contains-append some_peers (publisher ++ rest) x,
        contains-append publisher rest x,
      )
    where
      published :
          (id x : String)
          → (id == x) ≡ true
          → e.is_key x ≡ true
          → (x == own) ≡ false
          → contains (if e.is_key id && not (id == own) then id ∷ [] else []) x ≡ true
      published id x q k n =
          subst (λ v. contains (if e.is_key v && not (v == own) then v ∷ [] else []) x ≡ true)
            (sym ((eq_iff id x).0 q)) (ground (arith, k, n, str_eq_refl x))

  published_by-length :
      (x : String) (records : List DhtRecord)
      → published_by x records ≡ true
      → ltb 0 (length records) ≡ true
  published_by-length x [] h = absurd (ground (arith, h))
  published_by-length x (r ∷ records) h = ground arith

  -- Where the shuffle only reorders: the merge joins at most five peers, only below four neighbors,
  -- only valid keys and never the node itself; and below four neighbors, a valid key that published
  -- a record and is not the node's makes it join, and is joined if there are at most five candidates.
  pub merge_bubble-IsBubbleMerge :
      (s : IsShuffle e) (records : List DhtRecord)
      → IsBubbleMerge e own neighbors records (merge_bubble e own neighbors records)
  unfolding merge_bubble
  merge_bubble-IsBubbleMerge s records =
      let ids = to_set (bubble_peers e own neighbors records) in
      let Safe : Option (List String) → Type 0 = Holds (λ ids.
        (length neighbors < 4)
        × ((length ids ≤ 5)
            × ((x : String)
                → contains ids x ≡ true
                → (e.is_key x ≡ true) × ((x == own) ≡ false)))) in
      record {
        safe =
            if_cases Safe (ltb (length neighbors) 4 && ltb 0 (length records))
              (if ltb 0 (length ids) then some (join_peers e ids) else none) none
              (λ t.
                if_cases Safe (ltb 0 (length ids)) (some (join_peers e ids)) none
                  (λ u. (
                    ground (arith, t),
                    (
                      omega (arith, length-join_peers e s ids),
                      λ x h. bubble_peers-apart records x (
                          sym (contains-to_set (bubble_peers e own neighbors records) x)
                          ∙ contains-join_peers e s ids x h),
                    ),
                  ))
                  (λ _. tt))
              (λ _. tt);
        active = λ x l p k n.
            let there : contains ids x ≡ true =
              contains-to_set (bubble_peers e own neighbors records) x
              ∙ bubble_peers-publisher records x p k n in
            let Q : Option (List String) → Type 0 = λ o.
              (found : List String) × ((o ≡ some found)
                × ((1 ≤ length found) × (length ids ≤ 5 → contains found x ≡ true))) in
            if_then Q (ltb (length neighbors) 4 && ltb 0 (length records))
              (if ltb 0 (length ids) then some (join_peers e ids) else none) none
              (ground (arith, l, published_by-length x records p))
              (if_then Q (ltb 0 (length ids)) (some (join_peers e ids)) none
                (ground (arith, contains-length ids x there))
                (
                  join_peers e ids,
                  (
                    refl,
                    (
                      omega (arith, length-join_peers e s ids, contains-length ids x there),
                      λ m. join_peers-contains e s ids x m there,
                    ),
                  ),
                ));
      }
