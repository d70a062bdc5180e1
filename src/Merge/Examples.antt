-- ===== src/Merge/Examples.antt =====
-- Two nodes that have a message in common: runs of dtt-fork/src/gossip/merge.
use podping_alpha.Prelude.{not, ◌≡◌, refl, some, List, [], ◌∷◌, ◌++◌, ◌==◌}
use podping_alpha.Merge.{
  Env, DhtRecord, to_set, content_of, merge_bubble, overlap_peers, merge_overlap,
}
use podping_alpha.Merge.Choice.{IsShuffle}
use podping_alpha.Merge.Bubble.{IsBubbleMerge, merge_bubble-IsBubbleMerge}
use podping_alpha.Merge.Overlap.{IsJoined, record_of, merge_overlap-IsJoined}

abbrev env : Env
env = record { zero_key = "0"; is_key = λ k. not (k == "0"); shuffle = λ xs. xs }

kept : IsShuffle env
kept = record { same = λ xs x. refl; count = λ xs. refl }

abbrev records : List DhtRecord
records = record_of env "a" ("me" ∷ "b" ∷ []) ("h" ∷ []) ∷ []

bubble_run : merge_bubble env "me" [] records ≡ some ("b" ∷ "a" ∷ [])
unfolding merge_bubble content_of
bubble_run = refl

-- The node itself is among the peers that the merge by overlapping messages joins.
overlap_run : merge_overlap env ("h" ∷ []) records ≡ some ("a" ∷ "me" ∷ "b" ∷ [])
unfolding merge_overlap content_of
overlap_run = refl

merge_bubble-IsBubbleMerge_example :
    IsBubbleMerge env "me" [] records (merge_bubble env "me" [] records)
merge_bubble-IsBubbleMerge_example = merge_bubble-IsBubbleMerge env "me" [] kept records

merge_overlap-IsJoined_example :
    IsJoined env "a"
      ("me" ∷ "b" ∷ [])
      (to_set
        (overlap_peers env ("h" ∷ []) ([] ++ record_of env "a" ("me" ∷ "b" ∷ []) ("h" ∷ []) ∷ [])))
      (merge_overlap env ("h" ∷ []) ([] ++ record_of env "a" ("me" ∷ "b" ∷ []) ("h" ∷ []) ∷ []))
merge_overlap-IsJoined_example =
    merge_overlap-IsJoined env ("h" ∷ []) kept "a" ("me" ∷ "b" ∷ []) ("h" ∷ []) "h" [] [] refl refl
      refl refl
