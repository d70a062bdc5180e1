-- ===== src/Swarm/Examples.antt =====
-- A registry of two peers, one of which falls silent.
use podping_alpha.Prelude.{ℕ, String, ◌≡◌, refl, Bool, true, none, some, List, [], ◌∷◌}
use podping_alpha.Swarm.{PeerAnnounce, new, update, prune_stale}
use podping_alpha.Swarm.Log.{SuggestionLogEntry, push_all, latest, push_all-latest}
use podping_alpha.Swarm.Tidy.{Step, announced, pruned, run, IsTidy, run-new-IsTidy}

abbrev announcement : String → PeerAnnounce ℕ
announcement id = record {
  msg_type = "peer_announce";
  node_id = id;
  friendly_name = none;
  version = "0.1.4";
  neighbors = some [];
  metrics = 5;
}

abbrev samples : ℕ → Bool
samples m = true

abbrev steps : List (Step ℕ)
steps = announced 100 (announcement "a") ∷ announced 2000 (announcement "b") ∷ pruned 2100 ∷ []

run-new-IsTidy_example : IsTidy (run samples steps new)
run-new-IsTidy_example = run-new-IsTidy samples steps

abbrev two_peers : List (Step ℕ)
two_peers = announced 100 (announcement "a") ∷ announced 2000 (announcement "b") ∷ []

pruned_one : (prune_stale 2100 (run samples two_peers new)).1 ≡ 1
unfolding prune_stale run update
pruned_one = refl

abbrev entry : String → SuggestionLogEntry
entry id = record {
  timestamp = 1;
  target_node_id = id;
  target_name = none;
  suggested_peers = [];
  reason = "low_connectivity";
}

push_all-latest_example :
    push_all (entry "a" ∷ entry "b" ∷ []) [] ≡ latest (entry "a" ∷ entry "b" ∷ [])
push_all-latest_example = push_all-latest (entry "a" ∷ entry "b" ∷ [])
