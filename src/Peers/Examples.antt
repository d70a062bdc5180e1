-- ===== src/Peers/Examples.antt =====
-- The peers file on a new peer, and on one more than the cap.
use podping_alpha.Prelude.{String, ◌≡◌, refl, false, List, [], ◌∷◌, arith}
use podping_alpha.Peers.{working, save_peer_if_new, IsSaved, save_peer_if_new-IsSaved}

saved_twice :
    save_peer_if_new working "b" "me" (save_peer_if_new working "b" "me" ("a" ∷ []))
    ≡ "a" ∷ "b" ∷ []
unfolding save_peer_if_new
saved_twice = refl

abbrev full_file : List String
full_file =
    "a" ∷ "b" ∷ "c" ∷ "d" ∷ "e" ∷ "f" ∷ "g" ∷ "h" ∷ "i" ∷ "j" ∷ "k" ∷ "l" ∷ "m" ∷ "n" ∷ "o" ∷ []

evicted :
    save_peer_if_new working "z" "me" full_file
    ≡ "b" ∷ "c" ∷ "d" ∷ "e" ∷ "f" ∷ "g" ∷ "h" ∷ "i" ∷ "j" ∷ "k" ∷ "l" ∷ "m" ∷ "n" ∷ "o" ∷ "z" ∷ []
unfolding save_peer_if_new
evicted = refl

-- A file that cannot be read loses all other peers.
wiped : save_peer_if_new (record working { reads = false }) "z" "me" full_file ≡ "z" ∷ []
unfolding save_peer_if_new
wiped = refl

save_peer_if_new-IsSaved_example :
    IsSaved working "b" "me" ("a" ∷ []) (save_peer_if_new working "b" "me" ("a" ∷ []))
save_peer_if_new-IsSaved_example =
    save_peer_if_new-IsSaved working "b" "me" ("a" ∷ []) (refl, tt) (omega arith)
