-- ===== src/Bootstrap/Examples.antt =====
-- A node that finds nobody in its first two rounds: a run of
-- dtt-fork/src/gossip/topic/bootstrap.rs.
use podping_alpha.Prelude.{ℕ, true, false, not, ◌≡◌, refl, List, [], ◌∷◌, ◌==◌, arith, done}
use podping_alpha.Merge.{Env}
use podping_alpha.Bootstrap.{Round, begin, rounds}
use podping_alpha.Bootstrap.Minutes.{IsOnce, any_joined, rounds-IsOnce}

abbrev env : Env
env = record { zero_key = "0"; is_key = λ k. not (k == "0"); shuffle = λ xs. xs }

abbrev alone : ℕ → Round
alone minute = record {
  minute = minute;
  joined_before = done false;
  joined_meanwhile = done false;
  joined_soon = done false;
  joined_finally = done false;
  records_of = λ m. done [];
  join_is_ok = λ p. true;
  joined_via = λ p. done false;
  signs = true;
}

abbrev reached : Round
reached = record (alone 11) { joined_before = done true }

abbrev three_rounds : List Round
three_rounds = alone 10 ∷ alone 10 ∷ reached ∷ []

published_twice : (rounds env three_rounds begin).published ≡ 10 ∷ 9 ∷ []
unfolding rounds
published_twice = refl

rounds-IsOnce_example :
    IsOnce (rounds env three_rounds begin).published
    × ((rounds env three_rounds begin).is_done ≡ true
        → (any_joined three_rounds ≡ true) × ((rounds env three_rounds begin).is_dead ≡ false))
rounds-IsOnce_example =
    rounds-IsOnce env 10 three_rounds (omega arith, (omega arith, (omega arith, tt)))
