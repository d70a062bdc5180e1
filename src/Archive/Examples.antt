-- ===== src/Archive/Examples.antt =====
-- A query on three messages, one of them too old.
use podping_alpha.Prelude.{◌≡◌, refl, List, [], ◌∷◌, map}
use podping_alpha.Archive.{Message, Archive, messages_since}
use podping_alpha.Archive.Queries.{IsAnswer, messages_since-IsAnswer}

abbrev archive : Archive
archive = record {
  messages =
      record { hash = "late"; payload = 7 ∷ 8 ∷ []; created_at = 20 }
      ∷ record { hash = "early"; payload = 9 ∷ []; created_at = 10 }
      ∷ record { hash = "old"; payload = 6 ∷ []; created_at = 2 }
      ∷ [];
  manifest = [];
}

since_five : messages_since 5 archive ≡ (9 ∷ []) ∷ (7 ∷ 8 ∷ []) ∷ []
unfolding messages_since
since_five = refl

messages_since-IsAnswer_example :
    (rows : List Message) × ((messages_since 5 archive ≡ map (λ (m : Message). m.payload) rows)
      × IsAnswer 5 archive rows)
messages_since-IsAnswer_example = messages_since-IsAnswer 5 archive
