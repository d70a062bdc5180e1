-- ===== src/Auth.antt =====
-- The publishers of podping/dbif/src/lib.rs and the check of an authorization header. SQLite's
-- `LIKE` is a parameter, `like pattern text`.
use Prim.Native.String.{len, slice, ◌++◌}
use podping_alpha.Prelude.{
  String, ◌≡◌, Bool, true, ◌&&◌, List, [], ◌∷◌, Result, ok, err, Outcome, done, panic, ltb,
  if◌then◌else◌, arith, refl, ◌⊎◌, Bool-cases, inl, inr,
}
use podping_alpha.Queue.{Engine}

-- A row of the table `publishers`, whose rows stand in the order of their rowids.
pub record Publisher : Type 0 where
  pub name : String
  pub authval : String

-- The names in the order of the rows.
unfoldable pub publisher_names : List Publisher → List String
publisher_names [] = []
publisher_names (p ∷ rest) = p.name ∷ publisher_names rest

-- A step to a row that fails is unwrapped, here and below.
unfoldable pub get_publishers : Engine → List Publisher → Outcome (Result (List String))
get_publishers e table =
    if e.opens && e.runs
    then (if e.steps then done (ok (publisher_names table)) else panic)
    else done err

abbrev pub Listed : Publisher → List Publisher → Type 0
Listed p [] = ⊥
Listed p (q ∷ rest) = (p ≡ q) ⊎ Listed p rest

module _ (like : String → String → Bool) where
  -- `SELECT name FROM publishers WHERE authval LIKE :pattern LIMIT 1`
  unfoldable pub first_match : String → List Publisher → Result String
  first_match pattern [] = err
  first_match pattern (p ∷ rest) =
      if like pattern p.authval then ok p.name else first_match pattern rest

  unfoldable pub check_auth : Engine → String → List Publisher → Outcome (Result String)
  check_auth e authstring table =
      if e.opens && e.runs
      then (if e.steps then done (first_match authstring table) else panic)
      else done err

  -- `&authstring[0..22]` panics on a text of fewer bytes. (A header's text is ASCII, so every byte
  -- is the start of a character.)
  unfoldable pub check_auth_hybrid : Engine → String → List Publisher → Outcome (Result String)
  check_auth_hybrid e authstring table =
      if e.opens
      then (if ltb (len authstring) 22
          then panic
          else if e.runs
          then (if e.steps then done (first_match (slice authstring 0 22 ++ "%") table) else panic)
          else done err)
      else done err

  -- An accepted pattern matches the value of a publisher in the table, under that name.
  pub first_match-ok :
      (pattern : String) (table : List Publisher) {name : String}
      → first_match pattern table ≡ ok name
      → (p : Publisher) × Listed p table × (p.name ≡ name) × (like pattern p.authval ≡ true)
  unfolding first_match
  first_match-ok pattern [] h = cc
  first_match-ok pattern (p ∷ rest) {name} h = elim (Bool-cases (like pattern p.authval)) [
    | inl hit ↦ (p, inl refl, ground arith, hit)
    | inr miss ↦
        let (q, listed, named, matches) =
          first_match-ok pattern rest {name = name} (ground arith) in
        (q, inr listed, named, matches)
  ]
