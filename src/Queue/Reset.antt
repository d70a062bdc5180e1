-- ===== src/Queue/Reset.antt =====
-- `reset_pings_in_flight` of podping/dbif/src/lib.rs.
use podping_alpha.Prelude.{
  ℕ, zero, suc, ◌-◌, String, ◌≡◌, refl, Bool, true, false, Option, none, some, List, [], ◌∷◌,
  length, select, arith, ◌==◌, if◌then◌else◌, if_cases, ◌⊎◌, inl, inr,
}
use podping_alpha.Queue.{sound, is_stuck, reset_scan, reset_pings_in_flight}
use podping_alpha.Queue.Rows.{Row, find_row}

stuck : ℕ → List Row → ℕ
stuck now rows = length (select (is_stuck now) rows)

stuck-reset_scan :
    (now limit : ℕ) (rows : List Row)
    → stuck now (reset_scan now limit rows) ≡ stuck now rows - limit
unfolding stuck reset_scan
stuck-reset_scan now limit [] = omega arith
stuck-reset_scan now zero (r ∷ rows) = omega arith
stuck-reset_scan now (suc limit) (r ∷ rows) =
    ground (arith, stuck-reset_scan now limit rows, stuck-reset_scan now (suc limit) rows)

-- A reset leaves a row as it was, or gives a stuck one back to the senders.
abbrev pub Released : ℕ → Row → Row → Type 0
Released now old new =
    (new ≡ old)
    ⊎ ((is_stuck now old ≡ true) × (new ≡ record old { inflight = false; createdon = now }))

abbrev pub ReleasedAt : ℕ → Option Row → Option Row → Type 0
ReleasedAt now none none = Unit
ReleasedAt now none (some new) = ⊥
ReleasedAt now (some old) none = ⊥
ReleasedAt now (some old) (some new) = Released now old new

ReleasedAt-refl : (now : ℕ) (o : Option Row) → ReleasedAt now o o
ReleasedAt-refl now none = tt
ReleasedAt-refl now (some r) = inl refl

ReleasedAt-if :
    (now : ℕ) (b : Bool) (x x' y y' : Option Row)
    → ReleasedAt now x x'
    → ReleasedAt now y y'
    → ReleasedAt now (if b then x else y) (if b then x' else y')
ReleasedAt-if now true x x' y y' h k = h
ReleasedAt-if now false x x' y y' h k = k

find_row-reset_scan :
    (now limit : ℕ) (u : String) (rows : List Row)
    → ReleasedAt now (find_row u rows) (find_row u (reset_scan now limit rows))
unfolding find_row reset_scan
find_row-reset_scan now limit u [] = tt
find_row-reset_scan now zero u (r ∷ rows) = ReleasedAt-refl now (find_row u (r ∷ rows))
find_row-reset_scan now (suc limit) u (r ∷ rows) =
    let hit = find_row-reset_scan now limit u rows in
    let miss = find_row-reset_scan now (suc limit) u rows in
    if_cases (λ l. ReleasedAt now (find_row u (r ∷ rows)) (find_row u l)) (is_stuck now r) _ _
      (λ s. ReleasedAt-if now (r.url == u) (some r) _ _ _ (inr (s, refl)) hit)
      (λ _. ReleasedAt-if now (r.url == u) (some r) _ _ _ (inl refl) miss)

-- A reset gives back the stuck rows, those in flight whose ping is more than 180 seconds old (by
-- `createdon`, which marking a row in flight does not set), up to 25 of them: that many fewer are
-- stuck afterwards. Each URL keeps its row, unchanged or, if it was stuck, with
-- the flag cleared and the time set to now.
pub reset_pings_lem :
    (now : ℕ) (queue : List Row)
    → (length (select (is_stuck now) (reset_pings_in_flight sound now queue).1)
        ≡ length (select (is_stuck now) queue) - 25)
      × ((u : String)
          → ReleasedAt now
              (find_row u queue)
              (find_row u (reset_pings_in_flight sound now queue).1))
unfolding reset_pings_in_flight stuck
reset_pings_lem now queue = (stuck-reset_scan now 25 queue, λ u. find_row-reset_scan now 25 u queue)
