-- ===== src/Bootstrap/Minutes.antt =====
-- When the bootstrap loop of dtt-fork/src/gossip/topic/bootstrap.rs publishes, and when it ends.
use podping_alpha.Prelude.{
  ℕ, ◌-◌, ◌≤◌, ◌<◌, Bool, true, false, ◌||◌, ◌≡◌, refl, List, [], ◌∷◌, ◌++◌, All, All-map, length,
  eqb, if_cases, if_elim, arith, if_then, subst, sym, ap, ◌∙◌, Outcome, done, panic, ◌>>=◌,
  if◌then◌else◌,
}
use podping_alpha.Merge.{Env, DhtRecord}
use podping_alpha.Bootstrap.{
  Round, Progress, begin, minute_of, publish_once, join_nodes, round, rounds, bootstrap_nodes,
  ask_each, finished, unless_panic,
}

-- The minutes of the records, the latest first: each one is later than those before it.
abbrev pub IsOnce : List ℕ → Type 0
IsOnce [] = Unit
IsOnce (m ∷ older) = All (λ k. k < m) older × IsOnce older

-- The clock does not go back.
abbrev pub IsOrdered : ℕ → List Round → Type 0
IsOrdered now [] = Unit
IsOrdered now (r ∷ rs) = (now ≤ r.minute) × IsOrdered r.minute rs

abbrev pub is_yes : Outcome Bool → Bool
is_yes (done b) = b
is_yes panic = false

abbrev pub is_joined : Round → Bool
is_joined r = is_yes r.joined_before || is_yes r.joined_meanwhile || is_yes r.joined_finally

abbrev pub any_joined : List Round → Bool
any_joined [] = false
any_joined (r ∷ rs) = is_joined r || any_joined rs

-- What is published until the minute `now`.
record IsCurrent (now : ℕ) (p : Progress) : Type 0 where
  once : IsOnce p.published
  known : All (λ k. k ≤ p.last_published_unix_minute) p.published
  last : p.last_published_unix_minute ≤ now

publish_once-IsCurrent :
    (now : ℕ) (r : Round) (p : Progress)
    → now ≤ r.minute
    → IsCurrent now p
    → IsCurrent r.minute (publish_once r (minute_of r p) p)
unfolding publish_once
publish_once-IsCurrent now r p l i =
    let m = minute_of r p in
    if_cases (IsCurrent r.minute) (eqb m p.last_published_unix_minute) _ _
      (λ _. record { once = i.once; known = i.known; last = omega (arith, i.last, l) })
      (λ f.
        let later : p.last_published_unix_minute < m = ground (arith, f, i.last, l) in
        let older : All (λ k. k < m) p.published =
          All-map (λ k. k < m) (λ k q. omega (arith, q, later)) p.published i.known in
        let soft : All (λ k. k ≤ m) p.published =
          All-map (λ k. k ≤ m) (λ k q. omega (arith, q, later)) p.published i.known in
        record {
          once = if_elim IsOnce r.signs (m ∷ p.published) p.published (older, i.once) i.once;
          known =
              if_elim (All (λ k. k ≤ m)) r.signs (m ∷ p.published) p.published (omega arith, soft)
                soft;
          last = ground arith;
        })

-- A round, and what it tells when the loop ends with it.
record IsRound (r : Round) (after : Progress) : Type 0 where
  current : IsCurrent r.minute after
  ended : after.is_done ≡ true → (is_joined r ≡ true) × (after.is_dead ≡ false)

publish_once-IsRound :
    (now : ℕ) (r : Round) (p : Progress)
    → now ≤ r.minute
    → p.is_done ≡ false
    → IsCurrent now p
    → IsRound r (publish_once r (minute_of r p) p)
unfolding publish_once
publish_once-IsRound now r p l d i = record {
  current = publish_once-IsCurrent now r p l i;
  ended = λ t. absurd (ground (arith, d, t));
}

finished-IsRound :
    (now : ℕ) (r : Round) (p : Progress)
    → now ≤ r.minute
    → p.is_dead ≡ false
    → is_joined r ≡ true
    → IsCurrent now p
    → IsRound r (finished p)
finished-IsRound now r p l a j i = record {
  current = record { once = i.once; known = i.known; last = omega (arith, i.last, l) };
  ended = λ t. (j, a);
}

died-IsRound :
    (now : ℕ) (r : Round) (p : Progress)
    → now ≤ r.minute
    → p.is_done ≡ false
    → IsCurrent now p
    → IsRound r (record p { is_dead = true })
died-IsRound now r p l d i = record {
  current = record { once = i.once; known = i.known; last = omega (arith, i.last, l) };
  ended = λ t. absurd (ground (arith, d, t));
}

unless_panic-IsRound :
    {A : Type 0} (now : ℕ) (r : Round) (p : Progress) (m : Outcome A) (go : A → Progress)
    → now ≤ r.minute
    → p.is_done ≡ false
    → IsCurrent now p
    → ((a : A) → m ≡ done a → IsRound r (go a))
    → IsRound r (unless_panic m p go)
unfolding unless_panic
unless_panic-IsRound now r p (done a) go l d i h = h a refl
unless_panic-IsRound now r p panic go l d i h = died-IsRound now r p l d i

yes : (m : Outcome Bool) (b : Bool) → m ≡ done b → b ≡ true → is_yes m ≡ true
yes m b e t = ap is_yes e ∙ t

second : (m k : Outcome Bool) (b : Bool) → (m >>= λ _. k) ≡ done b → k ≡ done b
second (done a) k b e = e
second panic k b e = cc

join_nodes-IsRound :
    (e : Env) (now : ℕ) (r : Round) (records : List DhtRecord) (p : Progress)
    → now ≤ r.minute
    → p.is_done ≡ false
    → p.is_dead ≡ false
    → IsCurrent now p
    → IsRound r (join_nodes e r records p)
unfolding join_nodes
join_nodes-IsRound e now r records p l d a i =
    let asked = ask_each r (bootstrap_nodes e records) p.asked in
    let after : Progress = record p { asked = asked.1 } in
    let still : IsCurrent now after = record { once = i.once; known = i.known; last = i.last } in
    unless_panic-IsRound now r p r.joined_meanwhile _ l d i (λ b j.
      if_cases (IsRound r) b _ _
        (λ t. finished-IsRound now r p l a (ground (arith, yes r.joined_meanwhile b j t)) i)
        (λ _.
          if_elim (IsRound r) asked.0 _ _
            (unless_panic-IsRound now r after (r.joined_soon >>= λ _. r.joined_finally) _ l d still
              (λ c k.
                if_cases (IsRound r) c _ _
                  (λ t.
                    finished-IsRound now r after l a
                      (ground (
                        arith,
                        yes r.joined_finally c (second r.joined_soon r.joined_finally c k) t,
                      ))
                      still)
                  (λ _. publish_once-IsRound now r after l d still)))
            (died-IsRound now r after l d still)))

round-IsRound :
    (e : Env) (now : ℕ) (r : Round) (p : Progress)
    → now ≤ r.minute
    → p.is_done ≡ false
    → p.is_dead ≡ false
    → IsCurrent now p
    → IsRound r (round e r p)
unfolding round
round-IsRound e now r p l d a i =
    let found : Outcome (List DhtRecord) =
      r.records_of (minute_of r p - 1)
      >>= (λ older. r.records_of (minute_of r p) >>= (λ newer. done (older ++ newer))) in
    unless_panic-IsRound now r p r.joined_before _ l d i (λ b j.
      if_cases (IsRound r) b _ _
        (λ t. finished-IsRound now r p l a (ground (arith, yes r.joined_before b j t)) i)
        (λ _. unless_panic-IsRound now r p found _ l d i (λ records _.
          if_elim (IsRound r) (eqb (length records) 0) _ _ (publish_once-IsRound now r p l d i)
            (join_nodes-IsRound e now r records p l d a i))))

-- The rounds that are left; those after the end do nothing.
record IsRun (rs : List Round) (before after : Progress) : Type 0 where
  once : IsOnce after.published
  ended :
      after.is_done ≡ true
      → before.is_done ≡ false
      → (any_joined rs ≡ true) × (after.is_dead ≡ false)

rounds-ended :
    (e : Env) (rs : List Round) (p : Progress) → (p.is_done || p.is_dead) ≡ true → rounds e rs p ≡ p
unfolding rounds
rounds-ended e [] p d = refl
rounds-ended e (r ∷ rs) p d =
    if_then (λ q. rounds e rs q ≡ p) (p.is_done || p.is_dead) p (round e r p) d
      (rounds-ended e rs p d)

rounds-IsRun :
    (e : Env) (now : ℕ) (rs : List Round) (p : Progress)
    → IsOrdered now rs
    → IsCurrent now p
    → IsRun rs p (rounds e rs p)
unfolding rounds
rounds-IsRun e now [] p o i = record { once = i.once; ended = λ t f. absurd (ground (arith, t, f)) }
rounds-IsRun e now (r ∷ rs) p o i =
    if_cases (λ q. IsRun (r ∷ rs) p (rounds e rs q)) (p.is_done || p.is_dead) p (round e r p)
      (λ t.
        subst (IsRun (r ∷ rs) p) (sym (rounds-ended e rs p t))
          (record { once = i.once; ended = λ d f. absurd (ground (arith, d, f)) }))
      (λ f.
        let d : p.is_done ≡ false = ground (arith, f) in
        let a : p.is_dead ≡ false = ground (arith, f) in
        let next = round e r p in
        let k = round-IsRound e now r p o.0 d a i in
        let rest = rounds-IsRun e r.minute rs next o.1 k.current in
        record {
          once = rest.once;
          ended = λ t _.
              if_cases
                (λ (b : Bool).
                  next.is_done ≡ b
                  → (any_joined (r ∷ rs) ≡ true) × ((rounds e rs next).is_dead ≡ false))
                next.is_done true false
                (λ h _. (
                  ground (arith, (k.ended h).0),
                  ap (λ (q : Progress). q.is_dead) (rounds-ended e rs next (ground (arith, h)))
                      ∙ (k.ended h).1,
                ))
                (λ h _. (ground (arith, (rest.ended t h).0), (rest.ended t h).1))
                (same next.is_done);
        })
  where
    same : (b : Bool) → b ≡ (if b then true else false)
    same true = refl
    same false = refl

-- On a clock that does not go back, whatever the DHT and the gossip library answer: each record that
-- the loop publishes is for a later minute than those before it, and the loop signals that it is
-- done only if a round found the node joined and nothing panicked. (A panic, of `get_records` or of
-- `is_joined`, ends it too, without the signal.)
pub rounds-IsOnce :
    (e : Env) (now : ℕ) (rs : List Round)
    → IsOrdered now rs
    → IsOnce (rounds e rs begin).published
      × ((rounds e rs begin).is_done ≡ true
          → (any_joined rs ≡ true) × ((rounds e rs begin).is_dead ≡ false))
rounds-IsOnce e now rs o =
    let i = rounds-IsRun e now rs begin o (record { once = tt; known = tt; last = omega arith }) in
    (i.once, λ t. i.ended t refl)
