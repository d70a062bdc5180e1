-- ===== src/Monitor/Reconnects.antt =====
-- How often the monitor of gossip-monitor/src/main.rs reconnects.
use podping_alpha.Prelude.{
  ℕ, ◌+◌, ◌-◌, ◌%◌, ◌^◌, ◌≤◌, ◌<◌, Bool, true, false, not, ◌≡◌, refl, ◌⊎◌, inl, inr, List, [], ◌∷◌,
  length, eqb, ltb, if_cases, ◌&&◌, arith, ◌++◌, if_then, if_else, subst,
}
use podping_alpha.Monitor.{Hub, Attempt, Env, wake, reconnect, rejoined, needs_reconnect}
use podping_alpha.Monitor.Steps.{
  Step, woken, sent, unsent, watched, isolation_checked, health_reported, task_ended, event, Rejoin,
  IsSpaced, IsKept, step, run, rejoin_of, rejoins, settle_down-IsKept, watchdog-IsKept,
  check_isolation-IsKept, report_health-IsKept, end_task-IsKept, receive-IsKept,
}

module _ {Metrics : Type 0} where
  -- What a round changes that reconnects.
  record IsRejoined (now : ℕ) (a : Attempt) (h after : Hub Metrics) : Type 0 where
    count : after.reconnect_count ≡ (h.reconnect_count + 1) % 2 ^ 64
    generation : after.receive_generation ≡ (h.receive_generation + 1) % 2 ^ 64
    last : after.last_reconnect ≡ now + a.takes
    due : (h.force_endpoint_reset ≡ true) ⊎ (h.last_reconnect + 30 ≤ now)

  wake-cases :
      (now : ℕ) (a : Attempt) (h : Hub Metrics)
      → IsKept h (wake now a h) ⊎ IsRejoined now a h (wake now a h)
  unfolding wake reconnect rejoined
  wake-cases now a h =
      let P : Hub Metrics → Type 0 = λ after. IsKept h after ⊎ IsRejoined now a h after in
      if_cases P (needs_reconnect h) _ _
        (λ _.
          if_cases P (not h.force_endpoint_reset && ltb (now - h.last_reconnect) 30) _ _
            (λ _. inl (record { count = refl; generation = refl; last = refl }))
            (λ f.
              if_cases P (a.subscribes && a.splits) _ _
                (λ _. inr (record {
                  count = refl;
                  generation = refl;
                  last = refl;
                  due = due_of h.force_endpoint_reset h.last_reconnect f;
                }))
                (λ _. inl (record { count = refl; generation = refl; last = refl }))))
        (λ _. inl (
          settle_down-IsKept (now - h.last_reconnect) h
            (record h { reconnect_requested = false; force_endpoint_reset = false })
            (record { count = refl; generation = refl; last = refl })))
    where
      due_of :
          (forced : Bool) (last : ℕ)
          → (not forced && ltb (now - last) 30) ≡ false
          → (forced ≡ true) ⊎ (last + 30 ≤ now)
      due_of true last f = inl refl
      due_of false last f = inr (ground (arith, f))

  -- A step without a reconnection, and one with it.
  data IsStep (before after : Hub Metrics) : List Rejoin → Type 0 where
    quiet : IsKept before after → IsStep before after []
    joined :
        (r : Rejoin)
        → (r.forced ≡ true) ⊎ (before.last_reconnect + 30 ≤ r.began)
        → after.last_reconnect ≡ r.ended
        → after.receive_generation ≡ (before.receive_generation + 1) % 2 ^ 64
        → IsStep before after (r ∷ [])

  step-IsStep :
      (e : Env Metrics) (s : Step) (h : Hub Metrics) → IsStep h (step e s h) (rejoin_of s h)
  unfolding step rejoin_of
  step-IsStep e (woken now a) h = elim (wake-cases now a h) [
    | inl k ↦
        if_then (IsStep h (wake now a h)) (eqb (wake now a h).reconnect_count h.reconnect_count) []
          _ (ground (arith, k.count)) (quiet k)
    | inr k ↦
        if_else (IsStep h (wake now a h)) (eqb (wake now a h).reconnect_count h.reconnect_count) []
          _ (changed h.reconnect_count (wake now a h).reconnect_count k.count)
          (joined (record { began = now; ended = now + a.takes; forced = h.force_endpoint_reset })
            k.due k.last k.generation)
  ]
    where
      changed : (c d : ℕ) → d ≡ (c + 1) % 2 ^ 64 → eqb d c ≡ false
      changed c d q = ground (arith, q)
  step-IsStep e sent h = quiet (record { count = refl; generation = refl; last = refl })
  step-IsStep e unsent h = quiet (record { count = refl; generation = refl; last = refl })
  step-IsStep e (watched now) h = quiet (watchdog-IsKept now h)
  step-IsStep e isolation_checked h = quiet (check_isolation-IsKept h)
  step-IsStep e (health_reported now rss_bytes) h = quiet (report_health-IsKept now rss_bytes h)
  step-IsStep e (task_ended generation) h = quiet (end_task-IsKept generation h)
  step-IsStep e (event generation now v) h = quiet (receive-IsKept e generation now v h)

  spaced :
      (before after : Hub Metrics) (rs more : List Rejoin)
      → IsStep before after rs
      → IsSpaced after.last_reconnect more
      → IsSpaced before.last_reconnect (rs ++ more)
  spaced before after rs more (quiet k) i = subst (λ l. IsSpaced l more) k.last i
  spaced before after rs more (joined r due last generation) i =
      (due, subst (λ l. IsSpaced l more) last i)

  counted :
      (before after : Hub Metrics) (rs more : List Rejoin) (final : ℕ)
      → IsStep before after rs
      → before.receive_generation < 2 ^ 64
      → (after.receive_generation < 2 ^ 64
          → final ≡ (after.receive_generation + length more) % 2 ^ 64)
      → final ≡ (before.receive_generation + length (rs ++ more)) % 2 ^ 64
  counted before after rs more final (quiet k) l q = ground (arith, k.generation, q, l)
  counted before after rs more final (joined r due last generation) l q =
      ground (arith, generation, q, l)

  run-generation :
      (e : Env Metrics) (steps : List Step) (h : Hub Metrics)
      → h.receive_generation < 2 ^ 64
      → (run e steps h).receive_generation
        ≡ (h.receive_generation + length (rejoins e steps h)) % 2 ^ 64
  unfolding run rejoins
  run-generation e [] h l = omega (arith, l)
  run-generation e (s ∷ steps) h l =
      counted h (step e s h) (rejoin_of s h) (rejoins e steps (step e s h))
        (run e (s ∷ steps) h).receive_generation (step-IsStep e s h) l
        (run-generation e steps (step e s h))

  rejoins-IsSpaced :
      (e : Env Metrics) (steps : List Step) (h : Hub Metrics)
      → IsSpaced h.last_reconnect (rejoins e steps h)
  unfolding rejoins
  rejoins-IsSpaced e [] h = tt
  rejoins-IsSpaced e (s ∷ steps) h =
      spaced h (step e s h) (rejoin_of s h) (rejoins e steps (step e s h)) (step-IsStep e s h)
        (rejoins-IsSpaced e steps (step e s h))

  -- Whatever the tasks do, and in whatever order: a reconnection begins 30 seconds or more after
  -- the end of the one before it, unless a reset of the endpoint was asked for; and each of them,
  -- and nothing else, begins a new generation of receive tasks.
  pub run-IsSpaced :
      (e : Env Metrics) (steps : List Step) (h : Hub Metrics)
      → h.receive_generation < 2 ^ 64
      → IsSpaced h.last_reconnect (rejoins e steps h)
        × ((run e steps h).receive_generation
            ≡ (h.receive_generation + length (rejoins e steps h)) % 2 ^ 64)
  run-IsSpaced e steps h l = (rejoins-IsSpaced e steps h, run-generation e steps h l)
