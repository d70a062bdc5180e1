-- ===== src/Monitor/Steps.antt =====
-- The steps of the tasks of gossip-monitor/src/main.rs, in any order, and what they keep.
use podping_alpha.Prelude.{
  ℕ, ◌+◌, ◌-◌, ◌%◌, ◌^◌, ◌≤◌, Bool, true, ◌≡◌, refl, ◌⊎◌, List, [], ◌∷◌, length, eqb, ltb, leb,
  if◌then◌else◌, if_cases, if_elim, ◌&&◌, ◌||◌, Option, none, some, ◌==◌, ◌++◌,
}
use podping_alpha.Swarm.{PeerAnnounce}
use podping_alpha.Monitor.{
  Hub, Attempt, GossipEvent, Env, wake, settle_down, broadcast_ok, broadcast_failed, watchdog,
  check_isolation, report_health, end_task, receive, handle_event, note_announce,
  isolation_check_interval_secs, insert, received, neighbor_up, neighbor_down, lagged,
  rebootstrap_timeout, isolation_min_unique_peers, periodic_reset_interval_secs, rss_ceiling_bytes,
}

-- A step of one of the tasks.
pub data Step : Type 0 where
  woken : ℕ → Attempt → Step
  sent : Step
  unsent : Step
  watched : ℕ → Step
  isolation_checked : Step
  health_reported : ℕ → ℕ → Step
  task_ended : ℕ → Step
  event : ℕ → ℕ → GossipEvent → Step

-- A reconnection that succeeded: when it began and ended, and whether a reset was asked for.
pub record Rejoin : Type 0 where
  pub began : ℕ
  pub ended : ℕ
  pub forced : Bool

-- Each reconnection was asked for as a reset, or began 30 seconds or more after the end of the one
-- before it; the first one is compared with `last`.
abbrev pub IsSpaced : ℕ → List Rejoin → Type 0
IsSpaced last [] = Unit
IsSpaced last (r ∷ rs) = ((r.forced ≡ true) ⊎ (last + 30 ≤ r.began)) × IsSpaced r.ended rs

module _ {Metrics : Type 0} where
  -- What every step keeps that does not reconnect.
  pub record IsKept (h after : Hub Metrics) : Type 0 where
    pub count : after.reconnect_count ≡ h.reconnect_count
    pub generation : after.receive_generation ≡ h.receive_generation
    pub last : after.last_reconnect ≡ h.last_reconnect

  pub settle_down-IsKept :
      (elapsed : ℕ) (h after : Hub Metrics) → IsKept h after → IsKept h (settle_down elapsed after)
  unfolding settle_down
  settle_down-IsKept elapsed h after k =
      if_elim (IsKept h)
        (ltb 0 after.consecutive_reconnects && ltb isolation_check_interval_secs elapsed)
        (record after { consecutive_reconnects = 0 }) after
        (record { count = k.count; generation = k.generation; last = k.last }) k

  unfoldable pub step : Env Metrics → Step → Hub Metrics → Hub Metrics
  step e (woken now a) h = wake now a h
  step e sent h = broadcast_ok h
  step e unsent h = broadcast_failed h
  step e (watched now) h = watchdog now h
  step e isolation_checked h = check_isolation h
  step e (health_reported now rss_bytes) h = report_health now rss_bytes h
  step e (task_ended generation) h = end_task generation h
  step e (event generation now v) h = receive e generation now v h

  unfoldable pub run : Env Metrics → List Step → Hub Metrics → Hub Metrics
  unfolding step
  run e [] h = h
  run e (s ∷ steps) h = run e steps (step e s h)

  -- The reconnection of a round, which the count of reconnections shows.
  unfoldable pub rejoin_of : Step → Hub Metrics → List Rejoin
  rejoin_of (woken now a) h =
      if eqb (wake now a h).reconnect_count h.reconnect_count
      then []
      else record { began = now; ended = now + a.takes; forced = h.force_endpoint_reset } ∷ []
  rejoin_of s h = []

  unfoldable pub rejoins : Env Metrics → List Step → Hub Metrics → List Rejoin
  unfolding rejoin_of
  rejoins e [] h = []
  rejoins e (s ∷ steps) h = rejoin_of s h ++ rejoins e steps (step e s h)

  note_announce-IsKept :
      (e : Env Metrics) (now : ℕ) (o : Option (PeerAnnounce Metrics)) (h after : Hub Metrics)
      → IsKept h after
      → IsKept h (note_announce e now o after)
  unfolding note_announce
  note_announce-IsKept e now none h after k = k
  note_announce-IsKept e now (some a) h after k =
      if_cases (IsKept h) (a.msg_type == "peer_announce") _ _
        (λ _. record { count = k.count; generation = k.generation; last = k.last }) (λ _. k)

  pub handle_event-IsKept :
      (e : Env Metrics) (now : ℕ) (v : GossipEvent) (h : Hub Metrics)
      → IsKept h (handle_event e now v h)
  unfolding handle_event
  handle_event-IsKept e now (received from content) h =
      note_announce-IsKept e now (e.parse content) h
        (record h { unique_sources = insert from h.unique_sources })
        (record { count = refl; generation = refl; last = refl })
  handle_event-IsKept e now (neighbor_up id) h = record {
    count = refl;
    generation = refl;
    last = refl;
  }
  handle_event-IsKept e now (neighbor_down id) h = record {
    count = refl;
    generation = refl;
    last = refl;
  }
  handle_event-IsKept e now lagged h = record { count = refl; generation = refl; last = refl }

  pub watchdog-IsKept : (now : ℕ) (h : Hub Metrics) → IsKept h (watchdog now h)
  unfolding watchdog
  watchdog-IsKept now h =
      if_cases (IsKept h)
        (leb rebootstrap_timeout ((now + (2 ^ 64 - h.last_notification_time)) % 2 ^ 64)) _ _
        (λ _.
          if_cases (IsKept h) (leb 2 ((h.stall_count + 1) % 2 ^ 64)) _ _
            (λ _. record { count = refl; generation = refl; last = refl })
            (λ _. record { count = refl; generation = refl; last = refl }))
        (λ _. record { count = refl; generation = refl; last = refl })

  pub check_isolation-IsKept : (h : Hub Metrics) → IsKept h (check_isolation h)
  unfolding check_isolation
  check_isolation-IsKept h =
      if_cases (IsKept h) (eqb h.notifications_received 0) _ _
        (λ _. record { count = refl; generation = refl; last = refl })
        (λ _.
          if_cases (IsKept h) (ltb (length h.unique_sources) isolation_min_unique_peers) _ _
            (λ _. record { count = refl; generation = refl; last = refl })
            (λ _. record { count = refl; generation = refl; last = refl }))

  pub report_health-IsKept :
      (now rss_bytes : ℕ) (h : Hub Metrics) → IsKept h (report_health now rss_bytes h)
  unfolding report_health
  report_health-IsKept now rss_bytes h =
      if_cases (IsKept h)
        (leb periodic_reset_interval_secs (now - h.last_reset) || ltb rss_ceiling_bytes rss_bytes) _
        _ (λ _. record { count = refl; generation = refl; last = refl })
        (λ _. record { count = refl; generation = refl; last = refl })

  pub end_task-IsKept : (generation : ℕ) (h : Hub Metrics) → IsKept h (end_task generation h)
  unfolding end_task
  end_task-IsKept generation h =
      if_cases (IsKept h) (eqb h.receive_generation generation) _ _
        (λ _. record { count = refl; generation = refl; last = refl })
        (λ _. record { count = refl; generation = refl; last = refl })

  pub receive-IsKept :
      (e : Env Metrics) (generation now : ℕ) (v : GossipEvent) (h : Hub Metrics)
      → IsKept h (receive e generation now v h)
  unfolding receive
  receive-IsKept e generation now v h =
      if_cases (IsKept h) (eqb h.receive_generation generation) _ _
        (λ _. handle_event-IsKept e now v h)
        (λ _. record { count = refl; generation = refl; last = refl })
