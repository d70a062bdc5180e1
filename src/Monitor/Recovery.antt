-- ===== src/Monitor/Recovery.antt =====
-- What brings the monitor of gossip-monitor/src/main.rs back after a silence, and what does not.
use podping_alpha.Prelude.{
  ℕ, ◌+◌, ◌-◌, ◌%◌, ◌^◌, ◌≤◌, ◌<◌, true, false, not, ◌≡◌, refl, List, [], ◌∷◌, ltb, if_cases,
  if_then, if_else, ◌&&◌, arith,
}
use podping_alpha.Monitor.{
  Hub, Attempt, wake, reconnect, settle_down, needs_reconnect, isolation_check_interval_secs,
  rebootstrap_timeout,
}

-- From `before`, the monitor has begun a new generation of receive tasks at the time `at`, with
-- nothing left to do and no neighbors yet.
pub record IsRecovered {Metrics : Type 0} (at : ℕ) (before after : Hub Metrics) : Type 0 where
  pub generation : after.receive_generation ≡ (before.receive_generation + 1) % 2 ^ 64
  pub counted : after.reconnect_count ≡ (before.reconnect_count + 1) % 2 ^ 64
  pub time : after.last_reconnect ≡ at
  pub calm : needs_reconnect after ≡ false
  pub fresh : (after.neighbor_ids ≡ []) × (after.neighbor_count ≡ 0)

module _ {Metrics : Type 0} where
  -- Nothing was received for long enough.
  abbrev pub IsSilent : ℕ → Hub Metrics → Type 0
  IsSilent now h = (h.last_notification_time + rebootstrap_timeout ≤ now) × (now < 2 ^ 64)

  -- A reconnection is due, the last one being that of `h`.
  abbrev IsDue : Hub Metrics → Hub Metrics → Type 0
  IsDue h after =
      (needs_reconnect after ≡ true)
      × (after.last_reconnect ≡ h.last_reconnect)
      × (after.receive_generation ≡ h.receive_generation)
      × (after.reconnect_count ≡ h.reconnect_count)

  -- Off the topic, and no reconnection is due.
  IsStranded : Hub Metrics → Type 0
  IsStranded h = (h.is_joined ≡ false) × (needs_reconnect h ≡ false)

  wake-IsStranded :
      (now : ℕ) (a : Attempt) (h : Hub Metrics) → IsStranded h → IsStranded (wake now a h)
  unfolding wake settle_down IsStranded
  wake-IsStranded now a h k = if_else IsStranded (needs_reconnect h) _ _ k.1 (
      if_cases IsStranded
        (ltb 0 h.consecutive_reconnects
          && ltb isolation_check_interval_secs (now - h.last_reconnect))
        _ _ (λ _. (k.0, ground (arith, k.1))) (λ _. (k.0, ground (arith, k.1))))

  failed-IsStranded :
      (now : ℕ) (a : Attempt) (h : Hub Metrics)
      → needs_reconnect h ≡ true
      → h.last_reconnect + 30 ≤ now
      → (a.subscribes && a.splits) ≡ false
      → IsStranded (wake now a h)
  unfolding wake reconnect IsStranded
  failed-IsStranded now a h n l s = if_then IsStranded (needs_reconnect h) _ _ n (
      if_else IsStranded (not h.force_endpoint_reset && ltb (now - h.last_reconnect) 30) _ _
        (ground (arith, l)) (if_else IsStranded (a.subscribes && a.splits) _ _ s (refl, refl)))

  unfoldable pub wakes : List (ℕ × Attempt) → Hub Metrics → Hub Metrics
  wakes [] h = h
  wakes (w ∷ ws) h = wakes ws (wake w.0 w.1 h)

  stranded : (ws : List (ℕ × Attempt)) (h : Hub Metrics) → IsStranded h → IsStranded (wakes ws h)
  unfolding wakes
  stranded [] h k = k
  stranded (w ∷ ws) h k = stranded ws (wake w.0 w.1 h) (wake-IsStranded w.0 w.1 h k)

  -- A reconnection that is due and fails to subscribe, 30 seconds or more after the last one, is not
  -- tried again by any further rounds of the reconnection monitor alone.
  pub failed_not_retried :
      (now : ℕ) (a : Attempt) (h : Hub Metrics) (ws : List (ℕ × Attempt))
      → needs_reconnect h ≡ true
      → h.last_reconnect + 30 ≤ now
      → (a.subscribes && a.splits) ≡ false
      → (wakes ws (wake now a h)).is_joined ≡ false
  unfolding IsStranded
  failed_not_retried now a h ws n l s =
      (stranded ws (wake now a h) (failed-IsStranded now a h n l s)).0
