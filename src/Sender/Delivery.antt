-- ===== src/Sender/Delivery.antt =====
-- No ping gets lost on the way from the queue to the hive-writer (podping/src/main.rs): a round that
-- is not ephemeral removes a URL only if a writer's message names it.
use podping_alpha.Prelude.{
  panic, if◌then◌else◌, ℕ, suc, String, ◌≡◌, refl, Bool, true, false, not, ◌&&◌, Option, none, some,
  List, [], ◌∷◌, ◌++◌, All, All-append, Result, ok, err, done, Returns, Returns-bind, arith, eqb,
  ltb, ◌==◌, if_elim, if_then,
}
use podping_alpha.Ping.{Ping}
use podping_alpha.Queue.{
  Engine, set_ping_as_inflight, reset_pings_in_flight, delete_ping_from_queue,
}
use podping_alpha.Queue.Rows.{Row, url_in, url_in-delete_where, url_in-set_where}
use podping_alpha.Queue.Invariant.{
  IsValid, mark, reset, delete, step, step-IsValid, reset_scan-url_in,
}
use podping_alpha.Queue.Select.{get_pings-total}
use podping_alpha.Sender.{
  Message, garbled, write_error, transaction, Answers, delete_all, delete_podpings,
  receive_messages, drain, Turn, Config, Sender, receive_both, send_gossip, settle, send_pings,
  Round, send_due, reset_if_calm, loop_round,
}

-- The message can be read, and does not name the URL.
abbrev pub IsSilent : String → Message → Type 0
IsSilent u garbled = ⊥
IsSilent u (write_error none) = Unit
IsSilent u (write_error (some iri)) = (iri == u) ≡ false
IsSilent u (transaction none) = Unit
IsSilent u (transaction (some (block, podpings))) = All (All (λ iri. (iri == u) ≡ false)) podpings

abbrev pub IsSilent? : String → Option Message → Type 0
IsSilent? u none = Unit
IsSilent? u (some m) = IsSilent u m

abbrev pub IsQuiet : String → Turn → Type 0
IsQuiet u t = IsSilent? u t.hive_in × All (IsSilent u) t.gossip_in

module _ (u : String) (there : Bool) where
  -- The queue is valid and has the URL as it had it.
  abbrev pub Kept : List Row → Type 0
  Kept queue = IsValid queue × (url_in u queue ≡ there)

  delete-Kept :
      (e : Engine) (iri : String) (queue : List Row)
      → (iri == u) ≡ false
      → Kept queue
      → Kept (delete_ping_from_queue e iri queue).1
  unfolding delete_ping_from_queue step
  delete-Kept e iri queue other k = (
    step-IsValid queue (delete e iri) k.0,
    ground (arith, k.1, other, url_in-delete_where iri u queue),
  )

  delete_all-Kept :
      (ask : Answers) (iris : List String) (queue : List Row)
      → All (λ iri. (iri == u) ≡ false) iris
      → Kept queue
      → Kept (delete_all ask iris queue)
  unfolding delete_all
  delete_all-Kept ask [] queue other k = k
  delete_all-Kept ask (iri ∷ iris) queue other k =
      delete_all-Kept ask iris _ other.1 (delete-Kept (ask iri) iri queue other.0 k)

  delete_podpings-Kept :
      (ask : Answers) (podpings : List (List String)) (queue : List Row)
      → All (All (λ iri. (iri == u) ≡ false)) podpings
      → Kept queue
      → Kept (delete_podpings ask podpings queue)
  unfolding delete_podpings
  delete_podpings-Kept ask [] queue other k = k
  delete_podpings-Kept ask (iris ∷ rest) queue other k =
      delete_podpings-Kept ask rest _ other.1 (delete_all-Kept ask iris queue other.0 k)

  receive-Kept :
      (ask : Answers) (m : Option Message) (queue : List Row)
      → IsSilent? u m
      → Kept queue
      → Returns (λ r. Kept r.1) (receive_messages ask m queue)
  unfolding receive_messages
  receive-Kept ask none queue silent k = k
  receive-Kept ask (some garbled) queue silent k = absurd silent
  receive-Kept ask (some (write_error none)) queue silent k = k
  receive-Kept ask (some (write_error (some iri))) queue silent k =
      delete-Kept (ask iri) iri queue silent k
  receive-Kept ask (some (transaction none)) queue silent k = k
  receive-Kept ask (some (transaction (some (block, podpings)))) queue silent k =
      if_elim (Returns (λ r. Kept r.1)) (eqb block 0) _ _ k
        (delete_podpings-Kept ask podpings queue silent k)

  drain-Kept :
      (ask : Answers) (waiting : List Message) (queue : List Row)
      → All (IsSilent u) waiting
      → Kept queue
      → Returns (λ d. All (IsSilent u) d.0 × Kept d.1) (drain ask waiting queue)
  unfolding drain
  drain-Kept ask [] queue silent k = (tt, k)
  drain-Kept ask (m ∷ waiting) queue silent k =
      Returns-bind (λ r. Kept r.1) _ (receive_messages ask (some m) queue) _
        (receive-Kept ask (some m) queue silent.0 k)
        λ r kept.
          if_elim (Returns (λ d. All (IsSilent u) d.0 × Kept d.1)) r.0 _ _
            (drain-Kept ask waiting r.1 silent.1 kept) (silent.1, kept)

  -- The state keeps the URL, and the messages that still wait do not name it.
  pub record Safe (s : Sender) : Type 0 where
    pub silent : All (IsSilent u) s.waiting
    pub kept : Kept s.queue

  receive_both-Safe :
      (c : Config) (ask : Answers) (hive_in : Option Message) (gossip_in : List Message)
      (s : Sender)
      → IsSilent? u hive_in
      → All (IsSilent u) gossip_in
      → Safe s
      → Returns Safe (receive_both c ask hive_in gossip_in s)
  unfolding receive_both
  receive_both-Safe c ask hive_in gossip_in s quiet quiet' safe =
      Returns-bind (λ r. Kept r.1) Safe (receive_messages ask hive_in s.queue) _
        (receive-Kept ask hive_in s.queue quiet safe.kept)
        λ r kept.
          if_elim (Returns Safe) c.gossip_enabled _ _
            (Returns-bind (λ d. All (IsSilent u) d.0 × Kept d.1) Safe _ _
              (drain-Kept ask (s.waiting ++ gossip_in) r.1
                (All-append (IsSilent u) s.waiting gossip_in safe.silent quiet') kept)
              (λ d h. record { silent = h.0; kept = h.1 }))
            (record { silent = safe.silent; kept = kept })

  send_gossip-Safe :
      (c : Config) (t : Turn) (ping : Ping) (s : Sender) → Safe s → Safe (send_gossip c t ping s)
  unfolding send_gossip
  send_gossip-Safe c t ping s safe =
      if_elim Safe (c.gossip_enabled && t.gossip_takes) _ _
        (record { silent = safe.silent; kept = safe.kept }) safe

  mark-Kept :
      (e : Engine) (ping : Ping) (queue : List Row)
      → Kept queue
      → Kept (set_ping_as_inflight e ping queue).1
  unfolding set_ping_as_inflight step
  mark-Kept e ping queue k = (
    step-IsValid queue (mark e ping) k.0,
    ground (
      arith,
      k.1,
      url_in-set_where (λ r. record r { inflight = true }) (λ r. refl) ping.url u queue,
    ),
  )

  reset-Kept :
      (e : Engine) (now : ℕ) (queue : List Row)
      → Kept queue
      → Kept (reset_pings_in_flight e now queue).1
  unfolding reset_pings_in_flight step
  reset-Kept e now queue k =
      (step-IsValid queue (reset e now) k.0, ground (arith, k.1, reset_scan-url_in now 25 u queue))

  settle-Safe :
      (c : Config) (t : Turn) (ping : Ping) (s : Sender)
      → c.ephemeral ≡ false
      → Safe s
      → Safe (settle c t ping s)
  unfolding settle
  settle-Safe c t ping s lasting safe = record {
    silent = safe.silent;
    kept = rw lasting (mark-Kept t.engine ping s.queue safe.kept);
  }

  send_pings-Safe :
      (c : Config) (turns : ℕ → Turn) (i : ℕ) (pings : List Ping) (s : Sender)
      → c.ephemeral ≡ false
      → ((j : ℕ) → IsQuiet u (turns j))
      → ((j : ℕ) → (turns j).socket_opens ≡ true)
      → Safe s
      → Returns Safe (send_pings c turns i pings s)
  unfolding send_pings
  send_pings-Safe c turns i [] s lasting quiet opens safe = safe
  send_pings-Safe c turns i (ping ∷ pings) s lasting quiet opens safe =
      let t = turns i in
      let s' = send_gossip c t ping s in
      let safe' = send_gossip-Safe c t ping s safe in
      if_elim (Returns Safe) t.hive_takes _ (if t.socket_opens then done s' else panic)
        (Returns-bind Safe Safe (receive_both c t.ask t.hive_in t.gossip_in (settle c t ping s')) _
          (receive_both-Safe c t.ask t.hive_in t.gossip_in (settle c t ping s') (quiet i).0
            (quiet i).1 (settle-Safe c t ping s' lasting safe'))
          λ r kept.
            send_pings-Safe c turns (suc i) pings _ lasting quiet opens
              (record { silent = kept.silent; kept = kept.kept }))
        (if_then (Returns Safe) t.socket_opens _ panic (opens i) safe')

  send_due-Safe :
      (c : Config) (r : Round) (pings : Result (List Ping)) (s : Sender)
      → c.ephemeral ≡ false
      → ((j : ℕ) → IsQuiet u (r.turns j))
      → ((j : ℕ) → (r.turns j).socket_opens ≡ true)
      → Safe s
      → Returns Safe (send_due c r pings s)
  unfolding send_due
  send_due-Safe c r (ok pings) s lasting quiet opens safe =
      send_pings-Safe c r.turns 0 pings s lasting quiet opens safe
  send_due-Safe c r err s lasting quiet opens safe = safe

  loop_round-Safe :
      (c : Config) (r : Round) (s : Sender)
      → c.ephemeral ≡ false
      → IsQuiet u r.before
      → ((j : ℕ) → IsQuiet u (r.turns j))
      → ((j : ℕ) → (r.turns j).socket_opens ≡ true)
      → Safe s
      → r.query.steps ≡ true
      → Returns Safe (loop_round c r s)
  unfolding loop_round reset_if_calm
  loop_round-Safe c r s lasting quiet quiet' opens safe steps =
      Returns-bind Safe Safe _ _
        (receive_both-Safe c r.before.ask r.before.hive_in r.before.gossip_in
          (record s { sent = 0 }) quiet.0 quiet.1
          (record { silent = safe.silent; kept = safe.kept }))
        λ received k.
          Returns-bind (λ _. Unit) Safe _ _
            (get_pings-total r.query r.query_now false received.queue k.kept.0 steps)
            λ pings _.
              Returns-bind Safe Safe _ _ (send_due-Safe c r pings received lasting quiet' opens k)
                λ sent k'.
                  if_elim Safe (not c.ephemeral && ltb sent.sent 25) _ sent
                    (record {
                      silent = k'.silent;
                      kept = reset-Kept r.reset r.reset_now sent.queue k'.kept;
                    })
                    k'

-- A round that is not ephemeral, over a valid queue and readable messages that do not name the URL,
-- runs to its end without a panic, if the query finds each of its rows and a socket can be made
-- where a send fails. It leaves a valid queue that has the URL exactly if it had it before,
-- whichever sends fail and whatever the engine answers to the other statements.
pub loop_round-Returns :
    (u : String) (c : Config) (r : Round) (s : Sender)
    → c.ephemeral ≡ false
    → IsValid s.queue
    → All (IsSilent u) s.waiting
    → IsQuiet u r.before
    → ((j : ℕ) → IsQuiet u (r.turns j))
    → ((j : ℕ) → (r.turns j).socket_opens ≡ true)
    → r.query.steps ≡ true
    → Returns (Safe u (url_in u s.queue)) (loop_round c r s)
loop_round-Returns u c r s lasting v silent quiet quiet' opens steps =
    loop_round-Safe u (url_in u s.queue) c r s lasting quiet quiet' opens
      (record { silent = silent; kept = (v, refl) }) steps
