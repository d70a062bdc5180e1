-- ===== src/Sender/Marks.antt =====
-- What the sender thread of podping/src/main.rs sends in a round, in which order, and what it counts.
use mathlib.Core.List.{append_assoc, append-nil}
use native.Mathlib.Nat.{add-zero}
use podping_alpha.Prelude.{
  ℕ, suc, ◌+◌, ◌<◌, true, panic, if◌then◌else◌, String, ◌≡◌, refl, sym, ◌∙◌, ◌⊎◌, inl, inr, false,
  ◌&&◌, Option, none, some, List, [], ◌∷◌, ◌++◌, length, take, All, All-append, done, Returns,
  Returns-bind, Returns-imp, ap, arith, eqb, ◌==◌, str_eq_refl, if_elim, if_cases, if_then, zero,
}
use podping_alpha.Ping.{Ping}
use podping_alpha.Queue.{sound, is_due}
use podping_alpha.Queue.Rows.{Row, find_row}
use podping_alpha.Queue.Updates.{find_row-set_ping_as_inflight, find_row-delete_ping}
use podping_alpha.Sender.{
  Message, garbled, write_error, transaction, Answers, receive_messages, drain, Turn, Config,
  Sender, receive_both, send_gossip, settle, send_pings,
}

abbrev pub IsReadable : Message → Type 0
IsReadable garbled = ⊥
IsReadable (write_error iri) = Unit
IsReadable (transaction t) = Unit

abbrev pub IsReadable? : Option Message → Type 0
IsReadable? none = Unit
IsReadable? (some m) = IsReadable m

abbrev pub IsReadableTurn : Turn → Type 0
IsReadableTurn t = IsReadable? t.hive_in × All IsReadable t.gossip_in

receive-Returns :
    (ask : Answers) (m : Option Message) (queue : List Row)
    → IsReadable? m
    → Returns (λ _. Unit {0}) (receive_messages ask m queue)
unfolding receive_messages
receive-Returns ask none queue h = tt
receive-Returns ask (some garbled) queue h = absurd h
receive-Returns ask (some (write_error none)) queue h = tt
receive-Returns ask (some (write_error (some iri))) queue h = tt
receive-Returns ask (some (transaction none)) queue h = tt
receive-Returns ask (some (transaction (some (block, podpings)))) queue h =
    if_elim (Returns (λ _. Unit {0})) (eqb block 0) _ _ tt tt

drain-Returns :
    (ask : Answers) (waiting : List Message) (queue : List Row)
    → All IsReadable waiting
    → Returns (λ d. All IsReadable d.0) (drain ask waiting queue)
unfolding drain
drain-Returns ask [] queue h = tt
drain-Returns ask (m ∷ waiting) queue h =
    Returns-bind (λ _. Unit {0}) _ (receive_messages ask (some m) queue) _
      (receive-Returns ask (some m) queue h.0)
      λ r _.
        if_elim (Returns (λ d. All IsReadable d.0)) r.0 _ _ (drain-Returns ask waiting r.1 h.1) h.1

-- Receiving leaves what was sent and counted alone.
record Same (s s' : Sender) : Type 0 where
  readable : All IsReadable s'.waiting
  to_hive : s'.to_hive ≡ s.to_hive
  sent : s'.sent ≡ s.sent
  total : s'.total_sent ≡ s.total_sent

receive_both-Same :
    (c : Config) (t : Turn) (s : Sender)
    → IsReadableTurn t
    → All IsReadable s.waiting
    → Returns (Same s) (receive_both c t.ask t.hive_in t.gossip_in s)
unfolding receive_both
receive_both-Same c t s h k =
    Returns-bind (λ _. Unit {0}) (Same s) (receive_messages t.ask t.hive_in s.queue) _
      (receive-Returns t.ask t.hive_in s.queue h.0)
      λ r _.
        if_elim (Returns (Same s)) c.gossip_enabled _ _
          (Returns-bind (λ (d : List Message × List Row). All IsReadable d.0) (Same s) _ _
            (drain-Returns t.ask (s.waiting ++ t.gossip_in) r.1
              (All-append IsReadable s.waiting t.gossip_in k h.1))
            (λ d l. record { readable = l; to_hive = refl; sent = refl; total = refl }))
          (record { readable = k; to_hive = refl; sent = refl; total = refl })

send_gossip-Same :
    (c : Config) (t : Turn) (ping : Ping) (s : Sender)
    → All IsReadable s.waiting
    → Same s (send_gossip c t ping s)
unfolding send_gossip
send_gossip-Same c t ping s k =
    if_elim (Same s) (c.gossip_enabled && t.gossip_takes) _ s
      (record { readable = k; to_hive = refl; sent = refl; total = refl })
      (record { readable = k; to_hive = refl; sent = refl; total = refl })

settle-IsReadable :
    (c : Config) (t : Turn) (ping : Ping) (s : Sender)
    → All IsReadable s.waiting
    → All IsReadable (settle c t ping s).waiting
unfolding settle
settle-IsReadable c t ping s k = k

-- `n` pings were sent, the first ones and in their order, each of which the hive-writer's socket
-- took; all of them, or it refused the next.
pub record Sends (turns : ℕ → Turn) (i : ℕ) (pings : List Ping) (s s' : Sender) : Type 0 where
  pub n : ℕ
  pub to_hive : s'.to_hive ≡ s.to_hive ++ take n pings
  pub sent : s'.sent ≡ s.sent + n
  pub total : s'.total_sent ≡ s.total_sent + n
  pub taken : (j : ℕ) → j < n → (turns (i + j)).hive_takes ≡ true
  pub stops : (n ≡ length pings) ⊎ ((n < length pings) × ((turns (i + n)).hive_takes ≡ false))

Sends-cons :
    (turns : ℕ → Turn) (i : ℕ) (ping : Ping) (pings : List Ping) (s s₁ s' : Sender)
    → s₁.to_hive ≡ s.to_hive ++ ping ∷ []
    → s₁.sent ≡ s.sent + 1
    → s₁.total_sent ≡ s.total_sent + 1
    → (turns i).hive_takes ≡ true
    → Sends turns (suc i) pings s₁ s'
    → Sends turns i (ping ∷ pings) s s'
Sends-cons turns i ping pings s s₁ s' e sent total took r = record {
  n = suc r.n;
  to_hive =
      r.to_hive
      ∙ ap (λ l. l ++ take r.n pings) e
      ∙ append_assoc s.to_hive (ping ∷ []) (take r.n pings);
  sent = omega (arith, r.sent);
  total = omega (arith, r.total);
  taken = λ j fewer. all j fewer;
  stops = stop r.stops;
}
  where
    next : suc i + r.n ≡ i + suc r.n
    next = omega arith

    all : (j : ℕ) → j < suc r.n → (turns (i + j)).hive_takes ≡ true
    all zero fewer = ap (λ (k : ℕ). (turns k).hive_takes) (add-zero i) ∙ took
    all (suc j) fewer =
        let shift : i + suc j ≡ suc i + j = omega arith in
        ap (λ (k : ℕ). (turns k).hive_takes) shift ∙ r.taken j (omega (arith, fewer))

    stop :
        (r.n ≡ length pings) ⊎ ((r.n < length pings) × ((turns (suc i + r.n)).hive_takes ≡ false))
        → (suc r.n ≡ suc (length pings))
          ⊎ ((suc r.n < suc (length pings)) × ((turns (i + suc r.n)).hive_takes ≡ false))
    stop (inl all) = inl (omega arith)
    stop (inr (fewer, refused)) =
        inr (omega arith, ap (λ (k : ℕ). (turns k).hive_takes) (sym next) ∙ refused)

module _ (c : Config) (turns : ℕ → Turn) (readable : (j : ℕ) → IsReadableTurn (turns j))
    (opens : (j : ℕ) → (turns j).socket_opens ≡ true) where
  -- Where every message that arrives can be read, and a socket can be made where a send fails, a
  -- round's sends do not panic. They go to the hive-writer in the order of the query, each ping
  -- once, until all are sent or its socket refuses one, and only pings that it takes are sent; the
  -- two counters grow by the number of pings sent.
  pub send_pings-Sends :
      (i : ℕ) (pings : List Ping) (s : Sender)
      → All IsReadable s.waiting
      → Returns (Sends turns i pings s) (send_pings c turns i pings s)
  unfolding send_pings
  send_pings-Sends i [] s k = record {
    n = 0;
    to_hive = sym (append-nil s.to_hive);
    sent = omega arith;
    total = omega arith;
    taken = λ j fewer. absurd (omega (arith, fewer));
    stops = inl refl;
  }
  send_pings-Sends i (ping ∷ pings) s k =
      let t = turns i in
      let s' = send_gossip c t ping s in
      let same = send_gossip-Same c t ping s k in
      if_cases (Returns (Sends turns i (ping ∷ pings) s)) t.hive_takes _
        (if t.socket_opens then done s' else panic)
        (λ took.
          Returns-bind (Same (settle c t ping s')) _
            (receive_both c t.ask t.hive_in t.gossip_in (settle c t ping s')) _
            (receive_both-Same c t (settle c t ping s') (readable i)
              (settle-IsReadable c t ping s' same.readable))
            λ r kept.
              let counted : Sender = record r {
                sent = r.sent + 1;
                total_sent = r.total_sent + 1;
              } in
              Returns-imp (Sends turns (suc i) pings counted) _
                (λ end.
                  Sends-cons turns i ping pings s counted end
                    (kept.to_hive ∙ ap (λ l. l ++ ping ∷ []) same.to_hive)
                    (omega (arith, kept.sent, same.sent)) (omega (arith, kept.total, same.total))
                    took)
                (send_pings c turns (suc i) pings counted)
                (send_pings-Sends (suc i) pings counted kept.readable))
        (λ refused.
          if_then (Returns (Sends turns i (ping ∷ pings) s)) t.socket_opens (done s') panic
            (opens i)
            (record {
              n = 0;
              to_hive = same.to_hive ∙ sym (append-nil s.to_hive);
              sent = omega (arith, same.sent);
              total = omega (arith, same.total);
              taken = λ j fewer. absurd (omega (arith, fewer));
              stops =
                  inr (omega arith, ap (λ (j : ℕ). (turns j).hive_takes) (add-zero i) ∙ refused);
            }))

-- Once the hive-writer took a ping and the engine marked it, the queue has no row of its URL that a
-- query without the rows in flight returns: the ping is not sent twice, until a reset or a live
-- ping gives it back. In ephemeral mode it has no row of that URL at all. Other URLs keep their row.
pub settle-find_row :
    (c : Config) (t : Turn) (ping : Ping) (s : Sender) (now : ℕ)
    → t.engine ≡ sound
    → ((r : Row)
        → find_row ping.url (settle c t ping s).queue ≡ some r
        → (c.ephemeral ≡ false) × (is_due false now r ≡ false))
      × ((u : String)
          → (ping.url == u) ≡ false
          → find_row u (settle c t ping s).queue ≡ find_row u s.queue)
unfolding settle
settle-find_row c t ping s now e = (
  λ r found. ground (
    arith,
    e,
    found,
    find_row-set_ping_as_inflight ping s.queue ping.url,
    find_row-delete_ping ping.url s.queue ping.url,
    str_eq_refl ping.url,
  ),
  λ u other. ground (
    arith,
    e,
    other,
    find_row-set_ping_as_inflight ping s.queue u,
    find_row-delete_ping ping.url s.queue u,
  ),
)
