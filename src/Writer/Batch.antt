-- ===== src/Writer/Batch.antt =====
-- What `flush_batch` of gossip-writer/src/main.rs announces, archives and answers.
use mathlib.Core.List.{append_assoc, append-nil, nil≢cons}
use mathlib.Core.List.Perm
use podping_alpha.Prelude.{
  ap₂, panic, if◌then◌else◌, ◌&&◌, done, ◌≢◌, Outcome, Returns, ◌>>=◌, if_cases, select, All, Perm,
  subst, true, false, Bool, ℕ, String, ◌≡◌, refl, sym, ap, ◌∙◌, List, [], ◌∷◌, ◌++◌, map, length,
  map-append,
}
use podping_alpha.Writer.Notification.{Codec, GossipNotification}
use podping_alpha.Writer.{
  Flush, Group, PendingPing, group_pings, send_groups, payload_size, reply_all, flush_batch,
  SendAnswer, split_iris_to_fit, Env, Flushed, sent, full, closed, offer, send_chunk, send_chunks,
}
use podping_alpha.Writer.Split.{concat, split_by_size-concat}
use podping_alpha.Writer.Offers.{taken, send_groups-IsOffered}
use podping_alpha.Writer.Groups.{Entry, entry, entry_of, entries, group_entries, group_pings-perm}

-- The IRIs that notifications announce, each under its medium and reason.
abbrev pub announced : List GossipNotification → List Entry
announced [] = []
announced (n ∷ ns) = map (entry n.medium n.reason) n.iris ++ announced ns

announced-snoc :
    (ns : List GossipNotification) (n : GossipNotification)
    → announced (ns ++ n ∷ []) ≡ announced ns ++ map (entry n.medium n.reason) n.iris
announced-snoc [] n = append-nil _
announced-snoc (m ∷ ns) n =
    ap (◌++◌ (map (entry m.medium m.reason) m.iris)) (announced-snoc ns n)
    ∙ sym (append_assoc (map (entry m.medium m.reason) m.iris) (announced ns) _)

offer_built :
    {Bytes : Type 0} (s : SendAnswer) (payload : Bytes) (out : Flushed Bytes)
    → (offer s payload out).built ≡ out.built
unfolding offer
offer_built sent payload out = refl
offer_built full payload out = refl
offer_built closed payload out = refl

module _ {Bytes : Type 0} (codec : Codec Bytes) (env : Env) where
  send_chunk-announced :
      (m r : String) (c : List String) (out : Flushed Bytes)
      → announced (send_chunk codec env m r c out).built ≡ announced out.built ++ map (entry m r) c
  unfolding send_chunk offer
  send_chunk-announced m r c out =
      ap announced (offer_built (env.try_send (length out.built)) _ _) ∙ announced-snoc out.built _

  send_chunks-announced :
      (m r : String) (chunks : List (List String)) (out : Flushed Bytes)
      → announced (send_chunks codec env m r chunks out).built
        ≡ announced out.built ++ map (entry m r) (concat chunks)
  unfolding send_chunks
  send_chunks-announced m r [] out = sym (append-nil (announced out.built))
  send_chunks-announced m r (c ∷ chunks) out =
      send_chunks-announced m r chunks (send_chunk codec env m r c out)
      ∙ ap (λ l. l ++ map (entry m r) (concat chunks)) (send_chunk-announced m r c out)
      ∙ append_assoc (announced out.built) (map (entry m r) c) (map (entry m r) (concat chunks))
      ∙ ap (◌++◌ (announced out.built)) (sym (map-append (entry m r) c (concat chunks)))

  send_groups-announced :
      (gs : List Group) (out : Flushed Bytes)
      → announced (send_groups codec env gs out).built ≡ announced out.built ++ entries gs
  unfolding send_groups split_iris_to_fit
  send_groups-announced [] out = sym (append-nil (announced out.built))
  send_groups-announced (g ∷ gs) out =
      let chunks = split_iris_to_fit codec env g.medium g.reason g.iris in
      send_groups-announced gs (send_chunks codec env g.medium g.reason chunks out)
      ∙ ap (λ l. l ++ entries gs)
          (send_chunks-announced g.medium g.reason chunks out
            ∙ ap (λ l. announced out.built ++ map (entry g.medium g.reason) l)
                (split_by_size-concat (payload_size codec env g.medium g.reason) g.iris))
      ∙ append_assoc (announced out.built) (group_entries g) (entries gs)

  -- The channel is full at every send: nothing is queued, and what was built counts as sent.
  abbrev IsDropped : Flushed Bytes → Type 0
  IsDropped out = (out.broadcast ≡ []) × (out.built ≢ [] → out.broadcast_ok ≡ true)

  offer-IsDropped :
      (s : SendAnswer) (payload : Bytes) (out : Flushed Bytes)
      → s ≡ full
      → out.broadcast ≡ []
      → IsDropped (offer s payload out)
  unfolding offer
  offer-IsDropped s payload out e h =
      subst (λ t. IsDropped (offer t payload out)) (sym e) (h, λ b. refl)

  module _ (is_full : (n : ℕ) → env.try_send n ≡ full) where
    send_chunk-IsDropped :
        (m r : String) (c : List String) (out : Flushed Bytes)
        → IsDropped out
        → IsDropped (send_chunk codec env m r c out)
    unfolding send_chunk
    send_chunk-IsDropped m r c out h =
        offer-IsDropped (env.try_send (length out.built)) _ _ (is_full (length out.built)) h.0

    send_chunks-IsDropped :
        (m r : String) (chunks : List (List String)) (out : Flushed Bytes)
        → IsDropped out
        → IsDropped (send_chunks codec env m r chunks out)
    unfolding send_chunks
    send_chunks-IsDropped m r [] out h = h
    send_chunks-IsDropped m r (c ∷ chunks) out h =
        send_chunks-IsDropped m r chunks _ (send_chunk-IsDropped m r c out h)

    send_groups-IsDropped :
        (gs : List Group) (out : Flushed Bytes)
        → IsDropped out
        → IsDropped (send_groups codec env gs out)
    unfolding send_groups
    send_groups-IsDropped [] out h = h
    send_groups-IsDropped (g ∷ gs) out h =
        let chunks = split_iris_to_fit codec env g.medium g.reason g.iris in
        send_groups-IsDropped gs (send_chunks codec env g.medium g.reason chunks out)
          (send_chunks-IsDropped g.medium g.reason chunks out h)

  -- The codes of a ping are those of the schema, as those that a message's reader returns are.
  abbrev pub HasCodes : PendingPing → Type 0
  HasCodes p = (env.is_medium p.medium_raw ≡ true) × (env.is_reason p.reason_raw ≡ true)

  select_first :
      (b : Bool) (p : PendingPing) (ps : List PendingPing)
      → ((if b then p ∷ [] else []) ++ ps) ≡ (if b then p ∷ ps else ps)
  select_first true p ps = refl
  select_first false p ps = refl

  reply_all_lem :
      (pending : List PendingPing)
      → All HasCodes pending
      → reply_all codec env pending ≡ done (select env.reply_sent pending)
  unfolding reply_all
  reply_all_lem [] h = refl
  reply_all_lem (p ∷ pending) h =
      let here = if env.reply_sent p then p ∷ [] else [] in
      let f : List PendingPing → Outcome (List PendingPing) = λ more. done (here ++ more) in
      ap (λ c. if c then reply_all codec env pending >>= f else panic) (ap₂ (◌&&◌) h.0.0 h.0.1)
      ∙ ap (λ m. m >>= f) (reply_all_lem pending h.1)
      ∙ ap done (select_first (env.reply_sent p) p (select env.reply_sent pending))

  abbrev start : ℕ → Flushed Bytes
  start seq = record {
    built = [];
    stored = [];
    broadcast = [];
    seq_counter = seq;
    broadcast_ok = false;
  }

  abbrev out_of : List PendingPing → ℕ → Flushed Bytes
  out_of pending seq = send_groups codec env (group_pings env.place pending []) (start seq)

  out_of-perm :
      (pending : List PendingPing) (seq : ℕ)
      → Perm (announced (out_of pending seq).built) (map entry_of pending)
  out_of-perm pending seq =
      subst (λ l. Perm l (map entry_of pending))
        (sym (send_groups-announced (group_pings env.place pending []) (start seq)))
        (subst (λ l. Perm (entries (group_pings env.place pending [])) l)
          (append-nil (map entry_of pending)) (group_pings-perm env.place pending []))

  built_some :
      (p : PendingPing) (pending : List PendingPing) (seq : ℕ)
      → (out_of (p ∷ pending) seq).built ≢ []
  built_some p pending seq e = nil≢cons (
      Perm.nil-eq (
        subst (λ l. Perm (announced l) (map entry_of (p ∷ pending))) e
          (out_of-perm (p ∷ pending) seq)))

  -- What a flush returns, with every reply it tried: all if a send counts as a success, or none.
  flush_batch_lem :
      (pending : List PendingPing) (seq : ℕ)
      → All HasCodes pending
      → (P : Flush Bytes → Type 0)
      → P (record {
        out = out_of pending seq;
        replies = if (out_of pending seq).broadcast_ok then select env.reply_sent pending else [];
        pending = [];
      })
      → Returns P (flush_batch codec env pending seq)
  unfolding flush_batch
  flush_batch_lem pending seq h P q =
      let out = out_of pending seq in
      let f : List PendingPing → Outcome (Flush Bytes) =
        λ rs. done (record { out = out; replies = rs; pending = [] }) in
      subst (λ m. Returns P (if out.broadcast_ok then m >>= f else f []))
        (sym (reply_all_lem pending h))
        (if_cases (Returns P) out.broadcast_ok _ _
          (λ t.
            subst
              (λ b. P (record {
                out = out;
                replies = if b then select env.reply_sent pending else [];
                pending = [];
              }))
              t q)
          (λ t.
            subst
              (λ b. P (record {
                out = out;
                replies = if b then select env.reply_sent pending else [];
                pending = [];
              }))
              t q))

  -- A flush of pings with codes of the schema does not panic and leaves none pending. The
  -- notifications that it signs announce every ping's IRI under its medium and reason, each as often
  -- as it is pending; the channel to the broadcast task gets their payloads, in their order, but for
  -- those that it refuses. If a send was taken for a success, every ping is answered (but for replies that the
  -- socket refuses); otherwise none is.
  pub flush_batch-Returns :
      (pending : List PendingPing) (seq : ℕ)
      → All HasCodes pending
      → Returns
          (λ (r : Flush Bytes).
            Perm (announced r.out.built) (map entry_of pending)
            × (r.out.broadcast ≡ taken env.try_send 0 (map codec.to_vec r.out.built))
            × ((r.replies ≡ (if r.out.broadcast_ok then select env.reply_sent pending else []))
                × (r.pending ≡ [])))
          (flush_batch codec env pending seq)
  flush_batch-Returns pending seq h = flush_batch_lem pending seq h _ (
    out_of-perm pending seq,
    send_groups-IsOffered codec env (group_pings env.place pending []) (start seq) refl,
    (refl, refl),
  )

  -- Where the channel to the broadcast task is full at every send, a flush of some pings with codes
  -- of the schema puts nothing in it, and yet answers every ping (but for replies that the socket
  -- refuses), so that the front end deletes them.
  pub flush_batch_dropped :
      (p : PendingPing) (pending : List PendingPing) (seq : ℕ)
      → All HasCodes (p ∷ pending)
      → ((n : ℕ) → env.try_send n ≡ full)
      → Returns
          (λ (r : Flush Bytes).
            (r.out.broadcast ≡ []) × (r.replies ≡ select env.reply_sent (p ∷ pending)))
          (flush_batch codec env (p ∷ pending) seq)
  flush_batch_dropped p pending seq h is_full =
      let out = out_of (p ∷ pending) seq in
      let dropped =
        send_groups-IsDropped is_full (group_pings env.place (p ∷ pending) []) (start seq)
          (refl, λ b. absurd (b refl)) in
      flush_batch_lem (p ∷ pending) seq h _ (
        dropped.0,
        ap (λ b. if b then select env.reply_sent (p ∷ pending) else [])
            (dropped.1 (built_some p pending seq)),
      )
