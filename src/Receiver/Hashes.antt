-- ===== src/Receiver/Hashes.antt =====
-- Which digests of messages the actor of dtt-fork/src/gossip/receiver.rs keeps.
use mathlib.Core.List.{nil≢cons}
use podping_alpha.Prelude.{
  ℕ, ◌≤◌, ◌≡◌, ◌≢◌, refl, sym, ap, subst, inl, inr, false, some, List, [], ◌∷◌, ◌++◌, length, arith,
  ltb, ◌&&◌, if◌then◌else◌,
}
use podping_alpha.Receiver.{
  Event, Item, event, received, Actor, is_empty, max_queue, hand_over, front, note_front, remember,
  on_item,
}
use podping_alpha.Receiver.Steps.{IsBalanced}

front-snoc : {Msg : Type 0} (q : List (Item Msg)) (x : Item Msg) → front (q ++ x ∷ []) ≡ some x
unfolding front
front-snoc [] x = refl
front-snoc (y ∷ []) x = refl
front-snoc (y ∷ z ∷ q) x = front-snoc (z ∷ q) x

not_over : (n : ℕ) → n ≤ max_queue → ltb max_queue n ≡ false
not_over n h = ground arith

module _ {Msg Hash : Type 0} (digest : Msg → Hash) where
  -- `on_item` on an event, by the waiters and the queue it finds.
  abbrev after : Event Msg → List ℕ → List (Item Msg) → Actor Msg Hash → List Hash
  after e ws q a =
      let served = hand_over ws (q ++ event e ∷ []) (record a { msg_queue = q ++ event e ∷ [] }) in
      (if is_empty ws && ltb max_queue (length q)
        then record a { running = false }
        else note_front digest (front served.msg_queue) served).last_message_hashes

  after_waiting :
      (e : Event Msg) (ws : List ℕ) (q : List (Item Msg)) (a : Actor Msg Hash)
      → ws ≢ []
      → q ≡ []
      → after e ws q a ≡ a.last_message_hashes
  unfolding hand_over note_front front
  after_waiting e [] q a h g = absurd (h refl)
  after_waiting e (w ∷ ws) [] a h g = refl
  after_waiting e (w ∷ ws) (x ∷ q) a h g = absurd (nil≢cons (sym g))

  after_idle :
      (msg : Msg) (q : List (Item Msg)) (a : Actor Msg Hash)
      → length q ≤ max_queue
      → after (received msg) [] q a ≡ remember a.last_message_hashes (digest msg)
  unfolding hand_over note_front
  after_idle msg q a h =
      subst
        (λ b.
          (if b
            then record a { running = false }
            else note_front digest (front (q ++ event (received msg) ∷ []))
                (record a { msg_queue = q ++ event (received msg) ∷ [] })).last_message_hashes
          ≡ remember a.last_message_hashes (digest msg))
        (sym (not_over (length q) h))
        (ap
          (λ o.
            (note_front digest o
              (record a { msg_queue = q ++ event (received msg) ∷ [] })).last_message_hashes)
          (front-snoc q (event (received msg))))

  -- An event that arrives while a caller of `next` waits is handed to that caller before its
  -- digest is taken, so the digests kept are those from before, whatever the event is; with no
  -- caller waiting, the digest of a message is kept.
  pub on_item-digests :
      (msg : Msg) (a : Actor Msg Hash)
      → IsBalanced a
      → (a.waiters ≢ []
          → (on_item digest (event (received msg)) a).last_message_hashes ≡ a.last_message_hashes)
        × (a.waiters ≡ []
            → length a.msg_queue ≤ max_queue
            → (on_item digest (event (received msg)) a).last_message_hashes
              ≡ remember a.last_message_hashes (digest msg))
  unfolding on_item
  on_item-digests msg a v = (
    λ w.
        after_waiting (received msg) a.waiters a.msg_queue a w
          (elim v.idle [ inl e ↦ absurd (w e) | inr e ↦ e ]),
    λ e h.
        subst
          (λ ws.
            after (received msg) ws a.msg_queue a ≡ remember a.last_message_hashes (digest msg))
          (sym e) (after_idle msg a.msg_queue a h),
  )
