-- ===== src/Receiver/Fifo.antt =====
-- The actor of dtt-fork/src/gossip/receiver.rs sends every event to one caller, in order; the event
-- is lost if that caller has given up (by the timeout around `next`).
use mathlib.Core.List.{append_assoc, append-nil, append-nil}
use mathlib.Core.Bool.{false≢true}
use mathlib.Core.List.Perm
use podping_alpha.Prelude.{
  Perm, Bool, not, map, select, select-split, ℕ, ◌≤◌, ◌≡◌, refl, sym, ap, ◌∙◌, subst, inl, inr,
  true, false, Option, none, some, List, [], ◌∷◌, ◌++◌, length, Bool-cases, ltb, ◌&&◌,
  if◌then◌else◌, if_cases, map-append,
}
use podping_alpha.Receiver.{
  received, neighbor_up, neighbor_down, lagged, Item, event, failed, ended, Input, item, ask, Actor,
  new, is_empty, max_queue, close, serve_first, note_front, on_item, step, run,
}
use podping_alpha.Receiver.Steps.{
  IsBalanced, IsStep, askers, askers_first, callers, crowded, hand_over-IsStep, handled, items,
  items_first, length-remember, new-IsBalanced, on_next-IsStep, uncrowded,
}

module _ {Msg Hash : Type 0} where
  -- Noting digests leaves the rest of the actor alone.
  noted-IsStep :
      (hashes : List Hash) (xs : List (Item Msg)) (ws : List ℕ) (a b : Actor Msg Hash)
      → length hashes ≤ 5
      → IsStep xs ws a b
      → IsStep xs ws a (record b { last_message_hashes = hashes })
  noted-IsStep hashes xs ws a b n s = record {
    balanced = record {
      idle = s.balanced.idle;
      bounded = s.balanced.bounded;
      recent = n;
      answered = s.balanced.answered;
    };
    handled_more = s.handled_more;
    callers_more = s.callers_more;
  }

  close-IsBalanced : (a : Actor Msg Hash) → IsBalanced a → IsBalanced (close a)
  unfolding close
  close-IsBalanced a v = record {
    idle = inl refl;
    bounded = v.bounded;
    recent = v.recent;
    answered = λ e. refl;
  }

  serve_first-IsBalanced :
      (x : Item Msg) (ws : List ℕ) (a : Actor Msg Hash)
      → IsBalanced a
      → IsBalanced (close (serve_first x ws a))
  unfolding serve_first close
  serve_first-IsBalanced x [] a v = close-IsBalanced a v
  serve_first-IsBalanced x (w ∷ ws) a v = record {
    idle = inl refl;
    bounded = v.bounded;
    recent = v.recent;
    answered = λ e. refl;
  }

  stopped-IsStep :
      (xs : List (Item Msg)) (ws : List ℕ) (a b : Actor Msg Hash)
      → IsBalanced b
      → b.running ≡ false
      → IsStep xs ws a b
  stopped-IsStep xs ws a b v h = record {
    balanced = v;
    handled_more = λ r. absurd (false≢true (sym h ∙ r));
    callers_more = λ r. absurd (false≢true (sym h ∙ r));
  }

  close-running : (a : Actor Msg Hash) → (close a).running ≡ false
  unfolding close
  close-running a = refl

  halted-IsBalanced :
      (a : Actor Msg Hash)
      → a.waiters ≡ []
      → IsBalanced a
      → IsBalanced (record a { running = false })
  halted-IsBalanced a e v = record {
    idle = v.idle;
    bounded = v.bounded;
    recent = v.recent;
    answered = λ r. e;
  }

  module _ (digest : Msg → Hash) where
    note_front-IsStep :
        (front : Option (Item Msg)) (xs : List (Item Msg)) (ws : List ℕ) (a b : Actor Msg Hash)
        → IsStep xs ws a b
        → IsStep xs ws a (note_front digest front b)
    unfolding note_front
    note_front-IsStep (some (event (received msg))) xs ws a b s =
        noted-IsStep _ xs ws a b
          (length-remember b.last_message_hashes (digest msg) s.balanced.recent) s
    note_front-IsStep (some (event neighbor_up)) xs ws a b s = s
    note_front-IsStep (some (event neighbor_down)) xs ws a b s = s
    note_front-IsStep (some (event lagged)) xs ws a b s = s
    note_front-IsStep (some failed) xs ws a b s = s
    note_front-IsStep (some ended) xs ws a b s = s
    note_front-IsStep none xs ws a b s = s

    on_item-IsStep :
        (x : Item Msg) (a : Actor Msg Hash)
        → a.running ≡ true
        → IsBalanced a
        → IsStep (x ∷ []) [] a (on_item digest x a)
    unfolding on_item
    on_item-IsStep ended a h v = stopped-IsStep _ _ a _ (close-IsBalanced a v) (close-running a)
    on_item-IsStep failed a h v =
        stopped-IsStep _ _ a _ (serve_first-IsBalanced failed a.waiters a v)
          (close-running (serve_first failed a.waiters a))
    on_item-IsStep (event e) a h v =
        if_cases (IsStep (event e ∷ []) [] a)
          (is_empty a.waiters && ltb max_queue (length a.msg_queue)) _ _
          (λ t. stopped-IsStep _ _ a _ (halted-IsBalanced a (crowded a.waiters _ t) v) refl)
          (λ f. note_front-IsStep _ _ _ a _ (
            hand_over-IsStep (event e) a.waiters a.msg_queue a refl refl h v
              (uncrowded a.waiters _ f)))

    run_stopped :
        (inputs : List (Input Msg)) (a : Actor Msg Hash)
        → a.running ≡ false
        → run digest inputs a ≡ a
    unfolding run
    run_stopped [] a h = refl
    run_stopped (i ∷ inputs) a h = ap (λ b. if b then run digest inputs (step digest i a) else a) h

    step-IsStep :
        (i : Input Msg) (a : Actor Msg Hash)
        → a.running ≡ true
        → IsBalanced a
        → IsStep (items (i ∷ [])) (askers (i ∷ [])) a (step digest i a)
    unfolding step
    step-IsStep (item x) a h v = on_item-IsStep x a h v
    step-IsStep (ask w) a h v = on_next-IsStep w a h v

    IsStep-then :
        (i : Input Msg) (inputs : List (Input Msg)) (a b c : Actor Msg Hash)
        → IsStep (items (i ∷ [])) (askers (i ∷ [])) a b
        → b.running ≡ true
        → IsStep (items inputs) (askers inputs) b c
        → IsStep (items (i ∷ inputs)) (askers (i ∷ inputs)) a c
    IsStep-then i inputs a b c s t u = record {
      balanced = u.balanced;
      handled_more = λ r.
          u.handled_more r
          ∙ ap (λ l. l ++ items inputs) (s.handled_more t)
          ∙ append_assoc (handled a) (items (i ∷ [])) (items inputs)
          ∙ ap (◌++◌ (handled a)) (sym (items_first i inputs));
      callers_more = λ r.
          u.callers_more r
          ∙ ap (λ l. l ++ askers inputs) (s.callers_more t)
          ∙ append_assoc (callers a) (askers (i ∷ [])) (askers inputs)
          ∙ ap (◌++◌ (callers a)) (sym (askers_first i inputs));
    }

    run-IsStep :
        (inputs : List (Input Msg)) (a : Actor Msg Hash)
        → a.running ≡ true
        → IsBalanced a
        → IsStep (items inputs) (askers inputs) a (run digest inputs a)
    unfolding run
    run-IsStep [] a h v = record {
      balanced = v;
      handled_more = λ r. sym (append-nil (handled a));
      callers_more = λ r. sym (append-nil (callers a));
    }
    run-IsStep (i ∷ inputs) a h v =
        let n = step digest i a in
        let s = step-IsStep i a h v in
        let goal : Actor Msg Hash → Type 0 = IsStep (items (i ∷ inputs)) (askers (i ∷ inputs)) a in
        subst goal (ap (λ b. if b then run digest inputs n else a) (sym h))
          (elim (Bool-cases n.running) [
            | inl t ↦ IsStep-then i inputs a n _ s t (run-IsStep inputs n t s.balanced)
            | inr f ↦
                subst goal (sym (run_stopped inputs n f)) (stopped-IsStep _ _ a n s.balanced f)
          ])

    -- Which callers still wait when the actor sends to them decides who gets an item and which items
    -- are lost.
    abbrev pub got : (ℕ → Bool) → Actor Msg Hash → List (Item Msg)
    got waits a = map (λ (d : ℕ × Item Msg). d.1) (select (λ (d : ℕ × Item Msg). waits d.0) a.sends)

    abbrev pub lost : (ℕ → Bool) → Actor Msg Hash → List (Item Msg)
    lost waits a =
        map (λ (d : ℕ × Item Msg). d.1) (select (λ (d : ℕ × Item Msg). not (waits d.0)) a.sends)

    -- Whatever the stream yields, whenever `next` is called, and whichever callers give up, from the
    -- start: no caller stays registered while an event is queued, at most 1001 events are queued and
    -- five digests are kept, and an actor that has stopped leaves no caller registered. While it
    -- runs, the items sent to callers followed by those queued are all that the stream has yielded,
    -- in order and each once; the callers sent to followed by those registered are all that have
    -- asked, in order and each once. So each item is got by a caller that waits for it, lost with a
    -- caller that has given up, or queued.
    pub run-new-IsFifo :
        (waits : ℕ → Bool) (inputs : List (Input Msg))
        → IsStep (items inputs) (askers inputs) new (run digest inputs new)
          × ((run digest inputs new).running ≡ true
              → Perm
                  ((got waits (run digest inputs new) ++ lost waits (run digest inputs new))
                    ++ (run digest inputs new).msg_queue)
                  (items inputs))
    run-new-IsFifo waits inputs = (step, λ r. subst (Perm _) (step.handled_more r) parts)
      where
        after : Actor Msg Hash
        after = run digest inputs new

        step : IsStep (items inputs) (askers inputs) new after
        step = run-IsStep inputs new refl new-IsBalanced

        parts : Perm ((got waits after ++ lost waits after) ++ after.msg_queue) (handled after)
        parts = Perm.append_right after.msg_queue (
            subst (λ l. Perm l (map (λ (d : ℕ × Item Msg). d.1) after.sends))
              (map-append (λ (d : ℕ × Item Msg). d.1)
                (select (λ (d : ℕ × Item Msg). waits d.0) after.sends)
                (select (λ (d : ℕ × Item Msg). not (waits d.0)) after.sends))
              (Perm.map (λ (d : ℕ × Item Msg). d.1)
                (select-split (λ (d : ℕ × Item Msg). waits d.0) after.sends)))
