-- ===== src/Receiver/Steps.antt =====
-- A step of the actor of dtt-fork/src/gossip/receiver.rs: what it hands on and what it keeps.
use mathlib.Core.List.{append_assoc, append-nil, append-nil, nil≢cons}
use mathlib.Core.Bool.{false≢true}
use podping_alpha.Prelude.{
  ℕ, ◌≤◌, ◌≡◌, refl, sym, ap, ◌∙◌, subst, ◌⊎◌, inl, inr, true, false, List, [], ◌∷◌, ◌++◌, map,
  length, length-append, length-drop, ◌+◌, arith, ltb, ◌&&◌,
}
use podping_alpha.Receiver.{
  Item, Input, item, ask, Actor, new, is_empty, max_queue, hand_over, give, remember, on_next,
}

module _ {Msg : Type 0} where
  -- The events that the stream has yielded, and the callers of `next`, each in their order.
  abbrev pub items : List (Input Msg) → List (Item Msg)
  items [] = []
  items (item x ∷ inputs) = x ∷ items inputs
  items (ask w ∷ inputs) = items inputs

  abbrev pub askers : List (Input Msg) → List ℕ
  askers [] = []
  askers (item x ∷ inputs) = askers inputs
  askers (ask w ∷ inputs) = w ∷ askers inputs

  pub items_first :
      (i : Input Msg) (inputs : List (Input Msg))
      → items (i ∷ inputs) ≡ items (i ∷ []) ++ items inputs
  items_first (item x) inputs = refl
  items_first (ask w) inputs = refl

  pub askers_first :
      (i : Input Msg) (inputs : List (Input Msg))
      → askers (i ∷ inputs) ≡ askers (i ∷ []) ++ askers inputs
  askers_first (item x) inputs = refl
  askers_first (ask w) inputs = refl

module _ {Hash : Type 0} where
  pub length-remember :
      (hashes : List Hash) (h : Hash) → length hashes ≤ 5 → length (remember hashes h) ≤ 5
  unfolding remember
  length-remember hashes h b =
      ground (arith, length-append hashes (h ∷ []), length-drop 1 (hashes ++ h ∷ []))

module _ {ℓ κ} {A : Type ℓ} {B : Type κ} (f : A → B) where
  map_snoc :
      (xs : List A) (x : A) (rest : List B) → map f (xs ++ x ∷ []) ++ rest ≡ map f xs ++ f x ∷ rest
  map_snoc [] x rest = refl
  map_snoc (y ∷ xs) x rest = ap (◌∷◌ (f y)) (map_snoc xs x rest)

  map_snoc_nil :
      (xs : List A) (x : A) (rest : List B)
      → rest ≡ []
      → map f (xs ++ x ∷ []) ++ rest ≡ (map f xs ++ rest) ++ f x ∷ []
  map_snoc_nil xs x rest e =
      map_snoc xs x rest
      ∙ ap (λ r. map f xs ++ f x ∷ r) e
      ∙ sym (append_assoc (map f xs) [] (f x ∷ []))
      ∙ ap (λ r. (map f xs ++ r) ++ f x ∷ []) (sym e)

pub crowded : (ws : List ℕ) (n : ℕ) → (is_empty ws && ltb max_queue n) ≡ true → ws ≡ []
crowded [] n h = refl
crowded (w ∷ ws) n h = absurd (false≢true h)

pub uncrowded :
    (ws : List ℕ) (n : ℕ) → (is_empty ws && ltb max_queue n) ≡ false → ws ≡ [] → n ≤ max_queue
uncrowded [] n h e = ground arith
uncrowded (w ∷ ws) n h e = absurd (nil≢cons (sym e))

module _ {Msg Hash : Type 0} where
  -- Nobody waits while an event is queued, the lists are bounded, and a stopped actor has no waiter.
  pub record IsBalanced (a : Actor Msg Hash) : Type 0 where
    pub idle : (a.waiters ≡ []) ⊎ (a.msg_queue ≡ [])
    pub bounded : length a.msg_queue ≤ max_queue + 1
    pub recent : length a.last_message_hashes ≤ 5
    pub answered : a.running ≡ false → a.waiters ≡ []

  -- The items sent and those still queued; the callers sent to and those still waiting.
  abbrev pub handled : Actor Msg Hash → List (Item Msg)
  handled a = map (λ (d : ℕ × Item Msg). d.1) a.sends ++ a.msg_queue

  abbrev pub callers : Actor Msg Hash → List ℕ
  callers a = map (λ (d : ℕ × Item Msg). d.0) a.sends ++ a.waiters

  pub new-IsBalanced : IsBalanced new
  new-IsBalanced = record {
    idle = inl refl;
    bounded = omega arith;
    recent = omega arith;
    answered = λ h. refl;
  }

  no_waiters :
      (i : Item Msg) (queue : List (Item Msg)) (a : Actor Msg Hash)
      → a.msg_queue ≡ i ∷ queue
      → (a.waiters ≡ []) ⊎ (a.msg_queue ≡ [])
      → a.waiters ≡ []
  no_waiters i queue a q (inl e) = e
  no_waiters i queue a q (inr e) = absurd (nil≢cons (sym e ∙ q))

  give-IsBalanced :
      (w : ℕ) (queue : List (Item Msg)) (a : Actor Msg Hash)
      → a.running ≡ true
      → a.msg_queue ≡ queue
      → IsBalanced a
      → IsBalanced (give w queue a)
  unfolding give
  give-IsBalanced w [] a h q v = record {
    idle = inr q;
    bounded = v.bounded;
    recent = v.recent;
    answered = λ e. absurd (false≢true (sym e ∙ h));
  }
  give-IsBalanced w (i ∷ queue) a h q v =
      let b = subst (λ l. length l ≤ max_queue + 1) q v.bounded in
      record {
        idle = inl (no_waiters i queue a q v.idle);
        bounded = omega (arith, b);
        recent = v.recent;
        answered = v.answered;
      }

  give-handled :
      (w : ℕ) (queue : List (Item Msg)) (a : Actor Msg Hash)
      → a.msg_queue ≡ queue
      → handled (give w queue a) ≡ handled a
  unfolding give
  give-handled w [] a q = refl
  give-handled w (i ∷ queue) a q =
      map_snoc (λ (d : ℕ × Item Msg). d.1) a.sends (w, i) queue
      ∙ ap (◌++◌ (map (λ (d : ℕ × Item Msg). d.1) a.sends)) (sym q)

  give-callers :
      (w : ℕ) (queue : List (Item Msg)) (a : Actor Msg Hash)
      → a.msg_queue ≡ queue
      → IsBalanced a
      → callers (give w queue a) ≡ callers a ++ w ∷ []
  unfolding give
  give-callers w [] a q v =
      sym (append_assoc (map (λ (d : ℕ × Item Msg). d.0) a.sends) a.waiters (w ∷ []))
  give-callers w (i ∷ queue) a q v =
      map_snoc_nil (λ (d : ℕ × Item Msg). d.0) a.sends (w, i) a.waiters
        (no_waiters i queue a q v.idle)

  -- What an input `i` does: the actor that still runs has handled one item or one caller more.
  pub record IsStep (xs : List (Item Msg)) (ws : List ℕ) (a b : Actor Msg Hash) : Type 0 where
    pub balanced : IsBalanced b
    pub handled_more : b.running ≡ true → handled b ≡ handled a ++ xs
    pub callers_more : b.running ≡ true → callers b ≡ callers a ++ ws

  pub on_next-IsStep :
      (w : ℕ) (a : Actor Msg Hash)
      → a.running ≡ true
      → IsBalanced a
      → IsStep [] (w ∷ []) a (on_next w a)
  unfolding on_next
  on_next-IsStep w a h v = record {
    balanced = give-IsBalanced w a.msg_queue a h refl v;
    handled_more = λ r. give-handled w a.msg_queue a refl ∙ sym (append-nil (handled a));
    callers_more = λ r. give-callers w a.msg_queue a refl v;
  }

  pub hand_over-IsStep :
      (x : Item Msg) (ws : List ℕ) (q : List (Item Msg)) (a : Actor Msg Hash)
      → a.waiters ≡ ws
      → a.msg_queue ≡ q
      → a.running ≡ true
      → IsBalanced a
      → (ws ≡ [] → length q ≤ max_queue)
      → IsStep (x ∷ []) [] a (hand_over ws (q ++ x ∷ []) (record a { msg_queue = q ++ x ∷ [] }))
  unfolding hand_over
  hand_over-IsStep x [] q a hw hq hr v b = record {
    balanced = record {
      idle = inl hw;
      bounded = omega (arith, b refl, length-append q (x ∷ []));
      recent = v.recent;
      answered = v.answered;
    };
    handled_more = λ r.
        sym (append_assoc (map (λ (d : ℕ × Item Msg). d.1) a.sends) q (x ∷ []))
        ∙ ap (λ l. ((map (λ (d : ℕ × Item Msg). d.1) a.sends) ++ l) ++ x ∷ []) (sym hq);
    callers_more = λ r. sym (append-nil (callers a));
  }
  hand_over-IsStep x (w ∷ ws) [] a hw hq hr v b = record {
    balanced = record {
      idle = inr refl;
      bounded = omega arith;
      recent = v.recent;
      answered = λ e. absurd (false≢true (sym e ∙ hr));
    };
    handled_more = λ r.
        ap (◌++◌ (map (λ (d : ℕ × Item Msg). d.1) (a.sends ++ (w, x) ∷ []))) (sym hq)
        ∙ map_snoc_nil (λ (d : ℕ × Item Msg). d.1) a.sends (w, x) a.msg_queue hq;
    callers_more = λ r.
        map_snoc (λ (d : ℕ × Item Msg). d.0) a.sends (w, x) ws
        ∙ ap (◌++◌ (map (λ (d : ℕ × Item Msg). d.0) a.sends)) (sym hw)
        ∙ sym (append-nil (callers a));
  }
  hand_over-IsStep x (w ∷ ws) (i ∷ q) a hw hq hr v b =
      absurd (nil≢cons (sym (no_waiters i q a hq v.idle) ∙ hw))
