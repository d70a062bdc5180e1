-- ===== src/Receiver.antt =====
-- The actor of dtt-fork/src/gossip/receiver.rs: events of the gossip stream queue up until a caller
-- of `next` takes them, or callers wait until one arrives. A `VecDeque` is a list whose head is its
-- back: `pop_back` takes the head, `push_front` appends. The digest of a message is a parameter.
pub mod Steps
pub mod Fifo
pub mod Hashes
mod Examples
use podping_alpha.Prelude.{
  ℕ, ◌≡◌, Bool, true, false, ◌&&◌, Option, none, some, List, [], ◌∷◌, ◌++◌, length, drop, ltb,
  if◌then◌else◌,
}

pub data Event (Msg : Type 0) : Type 0 where
  received : Msg → Event Msg
  neighbor_up neighbor_down lagged : Event Msg

-- What the stream yields: an event, an error, or its end.
pub data Item (Msg : Type 0) : Type 0 where
  event : Event Msg → Item Msg
  failed : Item Msg
  ended : Item Msg

-- What wakes the actor: the stream, or a call of `next` by the holder of a channel.
pub data Input (Msg : Type 0) : Type 0 where
  item : Item Msg → Input Msg
  ask : ℕ → Input Msg

-- A waiter is the sender half of a one-shot channel, by a number; `sends` logs what is sent by which.
-- The actor ignores whether a send succeeds: what is sent to a caller that has given up is lost.
pub record Actor (Msg Hash : Type 0) : Type 0 where
  pub last_message_hashes : List Hash
  pub msg_queue : List (Item Msg)
  pub waiters : List ℕ
  pub sends : List (ℕ × Item Msg)
  pub running : Bool

abbrev pub is_empty : List ℕ → Bool
is_empty [] = true
is_empty (w ∷ ws) = false

abbrev pub max_queue : ℕ
max_queue = 1000

module _ {Msg : Type 0} where
  -- `front` of the deque: its newest item.
  unfoldable pub front : List (Item Msg) → Option (Item Msg)
  front [] = none
  front (x ∷ []) = some x
  front (x ∷ y ∷ xs) = front (y ∷ xs)

  unfoldable pub answer_all : Item Msg → List ℕ → List (ℕ × Item Msg)
  answer_all i [] = []
  answer_all i (w ∷ ws) = (w, i) ∷ answer_all i ws

module _ {Hash : Type 0} where
  -- `push`, then `remove(0)` if there are more than five.
  unfoldable pub remember : List Hash → Hash → List Hash
  remember hashes h =
      if ltb 5 (length (hashes ++ h ∷ [])) then drop 1 (hashes ++ h ∷ []) else hashes ++ h ∷ []

module _ {Msg Hash : Type 0} where
  abbrev pub new : Actor Msg Hash
  new = record {
    last_message_hashes = [];
    msg_queue = [];
    waiters = [];
    sends = [];
    running = true;
  }

  -- `while let Some(waiter) = self.waiters.pop_back() { waiter.send(None) }`
  unfoldable pub close : Actor Msg Hash → Actor Msg Hash
  unfolding answer_all
  close a = record a {
    waiters = [];
    sends = a.sends ++ answer_all ended a.waiters;
    running = false;
  }

  unfoldable pub serve_first : Item Msg → List ℕ → Actor Msg Hash → Actor Msg Hash
  serve_first i [] a = a
  serve_first i (w ∷ ws) a = record a { waiters = ws; sends = a.sends ++ (w, i) ∷ [] }

  -- One waiter, the oldest, is handed the oldest item.
  unfoldable pub hand_over : List ℕ → List (Item Msg) → Actor Msg Hash → Actor Msg Hash
  hand_over [] queue a = a
  hand_over (w ∷ ws) [] a = record a { waiters = ws; sends = a.sends ++ (w, ended) ∷ [] }
  hand_over (w ∷ ws) (i ∷ queue) a = record a {
    waiters = ws;
    msg_queue = queue;
    sends = a.sends ++ (w, i) ∷ [];
  }

  -- A caller of `next` gets the oldest item, or waits.
  unfoldable pub give : ℕ → List (Item Msg) → Actor Msg Hash → Actor Msg Hash
  give w [] a = record a { waiters = a.waiters ++ w ∷ [] }
  give w (i ∷ queue) a = record a { msg_queue = queue; sends = a.sends ++ (w, i) ∷ [] }

  -- `register_next`
  unfoldable pub on_next : ℕ → Actor Msg Hash → Actor Msg Hash
  unfolding give
  on_next w a = give w a.msg_queue a

  module _ (digest : Msg → Hash) where
    unfoldable pub note_front : Option (Item Msg) → Actor Msg Hash → Actor Msg Hash
    note_front (some (event (received msg))) a = record a {
      last_message_hashes = remember a.last_message_hashes (digest msg);
    }
    note_front (some (event neighbor_up)) a = a
    note_front (some (event neighbor_down)) a = a
    note_front (some (event lagged)) a = a
    note_front (some failed) a = a
    note_front (some ended) a = a
    note_front none a = a

    -- The arm `raw_event = self.gossip_receiver.next()` of the actor's loop.
    unfoldable pub on_item : Item Msg → Actor Msg Hash → Actor Msg Hash
    unfolding close serve_first hand_over note_front remember front
    on_item ended a = close a
    on_item failed a = close (serve_first failed a.waiters a)
    on_item (event e) a =
        let queue = a.msg_queue ++ event e ∷ [] in
        let served = hand_over a.waiters queue (record a { msg_queue = queue }) in
        if is_empty a.waiters && ltb max_queue (length a.msg_queue)
        then record a { running = false }
        else note_front (front served.msg_queue) served

    unfoldable pub step : Input Msg → Actor Msg Hash → Actor Msg Hash
    unfolding on_item on_next
    step (item x) a = on_item x a
    step (ask w) a = on_next w a

    -- The loop over what wakes it, until it breaks.
    unfoldable pub run : List (Input Msg) → Actor Msg Hash → Actor Msg Hash
    unfolding step
    run [] a = a
    run (i ∷ inputs) a = let rest = run inputs (step i a) in if a.running then rest else a
