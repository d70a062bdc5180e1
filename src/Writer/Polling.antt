-- ===== src/Writer/Polling.antt =====
-- The thread of gossip-writer/src/main.rs that receives pings and flushes them in batches.
use mathlib.Core.List.Perm
use podping_alpha.Prelude.{
  ℕ, ◌-◌, String, Bool, true, false, ◌&&◌, ◌||◌, ◌≡◌, Option, none, some, List, [], ◌∷◌, ◌++◌, map,
  Perm, All, leb, if◌then◌else◌, Outcome, done, ◌>>=◌,
}
use podping_alpha.Writer.Notification.{Codec, GossipNotification}
use podping_alpha.Writer.{Flush, PendingPing, flush_batch, SendAnswer, sent, Env, Group}
use podping_alpha.Writer.Groups.{Entry, entry_of}
use podping_alpha.Writer.Batch.{announced}

abbrev pub batch_interval_secs : ℕ
batch_interval_secs = 3

-- What a round of the loop gets: the flag of the shutdown, the ping that a message holds, if one
-- arrived that can be parsed, the time, and what a flush meets.
pub record Poll : Type 0 where
  pub shutdown : Bool
  pub arrived : Option PendingPing
  pub now : ℕ
  pub try_send : ℕ → SendAnswer
  pub reply_sent : PendingPing → Bool
  pub place : String → String → List Group → ℕ

-- `notified` are the notifications of all flushes, `broadcast` the payloads that the channel to the
-- broadcast task took, and `replied` the pings that were answered.
pub record Poller (Bytes : Type 0) : Type 0 where
  pub pending : List PendingPing
  pub last_flush : ℕ
  pub seq_counter : ℕ
  pub notified : List GossipNotification
  pub broadcast : List Bytes
  pub replied : List PendingPing

abbrev pub push_ping : Option PendingPing → List PendingPing → List PendingPing
push_ping none pending = pending
push_ping (some p) pending = pending ++ p ∷ []

abbrev pub is_pending : List PendingPing → Bool
is_pending [] = false
is_pending (p ∷ pending) = true

module _ {Bytes : Type 0} (codec : Codec Bytes) (env : Env) where
  abbrev env_at : Poll → Env
  env_at q = record env {
    now = q.now;
    try_send = q.try_send;
    reply_sent = q.reply_sent;
    place = q.place;
  }

  abbrev flushed_by : Poller Bytes → ℕ → Flush Bytes → Poller Bytes
  flushed_by s last r = record {
    pending = r.pending;
    last_flush = last;
    seq_counter = r.out.seq_counter;
    notified = s.notified ++ r.out.built;
    broadcast = s.broadcast ++ r.out.broadcast;
    replied = s.replied ++ r.replies;
  }

  unfoldable pub flush : Poll → ℕ → Poller Bytes → Outcome (Poller Bytes)
  flush q last s =
      flush_batch codec (env_at q) s.pending s.seq_counter >>= λ r. done (flushed_by s last r)

  -- A round that is not the last one.
  unfoldable pub poll : Poll → Poller Bytes → Outcome (Poller Bytes)
  unfolding flush
  poll q s =
      let heard : Poller Bytes = record s { pending = push_ping q.arrived s.pending } in
      if leb batch_interval_secs (q.now - s.last_flush) && is_pending heard.pending
      then flush q q.now heard
      else done heard

  -- The loop; the round that sees the shutdown flushes what is left.
  unfoldable pub poll_all : List Poll → Poller Bytes → Outcome (Poller Bytes)
  unfolding poll flush
  poll_all [] s = done s
  poll_all (q ∷ qs) s =
      if q.shutdown
      then (if is_pending s.pending then flush q s.last_flush s else done s)
      else poll q s >>= poll_all qs

-- The pings of the messages that the loop takes: those up to the shutdown.
abbrev pub heard : List Poll → List PendingPing
heard [] = []
heard (q ∷ qs) = if q.shutdown then [] else push_ping q.arrived [] ++ heard qs

abbrev pub ends : List Poll → Bool
ends [] = false
ends (q ∷ qs) = q.shutdown || ends qs

-- What was announced, and what waits to be.
abbrev pub accounted : {Bytes : Type 0} → Poller Bytes → List Entry
accounted s = announced s.notified ++ map entry_of s.pending

module _ {Bytes : Type 0} (codec : Codec Bytes) (env : Env) where
  -- The ping has the codes of the schema, as those that a message's reader returns.
  abbrev pub IsCoded : PendingPing → Type 0
  IsCoded p = (env.is_medium p.medium_raw ≡ true) × (env.is_reason p.reason_raw ≡ true)

  -- The channel takes every payload.
  abbrev pub IsOpen : Poll → Type 0
  IsOpen q = (n : ℕ) → q.try_send n ≡ sent

  -- The payload of every notification was put in the channel, in their order.
  abbrev pub IsBroadcast : Poller Bytes → Type 0
  IsBroadcast s = s.broadcast ≡ map codec.to_vec s.notified

  record Accounted (total : List Entry) (s : Poller Bytes) : Type 0 where
    perm : Perm (accounted s) total
    broadcast : IsBroadcast s
    coded : All IsCoded s.pending

  record Emptied (total : List Entry) (s : Poller Bytes) : Type 0 where
    perm : Perm (accounted s) total
    broadcast : IsBroadcast s
    none : s.pending ≡ []
