-- ===== src/Writer.antt =====
-- The batches of gossip-writer/src/main.rs: pings of the front end are grouped by medium and reason,
-- split to fit a gossip message, signed, archived, queued for broadcast, and answered. JSON, the
-- signature and the sockets are parameters; a flush reads the clock once.
pub mod Notification
pub mod Split
pub mod Groups
pub mod Offers
pub mod Batch
mod Polling
mod Examples
use podping_alpha.Prelude.{
  ℕ, zero, suc, ◌+◌, ◌%◌, ◌^◌, String, Bool, true, false, not, ◌&&◌, Option, none, some, List, [],
  ◌∷◌, ◌++◌, length, ltb, leb, if◌then◌else◌, ◌==◌, Outcome, done, panic, ◌>>=◌,
}
use podping_alpha.Writer.Notification.{Codec, GossipNotification, new_notification, sign}

pub record PendingPing : Type 0 where
  pub iri : String
  pub medium_str : String
  pub reason_str : String
  pub medium_raw : ℕ
  pub reason_raw : ℕ

abbrev pub max_gossip_payload : ℕ
max_gossip_payload = 60000

abbrev pub no_iris : List String → Bool
no_iris [] = true
no_iris (i ∷ is) = false

-- `if !current_chunk.is_empty() { chunks.push(current_chunk) }`
unfoldable pub push_chunk : List (List String) → List String → List (List String)
push_chunk chunks current = if no_iris current then chunks else chunks ++ current ∷ []

-- The loop of `split_iris_to_fit`, where `size` is the length of a chunk's signed payload.
unfoldable pub split_loop :
    (List String → ℕ) → List String → List (List String) → List String → List (List String)
unfolding push_chunk
split_loop size [] chunks current = push_chunk chunks current
split_loop size (iri ∷ iris) chunks current =
    let over = split_loop size iris (push_chunk chunks current) (iri ∷ []) in
    let fits = split_loop size iris chunks (current ++ iri ∷ []) in
    if ltb max_gossip_payload (size (current ++ iri ∷ [])) then over else fits

unfoldable pub split_by_size : (List String → ℕ) → List String → List (List String)
unfolding split_loop
split_by_size size iris =
    if leb (size iris) max_gossip_payload then iris ∷ [] else split_loop size iris [] []

pub record Group : Type 0 where
  pub medium : String
  pub reason : String
  pub iris : List String

abbrev pub has_key : String → String → Group → Bool
has_key medium reason g = (g.medium == medium) && (g.reason == reason)

unfoldable pub is_grouped : String → String → List Group → Bool
is_grouped medium reason [] = false
is_grouped medium reason (g ∷ gs) =
    let rest = is_grouped medium reason gs in if has_key medium reason g then true else rest

unfoldable pub push_iri : PendingPing → List Group → List Group
push_iri p [] = []
push_iri p (g ∷ gs) =
    let rest = push_iri p gs in
    if has_key p.medium_str p.reason_str g
    then record g { iris = g.iris ++ p.iri ∷ [] } ∷ gs
    else g ∷ rest

-- A `HashMap` iterates in any order: `place` says where among the others a new key comes.
unfoldable pub insert_at : ℕ → Group → List Group → List Group
insert_at zero g gs = g ∷ gs
insert_at (suc n) g [] = g ∷ []
insert_at (suc n) g (h ∷ gs) = h ∷ insert_at n g gs

module _ (place : String → String → List Group → ℕ) where
  unfoldable pub add_to_group : PendingPing → List Group → List Group
  unfolding is_grouped push_iri insert_at
  add_to_group p gs =
      let fresh : Group = record {
        medium = p.medium_str;
        reason = p.reason_str;
        iris = p.iri ∷ [];
      } in
      if is_grouped p.medium_str p.reason_str gs
      then push_iri p gs
      else insert_at (place p.medium_str p.reason_str gs) fresh gs

  unfoldable pub group_pings : List PendingPing → List Group → List Group
  unfolding add_to_group
  group_pings [] gs = gs
  group_pings (p ∷ pending) gs = group_pings pending (add_to_group p gs)

-- The answer of `try_send` on the bounded channel to the broadcast task.
pub data SendAnswer : Type 0 where
  sent full closed : SendAnswer

pub record Stored (Bytes : Type 0) : Type 0 where
  pub payload : Bytes
  pub sender : String
  pub medium : String
  pub reason : String
  pub timestamp : ℕ
  pub iri_count : ℕ

-- What a flush has done: `built` lists the notifications it signed, in order.
pub record Flushed (Bytes : Type 0) : Type 0 where
  pub built : List GossipNotification
  pub stored : List (Stored Bytes)
  pub broadcast : List Bytes
  pub seq_counter : ℕ
  pub broadcast_ok : Bool

-- A finished flush: what it did, the replies sent, and the pings still pending.
pub record Flush (Bytes : Type 0) : Type 0 where
  pub out : Flushed Bytes
  pub replies : List PendingPing
  pub pending : List PendingPing

-- What a flush finds: the key's name, the clock, whether there is an archive, the answers of the
-- channel in the order of the sends, and which codes the schema's enums have.
pub record Env : Type 0 where
  pub pubkey_hex : String
  pub now : ℕ
  pub has_archive : Bool
  pub try_send : ℕ → SendAnswer
  pub is_medium : ℕ → Bool
  pub is_reason : ℕ → Bool
  pub reply_sent : PendingPing → Bool
  pub place : String → String → List Group → ℕ

module _ {Bytes : Type 0} where
  unfoldable pub offer : SendAnswer → Bytes → Flushed Bytes → Flushed Bytes
  offer sent payload out = record out {
    broadcast = out.broadcast ++ payload ∷ [];
    broadcast_ok = true;
  }
  offer full payload out = record out { broadcast_ok = true }
  offer closed payload out = out

module _ {Bytes : Type 0} (codec : Codec Bytes) (env : Env) where
  abbrev pub notification : String → String → List String → Option ℕ → GossipNotification
  notification medium reason iris seq =
      sign codec (new_notification env.pubkey_hex env.now medium reason iris seq)

  abbrev pub payload_size : String → String → List String → ℕ
  payload_size medium reason iris =
      codec.bytes_len (codec.to_vec (notification medium reason iris none))

  unfoldable pub split_iris_to_fit : String → String → List String → List (List String)
  unfolding split_by_size
  split_iris_to_fit medium reason iris = split_by_size (payload_size medium reason) iris

  unfoldable pub send_chunk : String → String → List String → Flushed Bytes → Flushed Bytes
  unfolding offer
  send_chunk medium reason iris out =
      let notif = notification medium reason iris (some out.seq_counter) in
      let payload = codec.to_vec notif in
      let entry : Stored Bytes = record {
        payload = payload;
        sender = env.pubkey_hex;
        medium = medium;
        reason = reason;
        timestamp = notif.timestamp;
        iri_count = length iris;
      } in
      offer (env.try_send (length out.built)) payload (record out {
        built = out.built ++ notif ∷ [];
        stored = if env.has_archive then out.stored ++ entry ∷ [] else out.stored;
        seq_counter = (out.seq_counter + 1) % 2 ^ 64;
      })

  unfoldable pub send_chunks : String → String → List (List String) → Flushed Bytes → Flushed Bytes
  unfolding send_chunk
  send_chunks medium reason [] out = out
  send_chunks medium reason (c ∷ chunks) out =
      send_chunks medium reason chunks (send_chunk medium reason c out)

  unfoldable pub send_groups : List Group → Flushed Bytes → Flushed Bytes
  unfolding send_chunks split_iris_to_fit
  send_groups [] out = out
  send_groups (g ∷ gs) out =
      let chunks = split_iris_to_fit g.medium g.reason g.iris in
      send_groups gs (send_chunks g.medium g.reason chunks out)

  -- Both `try_from` unwrap; a reply that the socket refuses is only logged.
  unfoldable pub reply_all : List PendingPing → Outcome (List PendingPing)
  reply_all [] = done []
  reply_all (p ∷ pending) =
      let rest = reply_all pending in
      let here = if env.reply_sent p then p ∷ [] else [] in
      if env.is_medium p.medium_raw && env.is_reason p.reason_raw
      then rest >>= (λ more. done (here ++ more))
      else panic

  unfoldable pub flush_batch : List PendingPing → ℕ → Outcome (Flush Bytes)
  unfolding group_pings send_groups reply_all
  flush_batch pending seq_counter =
      let start : Flushed Bytes = record {
        built = [];
        stored = [];
        broadcast = [];
        seq_counter = seq_counter;
        broadcast_ok = false;
      } in
      let out = send_groups (group_pings env.place pending []) start in
      let replies = reply_all pending in
      if out.broadcast_ok
      then replies >>= (λ rs. done (record { out = out; replies = rs; pending = [] }))
      else done (record { out = out; replies = []; pending = [] })
