-- ===== src/Archive.antt =====
-- gossip-listener/src/archive.rs: the tables `messages` and `manifest`, in the order of insertion.
-- BLAKE3 is a parameter; a disk may refuse either INSERT. An hour's key is kept as the two numbers
-- that its text shows.
pub mod Queries
pub mod Rows
mod Examples
use podping_alpha.Prelude.{
  ℕ, ◌/◌, ◌%◌, ◌^◌, String, Bool, true, false, ◌&&◌, ◌||◌, Option, none, some, List, [], ◌∷◌, ◌++◌,
  map, select, leb, eqb, if◌then◌else◌, ◌==◌, Result, ok, err,
}

-- A payload is a list of bytes.
abbrev pub Payload : Type 0
Payload = List ℕ

pub record Message : Type 0 where
  pub hash : String
  pub payload : Payload
  pub created_at : ℕ

pub record Manifest : Type 0 where
  pub day : ℕ
  pub hour : ℕ
  pub hash : String
  pub sender : String
  pub medium : String
  pub reason : String
  pub timestamp : ℕ
  pub iri_count : ℕ

pub record Archive : Type 0 where
  pub messages : List Message
  pub manifest : List Manifest

pub record Disk : Type 0 where
  pub message_fails : Payload → Bool
  pub manifest_fails : Payload → Bool

unfoldable pub has_hash : List Message → String → Bool
has_hash [] h = false
has_hash (m ∷ ms) h = (m.hash == h) || has_hash ms h

unfoldable pub has_manifest : List Manifest → Manifest → Bool
has_manifest [] r = false
has_manifest (s ∷ rows) r =
    (eqb s.day r.day && (eqb s.hour r.hour && (s.hash == r.hash))) || has_manifest rows r

-- `INSERT OR IGNORE INTO messages`, with whether it inserted a row.
unfoldable pub insert_message : Message → Archive → Archive
unfolding has_hash
insert_message m a =
    if has_hash a.messages m.hash then a else record a { messages = a.messages ++ m ∷ [] }

unfoldable pub insert_manifest : Manifest → Archive → Archive
unfolding has_manifest
insert_manifest r a =
    if has_manifest a.manifest r then a else record a { manifest = a.manifest ++ r ∷ [] }

-- What a notification says of itself, beside its payload.
pub record Header : Type 0 where
  pub sender : String
  pub medium : String
  pub reason : String
  pub timestamp : ℕ
  pub iri_count : ℕ

module _ (blake3 : Payload → String) (disk : Disk) where
  abbrev pub manifest_of : Payload → Header → Manifest
  manifest_of payload h = record {
    day = (h.timestamp / 3600) / 24;
    hour = (h.timestamp / 3600) % 24;
    hash = blake3 payload;
    sender = h.sender;
    medium = h.medium;
    reason = h.reason;
    timestamp = h.timestamp;
    iri_count = h.iri_count;
  }

  unfoldable pub store : ℕ → Payload → Header → Archive → Archive × Result Bool
  unfolding insert_message insert_manifest has_hash
  store now payload h a =
      let m : Message = record { hash = blake3 payload; payload = payload; created_at = now } in
      let with_message = insert_message m a in
      let new : Bool = if has_hash a.messages m.hash then false else true in
      let stored : Archive × Result Bool =
        (insert_manifest (manifest_of payload h) with_message, ok new) in
      let refused : Archive × Result Bool = (with_message, err) in
      let later : Archive × Result Bool = if disk.manifest_fails payload then refused else stored in
      let unchanged : Archive × Result Bool = (a, err) in
      if disk.message_fails payload then unchanged else later

-- `created_at >= ?1`, where `since as i64` is negative from 2^63 on.
unfoldable pub is_since : ℕ → Message → Bool
is_since since m = leb (2 ^ 63) since || leb since m.created_at

unfoldable pub insert_by_time : Message → List Message → List Message
insert_by_time m [] = m ∷ []
insert_by_time m (x ∷ xs) =
    let rest = insert_by_time m xs in if leb m.created_at x.created_at then m ∷ x ∷ xs else x ∷ rest

-- `ORDER BY created_at ASC`: rows of one second in the order of their insertion.
unfoldable pub order_by_time : List Message → List Message
unfolding insert_by_time
order_by_time [] = []
order_by_time (m ∷ ms) = insert_by_time m (order_by_time ms)

unfoldable pub messages_since : ℕ → Archive → List Payload
unfolding is_since order_by_time
messages_since since a =
    map (λ (m : Message). m.payload) (order_by_time (select (is_since since) a.messages))

-- `SELECT MAX(created_at)`
unfoldable pub max_time : ℕ → List Message → ℕ
max_time t [] = t
max_time t (m ∷ ms) = if leb t m.created_at then max_time m.created_at ms else max_time t ms

unfoldable pub latest : List Message → Option ℕ
unfolding max_time
latest [] = none
latest (m ∷ ms) = some (max_time m.created_at ms)

unfoldable pub latest_timestamp : Archive → Option ℕ
unfolding latest
latest_timestamp a = latest a.messages
