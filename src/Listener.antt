-- ===== src/Listener.antt =====
-- What gossip-listener/src/main.rs does with an event of the gossip topic. JSON, the checks of keys
-- and signatures, the clock, the clean-up of a name and the boundaries of a text's characters are
-- parameters; lines printed are left out, but not the slices of texts in them, which may panic.
pub mod Events
pub mod Trust
pub mod Gate
mod Examples
use podping_alpha.Prelude.{
  ℕ, ◌+◌, min, String, Bool, true, false, not, ◌&&◌, ◌||◌, Option, none, some, List, [], ◌∷◌, ◌++◌,
  length, contains, if◌then◌else◌, ◌==◌, eqb, Result, ok, err, Outcome, done, panic, ◌>>=◌,
}
use podping_alpha.Writer.Notification.{GossipNotification, CanonicalNotification, canonical}
use podping_alpha.Archive.{Payload, Archive, Disk, Header, store}
use podping_alpha.Peers.{Files}

-- The fields of an announcement or endorsement that decide something.
pub record PeerAnnounce : Type 0 where
  pub msg_type : String
  pub node_id : String
  pub version : String
  pub timestamp : ℕ
  pub sender : Option String
  pub node_list : Option (List String)
  pub signature : Option String
  pub friendly_name : Option String

pub record CanonicalPeerEndorse : Type 0 where
  pub friendly_name : Option String
  pub node_id : String
  pub node_list : List String
  pub sender : String
  pub timestamp : ℕ
  pub msg_type : String
  pub version : String

-- What serde_json reads from a payload, the announcement being tried first.
pub data Parsed : Type 0 where
  announce : PeerAnnounce → Parsed
  notification : GossipNotification → Parsed
  unknown : Parsed

pub data Event : Type 0 where
  received : Payload → Event
  neighbor_up : String → Event
  neighbor_down : String → Event
  lagged : Event

pub data SigStatus : Type 0 where
  valid unsigned invalid : SigStatus

-- A notification forwarded to the SSE clients, with its `sig_status` and its `sender_name`.
pub record Sse : Type 0 where
  pub notif : GossipNotification
  pub sig_status : SigStatus
  pub sender_name : Option String

-- `is_pubkey` and `is_signature` say which texts decode; `verify key bytes signature`.
pub record Env : Type 0 where
  pub parse : Payload → Parsed
  pub parse_id : String → Option String
  pub is_pubkey : String → Bool
  pub is_signature : String → Bool
  pub verify : String → Payload → String → Bool
  pub notification_vec : CanonicalNotification → Payload
  pub endorse_vec : CanonicalPeerEndorse → Payload
  pub sanitize : String → String
  pub cuts : String → Bool
  pub cuts_key : String → Bool
  pub my_node_id : String
  pub files : Files
  pub now : ℕ
  pub has_sse : Bool
  pub has_archive : Bool
  pub blake3 : Payload → String
  pub disk : Disk

-- `trusted_file` is the file of trusted publishers; `waiting` the catch-up task's channel.
pub record Node : Type 0 where
  pub trusted : List String
  pub trusted_file : List String
  pub names : List (String × String)
  pub peers : List String
  pub waiting : Bool
  pub forwarded : List String
  pub last_notification_time : ℕ
  pub notifications_received : ℕ
  pub last_seqs : List (String × ℕ)
  pub sse : List Sse
  pub archive : Archive

module _ (env : Env) where
  abbrev pub check_signature : String → Payload → String → Result Bool
  check_signature sender bytes signature =
      if env.is_pubkey sender && env.is_signature signature
      then (if env.verify sender bytes signature then ok true else err)
      else err

  unfoldable pub verify_signature : GossipNotification → Result Bool
  verify_signature n = elim n.signature [
    | none ↦ ok false
    | some s ↦ check_signature n.sender (env.notification_vec (canonical n)) s
  ]

  -- `canonical_endorse_bytes`, whose `expect` on the node list panics.
  unfoldable pub canonical_endorse_bytes :
      PeerAnnounce → String → Option (List String) → Outcome Payload
  canonical_endorse_bytes a sender none = panic
  canonical_endorse_bytes a sender (some node_list) = done (
      env.endorse_vec (record {
        friendly_name = a.friendly_name;
        node_id = a.node_id;
        node_list = node_list;
        sender = sender;
        timestamp = a.timestamp;
        msg_type = a.msg_type;
        version = a.version;
      }))

  unfoldable pub verify_with : PeerAnnounce → Option String → Option String → Outcome (Result Bool)
  unfolding canonical_endorse_bytes
  verify_with a none sender = done (ok false)
  verify_with a (some s) none = done err
  verify_with a (some s) (some sender) =
      let bytes = canonical_endorse_bytes a sender a.node_list in
      if env.is_pubkey sender && env.is_signature s
      then bytes >>= (λ b. done (if env.verify sender b s then ok true else err))
      else done err

  unfoldable pub verify_endorse_signature : PeerAnnounce → Outcome (Result Bool)
  unfolding verify_with
  verify_endorse_signature a = verify_with a a.signature a.sender

  abbrev pub sig_status : Result Bool → SigStatus
  sig_status (ok true) = valid
  sig_status (ok false) = unsigned
  sig_status err = invalid

  -- `&sender[..8.min(sender.len())]` panics where the eighth byte is inside a character.
  abbrev pub cut : {A : Type 0} → String → A → Outcome A
  cut s a = if env.cuts s then done a else panic
