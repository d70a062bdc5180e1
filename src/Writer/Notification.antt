-- ===== src/Writer/Notification.antt =====
-- gossip-writer/src/notification.rs: the notification, its canonical form, its signature, and the
-- texts of the schema's codes.
use podping_alpha.Prelude.{ℕ, zero, suc, [], ◌∷◌, String, Option, none, some, List}

pub record GossipNotification : Type 0 where
  pub version : String
  pub sender : String
  pub timestamp : ℕ
  pub medium : String
  pub reason : String
  pub iris : List String
  pub seq : Option ℕ
  pub signature : Option String

-- The signed fields: all but the signature, in alphabetical order.
pub record CanonicalNotification : Type 0 where
  pub iris : List String
  pub medium : String
  pub reason : String
  pub seq : Option ℕ
  pub sender : String
  pub timestamp : ℕ
  pub version : String

-- serde_json on both forms, and the signing key: bytes to a signature in hex.
pub record Codec (Bytes : Type 0) : Type 0 where
  pub canonical_vec : CanonicalNotification → Bytes
  pub to_vec : GossipNotification → Bytes
  pub bytes_len : Bytes → ℕ
  pub sign_hex : Bytes → String

abbrev pub new_notification :
    String → ℕ → String → String → List String → Option ℕ → GossipNotification
new_notification sender now medium reason iris seq = record {
  version = "1.0";
  sender = sender;
  timestamp = now;
  medium = medium;
  reason = reason;
  iris = iris;
  seq = seq;
  signature = none;
}

abbrev pub canonical : GossipNotification → CanonicalNotification
canonical n = record {
  iris = n.iris;
  medium = n.medium;
  reason = n.reason;
  seq = n.seq;
  sender = n.sender;
  timestamp = n.timestamp;
  version = n.version;
}

abbrev pub sign : {Bytes : Type 0} → Codec Bytes → GossipNotification → GossipNotification
sign codec n = record n { signature = some (codec.sign_hex (codec.canonical_vec (canonical n))) }

-- The text at a code, or a default.
abbrev pub text_at : List String → ℕ → String → String
text_at [] n default = default
text_at (t ∷ texts) zero default = t
text_at (t ∷ texts) (suc n) default = text_at texts n default

abbrev pub reason_to_string : ℕ → String
reason_to_string n = text_at ("update" ∷ "live" ∷ "liveEnd" ∷ []) n "update"

abbrev pub medium_texts : List String
medium_texts =
    "mixed" ∷ "podcast" ∷ "podcastL" ∷ "music" ∷ "musicL" ∷ "video" ∷ "videoL" ∷ "film" ∷ "filmL"
    ∷ "audiobook" ∷ "audiobookL" ∷ "newsletter" ∷ "newsletterL" ∷ "blog" ∷ "blogL" ∷ "publisher"
    ∷ "publisherL" ∷ "course" ∷ "courseL" ∷ []

abbrev pub medium_to_string : ℕ → String
medium_to_string n = text_at medium_texts n "podcast"
