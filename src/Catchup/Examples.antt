-- ===== src/Catchup/Examples.antt =====
-- A catch-up of two payloads, and a stream that an empty payload cuts short.
use podping_alpha.Prelude.{String, ◌≡◌, refl, true, false, Option, none, some, [], ◌∷◌, arith}
use podping_alpha.Peers.{working}
use podping_alpha.Archive.{Payload, Archive, messages_since}
use podping_alpha.Writer.Notification.{GossipNotification}
use podping_alpha.Listener.{unknown, Env, Node}
use podping_alpha.Catchup.{accept, frames, read_all}
use podping_alpha.Catchup.Wire.{readable, read_all-frames}

abbrev news : GossipNotification
news = record {
  version = "1.0";
  sender = "ab";
  timestamp = 7200;
  medium = "podcast";
  reason = "update";
  iris = "https://a" ∷ [];
  seq = some 4;
  signature = some "11";
}

abbrev parse : Payload → Option GossipNotification
parse (b ∷ bytes) = some news
parse [] = none

abbrev blake3 : Payload → String
blake3 (b ∷ c ∷ bytes) = "long"
blake3 p = "short"

abbrev env : Env
env = record {
  parse = λ p. unknown;
  parse_id = λ s. some s;
  is_pubkey = λ s. true;
  is_signature = λ s. true;
  verify = λ key bytes s. true;
  notification_vec = λ n. [];
  endorse_vec = λ e. [];
  sanitize = λ s. s;
  cuts = λ s. true;
  cuts_key = λ s. true;
  my_node_id = "me";
  files = working;
  now = 7300;
  has_sse = false;
  has_archive = true;
  blake3 = blake3;
  disk = record { message_fails = λ p. false; manifest_fails = λ p. false };
}

abbrev client : Node
client = record {
  trusted = "ab" ∷ [];
  trusted_file = [];
  names = [];
  peers = [];
  waiting = false;
  forwarded = [];
  last_notification_time = 0;
  notifications_received = 0;
  last_seqs = [];
  sse = [];
  archive = record { messages = []; manifest = [] };
}

abbrev server : Archive
server = record {
  messages =
      record { hash = "late"; payload = 7 ∷ 8 ∷ []; created_at = 20 }
      ∷ record { hash = "early"; payload = 9 ∷ []; created_at = 10 }
      ∷ record { hash = "old"; payload = 6 ∷ []; created_at = 2 }
      ∷ [];
  manifest = [];
}

served : accept 5 server ≡ 0 ∷ 0 ∷ 0 ∷ 1 ∷ 9 ∷ 0 ∷ 0 ∷ 0 ∷ 2 ∷ 7 ∷ 8 ∷ []
unfolding accept messages_since
served = refl

read_all-frames_example :
    read_all (frames ((1 ∷ 2 ∷ []) ∷ [] ∷ (3 ∷ []) ∷ []))
    ≡ readable ((1 ∷ 2 ∷ []) ∷ [] ∷ (3 ∷ []) ∷ [])
read_all-frames_example =
    read_all-frames ((1 ∷ 2 ∷ []) ∷ [] ∷ (3 ∷ []) ∷ [])
      (omega arith, (omega arith, (omega arith, tt)))
