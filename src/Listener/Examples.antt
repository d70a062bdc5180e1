-- ===== src/Listener/Examples.antt =====
-- The listener's theorems on a trusted endorser, a forged notification, and an empty endorsement.
use podping_alpha.Prelude.{
  String, ◌≡◌, refl, true, false, Option, none, some, List, [], ◌∷◌, ◌==◌, panic, err, Returns,
  Ends, get,
}
use podping_alpha.Peers.{working, save_peer_if_new}
use podping_alpha.Archive.{has_hash}
use podping_alpha.Writer.Notification.{GossipNotification}
use podping_alpha.Listener.{
  PeerAnnounce, Parsed, announce, notification, unknown, received, neighbor_up, Env, Node, invalid,
  verify_signature, verify_endorse_signature,
}
use podping_alpha.Listener.Events.{handle_event}
use podping_alpha.Listener.Trust.{IsGuarded, handle_event-IsGuarded}
use podping_alpha.Listener.Gate.{forged_published, endorse_panics}

abbrev endorsement : Option (List String) → PeerAnnounce
endorsement keys = record {
  msg_type = "peer_endorse";
  node_id = "n";
  version = "0.1.4";
  timestamp = 7;
  sender = some "ab";
  node_list = keys;
  signature = some "00";
  friendly_name = none;
}

abbrev news : GossipNotification
news = record {
  version = "1.0";
  sender = "ab";
  timestamp = 7200;
  medium = "podcast";
  reason = "update";
  iris = "https://a" ∷ [];
  seq = some 4;
  signature = some "11";
}

-- Every payload is read as `parsed`; only the signature "00" verifies.
abbrev env : Parsed → Env
env parsed = record {
  parse = λ p. parsed;
  parse_id = λ s. some s;
  is_pubkey = λ s. true;
  is_signature = λ s. true;
  verify = λ key bytes s. s == "00";
  notification_vec = λ n. [];
  endorse_vec = λ e. [];
  sanitize = λ s. s;
  cuts = λ s. true;
  cuts_key = λ s. true;
  my_node_id = "me";
  files = working;
  now = 7300;
  has_sse = true;
  has_archive = true;
  blake3 = λ p. "h";
  disk = record { message_fails = λ p. false; manifest_fails = λ p. false };
}

abbrev node : Node
node = record {
  trusted = "ab" ∷ [];
  trusted_file = [];
  names = [];
  peers = [];
  waiting = true;
  forwarded = [];
  last_notification_time = 0;
  notifications_received = 0;
  last_seqs = [];
  sse = [];
  archive = record { messages = []; manifest = [] };
}

forged : verify_signature (env (notification news)) news ≡ err
unfolding verify_signature
forged = refl

endorsed :
    Returns
      (λ (n : Node). n.trusted ≡ "ab" ∷ "cd" ∷ [])
      (handle_event (env (announce (endorsement (some ("cd" ∷ []))))) (received []) node)
unfolding handle_event verify_endorse_signature
endorsed = refl

first_neighbor :
    Returns
      (λ (n : Node). (n.forwarded ≡ "n1" ∷ []) × (n.peers ≡ "n1" ∷ []))
      (handle_event (env unknown) (neighbor_up "n1") node)
unfolding handle_event save_peer_if_new
first_neighbor = (refl, refl)

handle_event-IsGuarded_example :
    Ends
      (IsGuarded
        (env (announce (endorsement (some ("cd" ∷ [])))))
        (announce (endorsement (some ("cd" ∷ []))))
        node)
      (handle_event (env (announce (endorsement (some ("cd" ∷ []))))) (received []) node)
handle_event-IsGuarded_example =
    handle_event-IsGuarded (env (announce (endorsement (some ("cd" ∷ []))))) [] node

forged_published_example :
    Returns
      (λ (after : Node).
        (after.sse ≡ record { notif = news; sig_status = invalid; sender_name = none } ∷ [])
        × (has_hash after.archive.messages "h" ≡ true))
      (handle_event (env (notification news)) (received []) node)
unfolding get
forged_published_example =
    forged_published (env (notification news)) [] node news refl forged refl refl refl refl refl

endorse_panics_example : handle_event (env (announce (endorsement none))) (received []) node ≡ panic
endorse_panics_example =
    endorse_panics (env (announce (endorsement none))) [] node (endorsement none) "ab" "00" refl
      refl refl refl refl refl
