-- ===== src/Listener/Events.antt =====
-- The handlers of `handle_event` in gossip-listener/src/main.rs, each on the state of the node.
use podping_alpha.Prelude.{
  ℕ, ◌+◌, String, Bool, true, false, ◌&&◌, Option, none, some, List, [], ◌∷◌, ◌++◌, length,
  contains, if◌then◌else◌, ◌==◌, eqb, ok, err, Outcome, done, panic, ◌>>=◌, Result, get,
}
use podping_alpha.Writer.Notification.{GossipNotification}
use podping_alpha.Archive.{Payload, Header, store}
use podping_alpha.Peers.{save_peer_if_new}
use podping_alpha.Listener.{
  PeerAnnounce, Parsed, announce, notification, unknown, Event, received, neighbor_up,
  neighbor_down, lagged, Sse, Env, Node, verify_signature, verify_endorse_signature, sig_status,
  cut,
}

module _ (env : Env) where
  -- `print_peer_table` cuts every key at sixteen bytes.
  unfoldable pub print_peer_table :
      List (String × String) → List (String × String) → Outcome (List (String × String))
  print_peer_table names [] = done names
  print_peer_table names (e ∷ rest) =
      let later = print_peer_table names rest in if env.cuts_key e.0 then later else panic

  -- The entry of a name that is not empty, the table being printed when the name is new.
  unfoldable pub put_name : String → String → List (String × String) → List (String × String)
  put_name key name names = (key, name) ∷ names

  abbrev pub has_name : String → String → List (String × String) → Bool
  has_name key name names = elim (get key names) [ none ↦ false | some old ↦ old == name ]

  unfoldable pub note_name :
      String → String → List (String × String) → Outcome (List (String × String))
  unfolding put_name print_peer_table
  note_name key name names =
      let noted = put_name key name names in
      if name == ""
      then done names
      else if has_name key name names
      then done noted
      else print_peer_table noted noted

  unfoldable pub name_peer : String → Option String → Node → Outcome Node
  unfolding note_name
  name_peer key none node = done node
  name_peer key (some name) node =
      note_name key (env.sanitize name) node.names
      >>= (λ names. done (record node { names = names }))

  unfoldable pub handle_announce : PeerAnnounce → Node → Outcome Node
  unfolding name_peer
  handle_announce a node =
      let peers : List String = elim (env.parse_id a.node_id) [
        | none ↦ node.peers
        | some id ↦ save_peer_if_new env.files id env.my_node_id node.peers
      ] in
      name_peer a.node_id a.friendly_name (record node { peers = peers })

  -- Both entries of an endorser's name, the table being printed if either changed.
  unfoldable pub note_names :
      String → String → Option String → List (String × String) → Outcome (List (String × String))
  unfolding put_name print_peer_table
  note_names sender node_id none names = done names
  note_names sender node_id (some friendly) names =
      let name = env.sanitize friendly in
      let one = if has_name sender name names then names else put_name sender name names in
      let two = if has_name node_id name one then one else put_name node_id name one in
      let same = has_name sender name names && has_name node_id name one in
      if name == "" then done names else if same then done two else print_peer_table two two

  -- `tp.insert(key.clone())` for each key; a key that is new is shown.
  unfoldable pub add_keys : List String → List String → Outcome (List String)
  add_keys [] trusted = done trusted
  add_keys (k ∷ keys) trusted =
      let known = add_keys keys trusted in
      let added = add_keys keys (trusted ++ k ∷ []) in
      if contains trusted k then known else (if env.cuts k then added else panic)

  -- The file is written again if a key was added.
  unfoldable pub endorse : Option (List String) → Node → Outcome Node
  unfolding add_keys
  endorse none node = done node
  endorse (some keys) node = add_keys keys node.trusted >>= (λ trusted. done (record node {
    trusted = trusted;
    trusted_file =
        if eqb (length trusted) (length node.trusted) then node.trusted_file else trusted;
  }))

  unfoldable pub admit_endorsement : PeerAnnounce → Option String → Node → Outcome Node
  unfolding note_names endorse
  admit_endorsement a none node = done node
  admit_endorsement a (some sender) node =
      if contains node.trusted sender
      then note_names sender a.node_id a.friendly_name node.names
        >>= (λ names. endorse a.node_list (record node { names = names }))
      else cut env sender node

  unfoldable pub obey : PeerAnnounce → Node → Result Bool → Outcome Node
  unfolding admit_endorsement
  obey a node (ok true) = admit_endorsement a a.sender node
  obey a node (ok false) = done node
  obey a node err = done node

  unfoldable pub handle_endorse : PeerAnnounce → Node → Outcome Node
  unfolding obey
  handle_endorse a node = verify_endorse_signature env a >>= obey a node

  unfoldable pub note_seq : String → Option ℕ → List (String × ℕ) → List (String × ℕ)
  note_seq sender none seqs = seqs
  note_seq sender (some seq) seqs = (sender, seq) ∷ seqs

  abbrev pub header : GossipNotification → Header
  header n = record {
    sender = n.sender;
    medium = n.medium;
    reason = n.reason;
    timestamp = n.timestamp;
    iri_count = length n.iris;
  }

  -- `print_notification`, and what becomes of its line.
  abbrev pub sse_of : GossipNotification → Option String → Sse
  sse_of n name = record {
    notif = n;
    sig_status = sig_status env (verify_signature env n);
    sender_name = name;
  }

  abbrev pub is_admitted : String → Node → Bool
  is_admitted sender node = elim node.trusted [ [] ↦ true | _ ∷ _ ↦ contains node.trusted sender ]

  unfoldable pub publish : Payload → GossipNotification → Option String → Node → Node
  unfolding verify_signature
  publish raw n name node = record node {
    sse = if env.has_sse then node.sse ++ sse_of n name ∷ [] else node.sse;
    archive =
        if env.has_archive
        then (store env.blake3 env.disk env.now raw (header n) node.archive).0
        else node.archive;
  }

  unfoldable pub handle_notification : Payload → GossipNotification → Node → Outcome Node
  unfolding note_seq publish
  handle_notification raw n node =
      let counted = record node {
        last_notification_time = env.now;
        notifications_received = node.notifications_received + 1;
      } in
      let noted = record counted { last_seqs = note_seq n.sender n.seq node.last_seqs } in
      if is_admitted n.sender node
      then cut env n.sender (publish raw n (get n.sender node.names) noted)
      else done counted

  unfoldable pub handle_received : Payload → Parsed → Node → Outcome Node
  unfolding handle_announce handle_endorse handle_notification
  handle_received raw (announce a) node =
      let announced = handle_announce a node in
      let endorsed = handle_endorse a node in
      if a.msg_type == "peer_announce"
      then announced
      else if a.msg_type == "peer_endorse"
      then endorsed
      else done node
  handle_received raw (notification n) node = handle_notification raw n node
  handle_received raw unknown node = done node

  unfoldable pub handle_event : Event → Node → Outcome Node
  unfolding handle_received
  handle_event (received raw) node = handle_received raw (env.parse raw) node
  handle_event (neighbor_up id) node = done (record node {
    peers = save_peer_if_new env.files id env.my_node_id node.peers;
    forwarded = if node.waiting then node.forwarded ++ id ∷ [] else node.forwarded;
    waiting = false;
  })
  handle_event (neighbor_down id) node = done node
  handle_event lagged node = done node
