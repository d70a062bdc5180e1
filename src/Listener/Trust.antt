-- ===== src/Listener/Trust.antt =====
-- Who can change the trusted publishers of gossip-listener/src/main.rs.
use podping_alpha.Writer.Notification.{GossipNotification}
use podping_alpha.Listener.Events.{
  name_peer, note_names, note_name, add_keys, handle_announce, admit_endorsement, obey, endorse,
  handle_endorse, handle_notification, handle_received, handle_event, is_admitted, publish,
}
use podping_alpha.Prelude.{
  String, ◌≡◌, refl, Bool, true, false, ◌&&◌, Option, none, some, contains, if◌then◌else◌, if_elim,
  ok, err, Outcome, done, panic, ◌>>=◌, Ends, sym, ap, ◌∙◌, ◌⊎◌, inl, inr, if_cases, Ends-bind,
  Ends-all, ◌==◌, eq_iff, List, Result, Ends-imp,
}
use podping_alpha.Archive.{Payload}
use podping_alpha.Listener.{
  PeerAnnounce, Env, Node, canonical_endorse_bytes, verify_with, Parsed, announce, notification,
  unknown, received, verify_endorse_signature,
}

module _ (env : Env) where
  -- An endorsement whose sender is trusted and has signed it.
  pub record IsEndorsed (a : PeerAnnounce) (node : Node) : Type 0 where
    pub sender : String
    pub signature : String
    pub bytes : Payload
    pub from : a.sender ≡ some sender
    pub signed : a.signature ≡ some signature
    pub encoded : canonical_endorse_bytes env a sender a.node_list ≡ done bytes
    pub verified : env.verify sender bytes signature ≡ true
    pub trusted : contains node.trusted sender ≡ true

  record IsSigned (a : PeerAnnounce) (osig : Option String) (osender : Option String) : Type 0 where
    pub sender : String
    pub signature : String
    pub bytes : Payload
    pub from : osender ≡ some sender
    pub signed : osig ≡ some signature
    pub encoded : canonical_endorse_bytes env a sender a.node_list ≡ done bytes
    pub verified : env.verify sender bytes signature ≡ true

  valid_or_bad : (b : Bool) → (if b then ok true else err) ≡ ok true → b ≡ true
  valid_or_bad true h = refl
  valid_or_bad false h = cc

  with_bytes :
      (a : PeerAnnounce) (s sender : String) (m : Outcome Payload)
      → canonical_endorse_bytes env a sender a.node_list ≡ m
      → Ends
          (λ r. r ≡ ok true → IsSigned a (some s) (some sender))
          (m >>= (λ b. done (if env.verify sender b s then ok true else err)))
  with_bytes a s sender panic e = tt
  with_bytes a s sender (done b) e = λ h. record {
    sender = sender;
    signature = s;
    bytes = b;
    from = refl;
    signed = refl;
    encoded = e;
    verified = valid_or_bad (env.verify sender b s) h;
  }

  verify_with-IsSigned :
      (a : PeerAnnounce) (osig osender : Option String)
      → Ends (λ r. r ≡ ok true → IsSigned a osig osender) (verify_with env a osig osender)
  unfolding verify_with
  verify_with-IsSigned a none osender = λ h. absurd (cc)
  verify_with-IsSigned a (some s) none = λ h. absurd (cc)
  verify_with-IsSigned a (some s) (some sender) =
      if_elim (Ends (λ r. r ≡ ok true → IsSigned a (some s) (some sender)))
        (env.is_pubkey sender && env.is_signature s) _ _
        (with_bytes a s sender (canonical_endorse_bytes env a sender a.node_list) refl)
        (λ h. absurd (cc))

  -- What may change the trusted publishers, and what may be published.
  pub record IsGuarded (parsed : Parsed) (node : Node) (after : Node) : Type 0 where
    pub trust :
        (after.trusted ≡ node.trusted)
        ⊎ ((a : PeerAnnounce) × ((parsed ≡ announce a)
              × ((a.msg_type ≡ "peer_endorse") × IsEndorsed a node)))
    pub publication :
        ((after.sse ≡ node.sse) × (after.archive ≡ node.archive))
        ⊎ ((n : GossipNotification) × ((parsed ≡ notification n)
              × (is_admitted env n.sender node ≡ true)))

  -- The trusted publishers may have changed only if `G`; nothing is published.
  abbrev IsQuiet : Type 0 → Node → Node → Type 0
  IsQuiet G node after =
      ((after.trusted ≡ node.trusted) ⊎ G)
      × ((after.sse ≡ node.sse) × (after.archive ≡ node.archive))

  some_inj : (a b : String) → some a ≡ some b → a ≡ b
  some_inj a b h = cc

  module _ (G : Type 0) where
    name_peer-IsQuiet :
        (key : String) (name : Option String) (node : Node)
        → Ends (IsQuiet G node) (name_peer env key name node)
    unfolding name_peer
    name_peer-IsQuiet key none node = (inl refl, (refl, refl))
    name_peer-IsQuiet key (some name) node =
        Ends-bind (λ _. Unit) (IsQuiet G node) (note_name env key (env.sanitize name) node.names) _
          (Ends-all (λ _. Unit) (λ _. tt) _) (λ names _. (inl refl, (refl, refl)))

    endorse-IsQuiet :
        G
        → (keys : Option (List String)) (before : Node) (node : Node) → node.sse ≡ before.sse
        → node.archive ≡ before.archive
        → Ends (IsQuiet G before) (endorse env keys node)
    unfolding endorse
    endorse-IsQuiet g none before node s t = (inr g, (s, t))
    endorse-IsQuiet g (some keys) before node s t =
        Ends-bind (λ _. Unit) (IsQuiet G before) (add_keys env keys node.trusted) _
          (Ends-all (λ _. Unit) (λ _. tt) _) (λ trusted _. (inr g, (s, t)))

    admit_endorsement-IsQuiet :
        (a : PeerAnnounce) (osender : Option String) (node : Node)
        → ((sender : String) → osender ≡ some sender → contains node.trusted sender ≡ true → G)
        → Ends (IsQuiet G node) (admit_endorsement env a osender node)
    unfolding admit_endorsement
    admit_endorsement-IsQuiet a none node g = (inl refl, (refl, refl))
    admit_endorsement-IsQuiet a (some sender) node g =
        if_cases (Ends (IsQuiet G node)) (contains node.trusted sender) _ _
          (λ t.
            Ends-bind (λ _. Unit) (IsQuiet G node)
              (note_names env sender a.node_id a.friendly_name node.names) _
              (Ends-all (λ _. Unit) (λ _. tt) _)
              (λ names _.
                endorse-IsQuiet (g sender refl t) a.node_list node (record node { names = names })
                  refl refl))
          (λ f. if_elim (Ends (IsQuiet G node)) (env.cuts sender) _ _ (inl refl, (refl, refl)) tt)

  obey-IsQuiet :
      (a : PeerAnnounce) (node : Node) (r : Result Bool)
      → (r ≡ ok true → IsSigned a a.signature a.sender)
      → Ends (IsQuiet (IsEndorsed a node) node) (obey env a node r)
  unfolding obey
  obey-IsQuiet a node (ok true) h =
      let s = h refl in
      admit_endorsement-IsQuiet (IsEndorsed a node) a a.sender node (λ sender e t. record {
        sender = s.sender;
        signature = s.signature;
        bytes = s.bytes;
        from = s.from;
        signed = s.signed;
        encoded = s.encoded;
        verified = s.verified;
        trusted = ap (contains node.trusted) (some_inj s.sender sender (sym s.from ∙ e)) ∙ t;
      })
  obey-IsQuiet a node (ok false) h = (inl refl, (refl, refl))
  obey-IsQuiet a node err h = (inl refl, (refl, refl))

  handle_endorse-IsQuiet :
      (a : PeerAnnounce) (node : Node)
      → Ends (IsQuiet (IsEndorsed a node) node) (handle_endorse env a node)
  unfolding handle_endorse verify_endorse_signature
  handle_endorse-IsQuiet a node =
      Ends-bind (λ r. r ≡ ok true → IsSigned a a.signature a.sender)
        (IsQuiet (IsEndorsed a node) node) (verify_with env a a.signature a.sender)
        (obey env a node) (verify_with-IsSigned a a.signature a.sender)
        (λ r h. obey-IsQuiet a node r h)

  handle_announce-IsQuiet :
      (a : PeerAnnounce) (node : Node) → Ends (IsQuiet ⊥ node) (handle_announce env a node)
  unfolding handle_announce
  handle_announce-IsQuiet a node = name_peer-IsQuiet ⊥ a.node_id a.friendly_name _

  handle_notification-IsGuarded :
      (raw : Payload) (n : GossipNotification) (node : Node)
      → Ends (IsGuarded (notification n) node) (handle_notification env raw n node)
  unfolding handle_notification publish
  handle_notification-IsGuarded raw n node =
      if_cases (Ends (IsGuarded (notification n) node)) (is_admitted env n.sender node) _ _
        (λ t.
          if_elim (Ends (IsGuarded (notification n) node)) (env.cuts n.sender) _ _
            (record { trust = inl refl; publication = inr (n, (refl, t)) }) tt)
        (λ f. record { trust = inl refl; publication = inl (refl, refl) })

  handle_received-IsGuarded :
      (raw : Payload) (parsed : Parsed) (node : Node)
      → Ends (IsGuarded parsed node) (handle_received env raw parsed node)
  unfolding handle_received
  handle_received-IsGuarded raw (announce a) node =
      let P = IsGuarded (announce a) node in
      if_cases (Ends P) (a.msg_type == "peer_announce") _ _
        (λ t.
          Ends-imp (IsQuiet ⊥ node) P
            (λ (b : Node) (q : IsQuiet ⊥ node b). record {
              trust = elim q.0 [ inl e ↦ inl e | inr g ↦ absurd g ];
              publication = inl q.1;
            })
            (handle_announce env a node) (handle_announce-IsQuiet a node))
        (λ f.
          if_cases (Ends P) (a.msg_type == "peer_endorse") _ _
            (λ t.
              Ends-imp (IsQuiet (IsEndorsed a node) node) P
                (λ (b : Node) (q : IsQuiet (IsEndorsed a node) node b). record {
                  trust = elim q.0 [
                    | inl e ↦ inl e
                    | inr g ↦ inr (a, (refl, ((eq_iff a.msg_type "peer_endorse").0 t, g)))
                  ];
                  publication = inl q.1;
                })
                (handle_endorse env a node) (handle_endorse-IsQuiet a node))
            (λ _. record { trust = inl refl; publication = inl (refl, refl) }))
  handle_received-IsGuarded raw (notification n) node = handle_notification-IsGuarded raw n node
  handle_received-IsGuarded raw unknown node = record {
    trust = inl refl;
    publication = inl (refl, refl);
  }

  -- A message, unless it makes the listener panic, changes the trusted publishers only if it is an
  -- endorsement whose sender is trusted already and whose signature verifies under the sender's
  -- key; and it changes the SSE stream or the archive only if it is a notification whose sender is
  -- trusted, or no publisher is.
  pub handle_event-IsGuarded :
      (raw : Payload) (node : Node)
      → Ends (IsGuarded (env.parse raw) node) (handle_event env (received raw) node)
  unfolding handle_event
  handle_event-IsGuarded raw node = handle_received-IsGuarded raw (env.parse raw) node
