-- ===== src/Listener/Gate.antt =====
-- What gossip-listener/src/main.rs lets through although nobody vouches for it, and what stops it.
use podping_alpha.Prelude.{
  String, ◌≡◌, sym, ap, ap₂, subst, ◌∙◌, true, false, ◌&&◌, none, some, [], ◌∷◌, ◌++◌,
  if◌then◌else◌, if_then, if_else, ok, err, done, panic, ◌>>=◌, Returns, ◌==◌, get,
}
use podping_alpha.Archive.{Archive, Payload, has_hash}
use podping_alpha.Archive.Rows.{store-has}
use podping_alpha.Writer.Notification.{GossipNotification}
use podping_alpha.Listener.{
  PeerAnnounce, announce, notification, received, Env, Node, invalid, verify_signature,
  verify_endorse_signature, verify_with, canonical_endorse_bytes, sig_status,
}
use podping_alpha.Listener.Events.{
  is_admitted, header, publish, handle_notification, handle_received, handle_endorse, handle_event,
  obey,
}

module _ (env : Env) (raw : Payload) (node : Node) where
  -- A notification whose signature does not verify, from a sender that is admitted and can be
  -- shown, goes out to the SSE clients, marked as invalid, and its payload into an archive that
  -- accepts it, where they are turned on.
  pub forged_published :
      (n : GossipNotification)
      → env.parse raw ≡ notification n
      → verify_signature env n ≡ err
      → is_admitted env n.sender node ≡ true
      → env.cuts n.sender ≡ true
      → env.has_sse ≡ true
      → env.has_archive ≡ true
      → env.disk.message_fails raw ≡ false
      → Returns
          (λ (after : Node).
            (after.sse
              ≡ node.sse
                ++ record { notif = n; sig_status = invalid; sender_name = get n.sender node.names }
                  ∷ [])
            × (has_hash after.archive.messages (env.blake3 raw) ≡ true))
          (handle_event env (received raw) node)
  unfolding handle_event handle_received handle_notification publish
  forged_published n parsed forged admitted cuts sse archive disk =
      let P : Node → Type 0 = λ (after : Node).
        (after.sse
          ≡ node.sse
            ++ record { notif = n; sig_status = invalid; sender_name = get n.sender node.names }
              ∷ [])
        × (has_hash after.archive.messages (env.blake3 raw) ≡ true) in
      subst (λ p. Returns P (handle_received env raw p node)) (sym parsed)
        (if_then (Returns P) (is_admitted env n.sender node) _ _ admitted (
          if_then (Returns P) (env.cuts n.sender) _ _ cuts (
            if_then
                (λ l.
                  l
                  ≡ node.sse
                    ++ record {
                      notif = n;
                      sig_status = invalid;
                      sender_name = get n.sender node.names;
                    }
                      ∷ [])
                env.has_sse _ _ sse
                (ap
                  (λ r.
                    node.sse
                    ++ record {
                      notif = n;
                      sig_status = sig_status env r;
                      sender_name = get n.sender node.names;
                    }
                      ∷ [])
                  forged),
            if_then (λ (a : Archive). has_hash a.messages (env.blake3 raw) ≡ true) env.has_archive _
                _ archive
                (store-has env.blake3 env.disk env.now raw (header env n) node.archive disk),
          )))

  -- An endorsement with a sender and a signature that decode, and without a list of keys, makes
  -- the listener panic, whoever sends it.
  pub endorse_panics :
      (a : PeerAnnounce) (sender signature : String)
      → env.parse raw ≡ announce a
      → a.msg_type ≡ "peer_endorse"
      → a.sender ≡ some sender
      → a.signature ≡ some signature
      → a.node_list ≡ none
      → (env.is_pubkey sender && env.is_signature signature) ≡ true
      → handle_event env (received raw) node ≡ panic
  unfolding handle_event handle_received handle_endorse verify_endorse_signature verify_with
      canonical_endorse_bytes
  endorse_panics a sender signature parsed kind from signed bare decodes =
      subst (λ p. handle_received env raw p node ≡ panic) (sym parsed)
        (if_else (λ m. m ≡ panic) (a.msg_type == "peer_announce") _ _
          (ap (λ t. t == "peer_announce") kind)
          (if_then (λ m. m ≡ panic) (a.msg_type == "peer_endorse") _ _
            (ap (λ t. t == "peer_endorse") kind) (ap (λ m. m >>= obey env a node) (checked))))
    where
      checked : verify_with env a a.signature a.sender ≡ panic
      checked =
          ap₂ (verify_with env a) signed from
          ∙ if_then (λ m. m ≡ panic) (env.is_pubkey sender && env.is_signature signature) _ _
              decodes
              (ap
                (λ l.
                  canonical_endorse_bytes env a sender l
                  >>= (λ b. done (if env.verify sender b signature then ok true else err)))
                bare)
