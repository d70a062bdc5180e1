-- ===== src/Catchup/Transfer.antt =====
-- What a catch-up brings into the client's archive.
use podping_alpha.Prelude.{ℕ, String, ◌≡◌, true, false, Option, some, List, All, map}
use podping_alpha.Archive.Queries.{IsAnswer}
use podping_alpha.Archive.{Message, Payload, Archive, has_hash}
use podping_alpha.Archive.Rows.{IsAuthentic}
use podping_alpha.Writer.Notification.{GossipNotification}
use podping_alpha.Listener.{Env, Node}
use podping_alpha.Listener.Events.{is_admitted}
use podping_alpha.Catchup.{cap}
use podping_alpha.Catchup.Wire.{readable}

module _ (env : Env) (parse : Payload → Option GossipNotification) where
  -- A payload that the client takes for a notification of an admitted sender.
  pub record IsWanted (node : Node) (p : Payload) : Type 0 where
    pub notif : GossipNotification
    pub parsed : parse p ≡ some notif
    pub admitted : is_admitted env notif.sender node ≡ true

  -- The client archives, and its disk accepts every INSERT.
  pub record IsReady : Type 0 where
    pub archives : env.has_archive ≡ true
    pub accepts : (p : Payload) → env.disk.message_fails p ≡ false

  -- If the payload is a notification, its sender's key can be cut at the eighth byte, as one of
  -- hexadecimal digits can.
  abbrev pub IsShown : Payload → Type 0
  IsShown p = (n : GossipNotification) → parse p ≡ some n → env.cuts n.sender ≡ true

  abbrev IsArchived : Node → Payload → Type 0
  IsArchived node p = has_hash node.archive.messages (env.blake3 p) ≡ true

  -- From one state to a later one: the trusted publishers are the same, no message is gone.
  record IsLater (before : Node) (after : Node) : Type 0 where
    pub trusted : after.trusted ≡ before.trusted
    pub kept :
        (k : String)
        → has_hash before.archive.messages k ≡ true
        → has_hash after.archive.messages k ≡ true
    pub authentic :
        All (IsAuthentic env.blake3) before.archive.messages
        → All (IsAuthentic env.blake3) after.archive.messages

  -- What a catch-up from the time `since` brings: of the server's messages of that time or later,
  -- in the order of creation, of which it sends 50,000 at most, those before the first that is empty
  -- or over ten million bytes, if they are notifications of a sender that the client admits.
  pub record IsCaughtUp (since : ℕ) (server : Archive) (client : Node) (after : Node) : Type 0 where
    pub rows : List Message
    pub answer : IsAnswer since server rows
    pub archived :
        All
          (λ p. IsWanted client p → has_hash after.archive.messages (env.blake3 p) ≡ true)
          (readable (cap (map (λ (m : Message). m.payload) rows)))
    pub authentic : All (IsAuthentic env.blake3) after.archive.messages
