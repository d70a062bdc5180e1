-- ===== src/Catchup.antt =====
-- The catch-up of gossip-listener/src/main.rs: a peer's `ArchiveSyncHandler::accept` sends payloads
-- behind their lengths, and `run_catchup` reads, publishes and archives them. The connection is the
-- list of bytes that arrive; how a peer is found is left out.
pub mod Wire
pub mod Transfer
mod Examples
use podping_alpha.Prelude.{
  ℕ, zero, suc, ◌+◌, ◌*◌, ◌/◌, ◌%◌, ◌^◌, Bool, true, false, ◌||◌, Option, none, some, List, [], ◌∷◌,
  ◌++◌, length, take, drop, ltb, eqb, if◌then◌else◌, Outcome, done, panic, ◌>>=◌,
}
use podping_alpha.Archive.{Payload, Archive, messages_since}
use podping_alpha.Writer.Notification.{GossipNotification}
use podping_alpha.Listener.{Env, Node, cut}
use podping_alpha.Listener.Events.{is_admitted, publish}

-- `u32::to_be_bytes` and `u32::from_be_bytes`
unfoldable pub to_be_bytes : ℕ → List ℕ
to_be_bytes n = (n / 16777216) % 256 ∷ (n / 65536) % 256 ∷ (n / 256) % 256 ∷ n % 256 ∷ []

unfoldable pub from_be_bytes : List ℕ → ℕ
from_be_bytes (a ∷ b ∷ c ∷ d ∷ rest) = a * 16777216 + (b * 65536 + (c * 256 + d))
from_be_bytes bytes = 0

abbrev pub max_response : ℕ
max_response = 50000

unfoldable pub cap : List Payload → List Payload
cap payloads = if ltb max_response (length payloads) then take max_response payloads else payloads

unfoldable pub frames : List Payload → List ℕ
unfolding to_be_bytes
frames [] = []
frames (p ∷ payloads) = to_be_bytes (length p % 2 ^ 32) ++ (p ++ frames payloads)

-- The stream that `accept` writes.
unfoldable pub accept : ℕ → Archive → List ℕ
unfolding cap frames
accept since a = frames (cap (messages_since since a))

-- What is read, and what is left.
unfoldable pub read_exact : ℕ → List ℕ → Option (List ℕ × List ℕ)
read_exact n bytes = if ltb (length bytes) n then none else some (take n bytes, drop n bytes)

abbrev pub max_payload : ℕ
max_payload = 10000000

abbrev pub is_refused : ℕ → Bool
is_refused len = eqb len 0 || ltb max_payload len

unfoldable pub read_payload : Option (List ℕ × List ℕ) → Option (List ℕ × List ℕ)
unfolding from_be_bytes read_exact
read_payload none = none
read_payload (some r) =
    if is_refused (from_be_bytes r.0) then none else read_exact (from_be_bytes r.0) r.1

-- The loop of `run_catchup`: every turn takes a byte at least, so the stream's length is fuel enough.
unfoldable pub read_loop : ℕ → List ℕ → List Payload
unfolding read_payload
read_loop zero bytes = []
read_loop (suc fuel) bytes = elim (read_payload (read_exact 4 bytes)) [
  | none ↦ []
  | some r ↦ r.0 ∷ read_loop fuel r.1
]

unfoldable pub read_all : List ℕ → List Payload
unfolding read_loop
read_all bytes = read_loop (length bytes) bytes

module _ (env : Env) (parse : Payload → Option GossipNotification) where
  unfoldable pub receive : Payload → Option GossipNotification → Node → Outcome Node
  receive raw none node = done node
  receive raw (some n) node =
      if is_admitted env n.sender node
      then cut env n.sender (publish env raw n none node)
      else done node

  unfoldable pub receive_all : List Payload → Node → Outcome Node
  unfolding receive
  receive_all [] node = done node
  receive_all (p ∷ payloads) node = receive p (parse p) node >>= receive_all payloads

  unfoldable pub run_catchup : List ℕ → Node → Outcome Node
  unfolding read_all receive_all
  run_catchup bytes node =
      receive_all (read_all bytes) node
      >>= (λ after. done (record after { last_notification_time = env.now }))
