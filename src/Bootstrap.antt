-- ===== src/Bootstrap.antt =====
-- The bootstrap loop of dtt-fork/src/gossip/topic/bootstrap.rs.
--
-- What the loop sees in a round is an argument: the minute, the answers of `is_joined`, which panics
-- once the actor has stopped, the records of the DHT, where a value may be too short to be read
-- without a panic, and how the calls of the gossip library and the signing turn out.
mod Minutes
mod Examples
use podping_alpha.Prelude.{
  ℕ, ◌+◌, ◌-◌, String, Bool, true, false, not, ◌||◌, Outcome, done, panic, ◌>>=◌, List, [], ◌∷◌,
  ◌++◌, select, length, eqb, if◌then◌else◌, ◌==◌,
}
use podping_alpha.Merge.{Env, DhtRecord, to_set, active_peers_of}

pub record Round : Type 0 where
  pub minute : ℕ
  pub joined_before : Outcome Bool
  pub joined_meanwhile : Outcome Bool
  pub joined_soon : Outcome Bool
  pub joined_finally : Outcome Bool
  pub records_of : ℕ → Outcome (List DhtRecord)
  pub join_is_ok : String → Bool
  pub joined_via : String → Outcome Bool
  pub signs : Bool

-- `published` are the minutes of the records that were handed to the publisher, and `asked` the
-- peers that the gossip library was asked to join, the latest first in both. The loop has ended if
-- it is done, by `break`, or dead, by a panic.
pub record Progress : Type 0 where
  pub last_published_unix_minute : ℕ
  pub published : List ℕ
  pub asked : List String
  pub is_done : Bool
  pub is_dead : Bool

abbrev pub begin : Progress
begin = record {
  last_published_unix_minute = 0;
  published = [];
  asked = [];
  is_done = false;
  is_dead = false;
}

-- What comes after an answer that may be a panic.
unfoldable pub unless_panic : {A : Type 0} → Outcome A → Progress → (A → Progress) → Progress
unless_panic (done a) p go = go a
unless_panic panic p go = record p { is_dead = true }

-- The publisher of each record, and the peers that it lists.
unfoldable pub found_nodes : Env → List DhtRecord → List String
found_nodes e [] = []
found_nodes e (r ∷ records) =
    (r.node_id ∷ select (λ peer. not (peer == e.zero_key)) (active_peers_of e r.content))
    ++ found_nodes e records

unfoldable pub bootstrap_nodes : Env → List DhtRecord → List String
unfolding found_nodes to_set
bootstrap_nodes e records = to_set (select e.is_key (found_nodes e records))

-- The loop that joins one node after the other, until one of them makes a neighbor; with whether it
-- ran without a panic.
unfoldable pub ask_each : Round → List String → List String → Bool × List String
ask_each r [] asked = (true, asked)
ask_each r (node_id ∷ nodes) asked =
    let rest = ask_each r nodes (node_id ∷ asked) in
    let answered : Bool × List String = elim (r.joined_via node_id) [
      | done true ↦ (true, node_id ∷ asked)
      | done false ↦ rest
      | panic ↦ (false, node_id ∷ asked)
    ] in
    if r.join_is_ok node_id then answered else rest

-- The own record is published unless this minute's was.
unfoldable pub publish_once : Round → ℕ → Progress → Progress
publish_once r unix_minute p =
    if eqb unix_minute p.last_published_unix_minute then p else record p {
      last_published_unix_minute = unix_minute;
      published = if r.signs then unix_minute ∷ p.published else p.published;
    }

-- On the first try the minute before, afterwards the current one.
abbrev pub minute_of : Round → Progress → ℕ
minute_of r p = if eqb p.last_published_unix_minute 0 then r.minute - 1 else r.minute

abbrev pub finished : Progress → Progress
finished p = record p { is_done = true }

-- The part of a round that joins the nodes of the records.
unfoldable pub join_nodes : Env → Round → List DhtRecord → Progress → Progress
unfolding bootstrap_nodes ask_each publish_once unless_panic
join_nodes e r records p =
    let asked = ask_each r (bootstrap_nodes e records) p.asked in
    let after : Progress = record p { asked = asked.1 } in
    let missed = publish_once r (minute_of r p) after in
    let checks : Outcome Bool = r.joined_soon >>= λ _. r.joined_finally in
    let last = unless_panic checks after (λ joined. if joined then finished after else missed) in
    let dead : Progress = record after { is_dead = true } in
    unless_panic r.joined_meanwhile p
      (λ joined. if joined then finished p else if asked.0 then last else dead)

unfoldable pub round : Env → Round → Progress → Progress
unfolding publish_once join_nodes unless_panic
round e r p =
    let unix_minute = minute_of r p in
    let found : Outcome (List DhtRecord) = (do
      older ← r.records_of (unix_minute - 1)
      newer ← r.records_of unix_minute
      done (older ++ newer)) in
    let publish = publish_once r unix_minute p in
    let search =
      unless_panic found p
        (λ records. if eqb (length records) 0 then publish else join_nodes e r records p) in
    unless_panic r.joined_before p (λ joined. if joined then finished p else search)

-- The loop ends with the round that finds the node joined, or panics.
unfoldable pub rounds : Env → List Round → Progress → Progress
unfolding round
rounds e [] p = p
rounds e (r ∷ rs) p = rounds e rs (if p.is_done || p.is_dead then p else round e r p)
