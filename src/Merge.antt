-- ===== src/Merge.antt =====
-- dtt-fork/src/gossip/merge/bubble.rs and message_overlap.rs, with what
-- dtt-fork/src/gossip/topic/publisher.rs publishes for them and `join_peers` of
-- dtt-fork/src/gossip/sender.rs.
--
-- A key or a hash of 32 bytes is a text, and so is the identity that a valid key is of. A set is the
-- list of its items.
mod Choice
mod Bubble
mod Overlap
mod Examples
use podping_alpha.Prelude.{
  ℕ, zero, suc, String, Bool, true, false, not, ◌&&◌, ◌||◌, Option, none, some, List, [], ◌∷◌, ◌++◌,
  length, take, select, contains, ltb, if◌then◌else◌, ◌==◌,
}

abbrev pub max_join_peers_count : ℕ
max_join_peers_count = 5

pub record GossipRecordContent : Type 0 where
  pub active_peers : List String
  pub last_message_hashes : List String

-- A record of the topic; the content is `none` when it cannot be decoded.
pub record DhtRecord : Type 0 where
  pub node_id : String
  pub content : Option GossipRecordContent

-- The array of zeros, which keys are valid (`EndpointId::from_bytes`), and the random order.
pub record Env : Type 0 where
  pub zero_key : String
  pub is_key : String → Bool
  pub shuffle : List String → List String

-- `collect::<HashSet<_>>()`
unfoldable pub to_set : List String → List String
to_set [] = []
to_set (x ∷ xs) = let rest = to_set xs in if contains rest x then rest else x ∷ rest

module _ (e : Env) where
  -- An array of `n` slots with the first items of a list.
  unfoldable pub pad : ℕ → List String → List String
  pad zero xs = []
  pad (suc n) [] = e.zero_key ∷ pad n []
  pad (suc n) (x ∷ xs) = x ∷ pad n xs

  -- What `publish` of the publisher puts into its record.
  unfoldable pub content_of : List String → List String → GossipRecordContent
  unfolding pad
  content_of neighbors hashes = record {
    active_peers = pad 5 neighbors;
    last_message_hashes = pad 5 hashes;
  }

  -- The peers that `join_peers` asks the gossip library for.
  unfoldable pub join_peers : List String → List String
  join_peers peers = take max_join_peers_count (e.shuffle peers)

  abbrev pub active_peers_of : Option GossipRecordContent → List String
  active_peers_of none = []
  active_peers_of (some c) = c.active_peers

  -- The candidates of `BubbleMergeActor::merge`, record by record.
  abbrev pub is_bubble_peer : String → List String → DhtRecord → String → Bool
  is_bubble_peer own neighbors r peer =
      not ((peer == e.zero_key) || contains neighbors peer || (peer == r.node_id) || (peer == own))
      && e.is_key peer

  unfoldable pub bubble_peers : String → List String → List DhtRecord → List String
  bubble_peers own neighbors [] = []
  bubble_peers own neighbors (r ∷ records) =
      select (is_bubble_peer own neighbors r) (active_peers_of r.content)
      ++ ((if e.is_key r.node_id && not (r.node_id == own) then r.node_id ∷ [] else [])
          ++ bubble_peers own neighbors records)

  -- The peers that the merge of bubbles joins, if it joins any.
  unfoldable pub merge_bubble : String → List String → List DhtRecord → Option (List String)
  unfolding to_set bubble_peers join_peers
  merge_bubble own neighbors records =
      let node_ids = to_set (bubble_peers own neighbors records) in
      if ltb (length neighbors) 4 && ltb 0 (length records)
      then (if ltb 0 (length node_ids) then some (join_peers node_ids) else none)
      else none

  -- `any` of the hashes in a record.
  unfoldable pub overlaps : List String → List String → Bool
  overlaps local [] = false
  overlaps local (h ∷ hashes) = not (h == e.zero_key) && contains local h || overlaps local hashes

  abbrev pub hashes_of : Option GossipRecordContent → List String
  hashes_of none = []
  hashes_of (some c) = c.last_message_hashes

  -- The publisher of a record and its peers.
  abbrev pub overlap_peers_of : DhtRecord → List String
  overlap_peers_of r =
      (if e.is_key r.node_id then r.node_id ∷ [] else [])
      ++ select (λ peer. not (peer == e.zero_key) && e.is_key peer) (active_peers_of r.content)

  -- The candidates of `MessageOverlapMergeActor::merge`.
  unfoldable pub overlap_peers : List String → List DhtRecord → List String
  unfolding overlaps
  overlap_peers local [] = []
  overlap_peers local (r ∷ records) =
      (if overlaps local (hashes_of r.content) then overlap_peers_of r else [])
      ++ overlap_peers local records

  unfoldable pub any_overlap : List String → List DhtRecord → Bool
  unfolding overlaps
  any_overlap local [] = false
  any_overlap local (r ∷ records) =
      overlaps local (hashes_of r.content) || any_overlap local records

  -- The peers that the merge by overlapping messages joins, if it asks for any.
  unfoldable pub merge_overlap : List String → List DhtRecord → Option (List String)
  unfolding to_set overlap_peers any_overlap join_peers
  merge_overlap local records =
      if ltb 0 (length local) && any_overlap local records
      then some (join_peers (to_set (overlap_peers local records)))
      else none
