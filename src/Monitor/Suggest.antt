-- ===== src/Monitor/Suggest.antt =====
-- The task of gossip-monitor/src/main.rs that analyses the topology and broadcasts suggestions.
use podping_alpha.Prelude.{
  ℕ, suc, ◌+◌, ◌-◌, ◌%◌, ◌^◌, String, Bool, false, Option, none, some, List, [], ◌∷◌, map, ltb,
  if◌then◌else◌, ◌==◌, get, put, Outcome, done, ◌>>=◌,
}
use podping_alpha.Swarm.{PeerState, PeerRegistry}
use podping_alpha.Swarm.Log.{SuggestionLogEntry, push}
use podping_alpha.Topology.Betweenness.{Floats}
use podping_alpha.Topology.Analysis.{PeerSuggestion, Orders, analyze_topology}
use podping_alpha.Monitor.Snapshot.{Texts, snapshot}

pub record PeerSuggest : Type 0 where
  pub msg_type : String
  pub sender : String
  pub target_node_id : String
  pub suggested_peers : List String
  pub reason : String
  pub timestamp : ℕ
  pub signature : String

-- The key of the monitor, how it signs a message whose signature is empty, and which broadcasts
-- succeed.
pub record Sending : Type 0 where
  pub monitor_pubkey : String
  pub sign : PeerSuggest → String
  pub broadcasts : PeerSuggest → Bool

-- A round of the task: the time at which it begins (`now_instant`), how much later each of its
-- suggestions is signed and broadcast (a broadcast may take up to ten seconds), the orders in which
-- the analysis iterates, and the registry.
pub record Tick (e : Floats) (Metrics : Type 0) : Type 0 where
  pub now : ℕ
  pub delay : ℕ → ℕ
  pub orders : Orders e
  pub registry : PeerRegistry Metrics

-- What the task keeps and shares; `sent` are the targets of what was broadcast, each with the
-- beginning of its round and the time of the message, the latest first.
pub record Suggester : Type 0 where
  pub last_suggest : List (String × ℕ)
  pub broadcast_failures : ℕ
  pub suggestion_log : List SuggestionLogEntry
  pub sent : List (String × (ℕ × ℕ))

abbrev pub begin_suggester : Suggester
begin_suggester = record {
  last_suggest = [];
  broadcast_failures = 0;
  suggestion_log = [];
  sent = [];
}

-- Less than 300 seconds since the last suggestion to the target.
abbrev pub is_limited : ℕ → Option ℕ → Bool
is_limited now none = false
is_limited now (some last) = ltb (now - last) 300

-- The friendly name that a new snapshot has for the target.
unfoldable pub name_of : {Metrics : Type 0} → String → List (PeerState Metrics) → Option String
name_of id [] = none
name_of id (p ∷ peers) =
    let rest = name_of id peers in if p.node_id == id then p.friendly_name else rest

module _ (e : Floats) (w : Sending) where
  unfoldable pub message : ℕ → PeerSuggestion e.F64 → PeerSuggest
  message now s =
      let unsigned : PeerSuggest = record {
        msg_type = "peer_suggest";
        sender = w.monitor_pubkey;
        target_node_id = s.target_node_id;
        suggested_peers = s.suggested_peers;
        reason = s.reason;
        timestamp = now;
        signature = "";
      } in
      record unsigned { signature = w.sign unsigned }

  module _ {Metrics : Type 0} where
    -- The body of the loop over the suggestions, in a round that began at `now`; the message is
    -- signed at `at`.
    unfoldable pub suggest :
        ℕ → ℕ → List (PeerState Metrics) → PeerSuggestion e.F64 → Suggester → Suggester
    unfolding message name_of push
    suggest now at peers s g =
        let entry : SuggestionLogEntry = record {
          timestamp = at;
          target_node_id = s.target_node_id;
          target_name = name_of s.target_node_id peers;
          suggested_peers = s.suggested_peers;
          reason = s.reason;
        } in
        if is_limited now (get s.target_node_id g.last_suggest)
        then g
        else if w.broadcasts (message at s)
        then record {
          last_suggest = put s.target_node_id now g.last_suggest;
          broadcast_failures = 0;
          suggestion_log = push entry g.suggestion_log;
          sent = (s.target_node_id, (now, at)) ∷ g.sent;
        }
        else record g { broadcast_failures = (g.broadcast_failures + 1) % 2 ^ 64 }

    unfoldable pub suggest_all :
        ℕ
        → (ℕ → ℕ)
        → ℕ
        → List (PeerState Metrics)
        → List (PeerSuggestion e.F64)
        → Suggester
        → Suggester
    unfolding suggest
    suggest_all now delay i peers [] g = g
    suggest_all now delay i peers (s ∷ suggestions) g =
        suggest_all now delay (suc i) peers suggestions (suggest now (now + delay i) peers s g)

    -- A round of the task; the registry does not change while it lasts.
    unfoldable pub topology_round : Texts → Tick e Metrics → Suggester → Outcome Suggester
    unfolding suggest_all
    topology_round t v g = do
      let taken = snapshot t v.now v.registry
      analysis ← analyze_topology e v.orders v.now (map (λ p. p.0) taken.1.peers)
      done (suggest_all v.now v.delay 0 taken.0.peers analysis.suggestions g)
