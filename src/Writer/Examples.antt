-- ===== src/Writer/Examples.antt =====
-- The batch theorems on three pings of two groups, and texts of two bytes an item.
use podping_alpha.Prelude.{
  ℕ, ◌*◌, String, ◌≡◌, refl, true, List, [], ◌∷◌, map, length, All, select, Perm, arith, Returns,
  if◌then◌else◌, Bool, Option, some, none, false,
}
use podping_alpha.Writer.Notification.{Codec, GossipNotification}
use podping_alpha.Writer.Offers.{taken}
use podping_alpha.Writer.{
  PendingPing, Env, Flush, SendAnswer, sent, full, split_by_size, flush_batch,
}
use podping_alpha.Writer.Split.{concat, IsChunk, split_by_size-IsSplit}
use podping_alpha.Writer.Groups.{entry_of}
use podping_alpha.Writer.Polling.{Poll, Poller}
use podping_alpha.Writer.Batch.{announced, flush_batch-Returns, flush_batch_dropped}

-- Bytes are the notification itself; its size is 25,000 an IRI.
abbrev codec : Codec (List String)
codec = record {
  canonical_vec = λ c. c.iris;
  to_vec = λ n. n.iris;
  bytes_len = λ b. 25000 * length b;
  sign_hex = λ b. "00";
}

abbrev env : (ℕ → SendAnswer) → Env
env answers = record {
  pubkey_hex = "ab";
  now = 1700000000;
  has_archive = true;
  try_send = answers;
  is_medium = λ m. true;
  is_reason = λ r. true;
  reply_sent = λ p. true;
  place = λ m r gs. 0;
}

abbrev ping : String → String → PendingPing
ping iri reason = record {
  iri = iri;
  medium_str = "podcast";
  reason_str = reason;
  medium_raw = 1;
  reason_raw = 0;
}

abbrev pending : List PendingPing
pending = ping "a" "update" ∷ ping "b" "live" ∷ ping "c" "update" ∷ []

abbrev has_codes : (true ≡ true) × (true ≡ true)
has_codes = (refl, refl)

split_iris :
    split_by_size (λ c. 25000 * length c) ("a" ∷ "b" ∷ "c" ∷ [])
    ≡ ("a" ∷ "b" ∷ []) ∷ ("c" ∷ []) ∷ []
unfolding split_by_size
split_iris = refl

split_by_size-IsSplit_example :
    (concat (split_by_size (λ c. 25000 * length c) ("a" ∷ "b" ∷ "c" ∷ [])) ≡ "a" ∷ "b" ∷ "c" ∷ [])
    × All
        (IsChunk (λ c. 25000 * length c))
        (split_by_size (λ c. 25000 * length c) ("a" ∷ "b" ∷ "c" ∷ []))
split_by_size-IsSplit_example =
    split_by_size-IsSplit (λ c. 25000 * length c) ("a" ∷ "b" ∷ "c" ∷ []) (omega arith)

flush_batch-Returns_example :
    Returns
      (λ (r : Flush (List String)).
        Perm (announced r.out.built) (map entry_of pending)
        × (r.out.broadcast
            ≡ taken (λ n. sent) 0 (map (λ (n : GossipNotification). n.iris) r.out.built))
        × ((r.replies ≡ (if r.out.broadcast_ok then select (λ p. true) pending else []))
            × (r.pending ≡ [])))
      (flush_batch codec (env (λ n. sent)) pending 7)
flush_batch-Returns_example =
    flush_batch-Returns codec (env (λ n. sent)) pending 7 (has_codes, (has_codes, (has_codes, tt)))

flush_batch_dropped_example :
    Returns
      (λ (r : Flush (List String)).
        (r.out.broadcast ≡ []) × (r.replies ≡ select (λ p. true) pending))
      (flush_batch codec (env (λ n. full)) pending 7)
flush_batch_dropped_example =
    flush_batch_dropped codec (env (λ n. full)) (ping "a" "update")
      (ping "b" "live" ∷ ping "c" "update" ∷ []) 7 (has_codes, (has_codes, (has_codes, tt)))
      (λ n. refl)

abbrev poll_at : Bool → ℕ → Option PendingPing → Poll
poll_at shutdown now arrived = record {
  shutdown = shutdown;
  arrived = arrived;
  now = now;
  try_send = λ n. sent;
  reply_sent = λ p. true;
  place = λ m r gs. 0;
}

abbrev polls : List Poll
polls =
    poll_at false 1 (some (ping "a" "update"))
    ∷ poll_at false 4 none
    ∷ poll_at false 5 (some (ping "b" "live"))
    ∷ poll_at true 6 none
    ∷ []

abbrev idle : Poller (List String)
idle = record {
  pending = [];
  last_flush = 0;
  seq_counter = 7;
  notified = [];
  broadcast = [];
  replied = [];
}
