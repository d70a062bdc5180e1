-- ===== src/Monitor/Neighbors.antt =====
-- The neighbors that the monitor of gossip-monitor/src/main.rs counts and names.
use podping_alpha.Prelude.{
  ℕ, suc, ◌^◌, ◌<◌, String, true, false, not, ◌≡◌, refl, sym, subst, ap, Option, none, some, List,
  [], ◌∷◌, ◌++◌, length, length-append, contains, IsDistinct, IsDistinct-snoc, eqb, if_cases,
  if_elim, if_else, ◌==◌, arith, eq_iff,
}
use podping_alpha.Swarm.{PeerAnnounce}
use podping_alpha.Monitor.{
  Hub, Env, GossipEvent, received, neighbor_up, neighbor_down, lagged, receive, handle_event,
  note_announce, insert, remove,
}

contains-remove :
    (id : String) (ids : List String) (x : String)
    → contains ids x ≡ false
    → contains (remove id ids) x ≡ false
contains-remove id [] x h = h
contains-remove id (y ∷ ids) x h = ground (arith, h, contains-remove id ids x)

remove-absent :
    (id : String) (ids : List String)
    → contains ids id ≡ false
    → length (remove id ids) ≡ length ids
remove-absent id [] h = refl
remove-absent id (y ∷ ids) h = ground (arith, h, remove-absent id ids)

length-remove :
    (id : String) (ids : List String)
    → IsDistinct ids
    → contains ids id ≡ true
    → suc (length (remove id ids)) ≡ length ids
length-remove id [] d h = absurd (ground (arith, h))
length-remove id (y ∷ ids) d h =
    if_cases (λ v. suc (length v) ≡ suc (length ids)) (not (y == id)) (y ∷ remove id ids)
      (remove id ids) (λ t. ground (arith, h, t, length-remove id ids d.1))
      (λ f. ap suc (
        remove-absent id ids
          (subst (λ v. contains ids v ≡ false) ((eq_iff y id).0 (ground (arith, f))) d.0)))

IsDistinct-remove : (id : String) (ids : List String) → IsDistinct ids → IsDistinct (remove id ids)
IsDistinct-remove id [] d = tt
IsDistinct-remove id (y ∷ ids) d =
    let rest = IsDistinct-remove id ids d.1 in
    if_elim IsDistinct (not (y == id)) (y ∷ remove id ids) (remove id ids)
      (contains-remove id ids y d.0, rest) rest

-- The count is that of the names, each of them there once.
pub record IsCounted {Metrics : Type 0} (h : Hub Metrics) : Type 0 where
  pub count : h.neighbor_count ≡ length h.neighbor_ids
  pub distinct : IsDistinct h.neighbor_ids
  pub bounded : length h.neighbor_ids < 2 ^ 32

module _ {Metrics : Type 0} where
  -- Only a node that is no neighbor becomes one, and only a neighbor ceases to be one.
  abbrev pub IsRegular : GossipEvent → Hub Metrics → Type 0
  IsRegular (received from content) h = Unit
  IsRegular (neighbor_up id) h =
      (contains h.neighbor_ids id ≡ false) × (suc (length h.neighbor_ids) < 2 ^ 32)
  IsRegular (neighbor_down id) h = contains h.neighbor_ids id ≡ true
  IsRegular lagged h = Unit

  note_announce-IsCounted :
      (e : Env Metrics) (now : ℕ) (o : Option (PeerAnnounce Metrics)) (h : Hub Metrics)
      → IsCounted h
      → IsCounted (note_announce e now o h)
  unfolding note_announce
  note_announce-IsCounted e now none h i = i
  note_announce-IsCounted e now (some a) h i =
      if_cases IsCounted (a.msg_type == "peer_announce") _ _
        (λ _. record { count = i.count; distinct = i.distinct; bounded = i.bounded }) (λ _. i)

  handle_event-IsCounted :
      (e : Env Metrics) (now : ℕ) (v : GossipEvent) (h : Hub Metrics)
      → IsRegular v h
      → IsCounted h
      → IsCounted (handle_event e now v h)
  unfolding handle_event
  handle_event-IsCounted e now (received from content) h r i =
      note_announce-IsCounted e now (e.parse content)
        (record h { unique_sources = insert from h.unique_sources })
        (record { count = i.count; distinct = i.distinct; bounded = i.bounded })
  handle_event-IsCounted e now (neighbor_up id) h r i =
      let grown : insert id h.neighbor_ids ≡ h.neighbor_ids ++ id ∷ [] =
        if_else (λ v. v ≡ h.neighbor_ids ++ id ∷ []) (contains h.neighbor_ids id) h.neighbor_ids
          (h.neighbor_ids ++ id ∷ []) r.0 refl in
      let one = length-append h.neighbor_ids (id ∷ []) in
      record {
        count = omega (arith, i.count, i.bounded, r.1, one, ap length grown);
        distinct = subst IsDistinct (sym grown) (IsDistinct-snoc h.neighbor_ids id i.distinct r.0);
        bounded = omega (arith, r.1, one, ap length grown);
      }
  handle_event-IsCounted e now (neighbor_down id) h r i =
      let one = length-remove id h.neighbor_ids i.distinct r in
      record {
        count = omega (arith, i.count, i.bounded, one);
        distinct = IsDistinct-remove id h.neighbor_ids i.distinct;
        bounded = omega (arith, i.bounded, one);
      }
  handle_event-IsCounted e now lagged h r i = i

  unfoldable pub receive_all : Env Metrics → ℕ → List (ℕ × GossipEvent) → Hub Metrics → Hub Metrics
  receive_all e generation [] h = h
  receive_all e generation (v ∷ events) h =
      receive_all e generation events (receive e generation v.0 v.1 h)

  -- Each event is regular when it comes.
  abbrev pub AllRegular : Env Metrics → ℕ → List (ℕ × GossipEvent) → Hub Metrics → Type 0
  AllRegular e generation [] h = Unit
  AllRegular e generation (v ∷ events) h =
      IsRegular v.1 h × AllRegular e generation events (receive e generation v.0 v.1 h)

  receive-IsCounted :
      (e : Env Metrics) (generation now : ℕ) (v : GossipEvent) (h : Hub Metrics)
      → IsRegular v h
      → IsCounted h
      → IsCounted (receive e generation now v h)
  unfolding receive
  receive-IsCounted e generation now v h r i =
      if_elim IsCounted (eqb h.receive_generation generation) (handle_event e now v h) h
        (handle_event-IsCounted e now v h r i) i

  -- Where the gossip library reports a neighbor up only when it was none, and down only when it was
  -- one, and there are fewer than 2^32 of them, the 32-bit count does not wrap: it stays the number
  -- of the neighbors' names, which are all different.
  pub receive_all-IsCounted :
      (e : Env Metrics) (generation : ℕ) (events : List (ℕ × GossipEvent)) (h : Hub Metrics)
      → AllRegular e generation events h
      → IsCounted h
      → IsCounted (receive_all e generation events h)
  unfolding receive_all
  receive_all-IsCounted e generation [] h r i = i
  receive_all-IsCounted e generation (v ∷ events) h r i =
      receive_all-IsCounted e generation events (receive e generation v.0 v.1 h) r.1
        (receive-IsCounted e generation v.0 v.1 h r.0 i)
