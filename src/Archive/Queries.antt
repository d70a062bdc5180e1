-- ===== src/Archive/Queries.antt =====
-- The queries of gossip-listener/src/archive.rs.
use mathlib.Core.List.Perm
use podping_alpha.Prelude.{
  ◌<◌, ◌^◌, ◌⊎◌, inl, inr, Bool, true, not, ◌++◌, select-split, All-selected, ℕ, ◌≤◌, ◌≡◌, refl,
  false, List, [], ◌∷◌, Perm, All, All-map, arith, leb, leb→le, if_cases, if_elim, select, map,
}
use podping_alpha.Archive.{
  Message, Archive, insert_by_time, order_by_time, messages_since, is_since,
}

abbrev pub Earlier : Message → Message → Type 0
Earlier a b = a.created_at ≤ b.created_at

abbrev pub IsSorted : List Message → Type 0
IsSorted [] = Unit
IsSorted (m ∷ ms) = All (Earlier m) ms × IsSorted ms

insert_by_time-perm : (m : Message) (ms : List Message) → Perm (insert_by_time m ms) (m ∷ ms)
unfolding insert_by_time
insert_by_time-perm m [] = Perm.refl _
insert_by_time-perm m (x ∷ xs) =
    if_cases (λ l. Perm l (m ∷ x ∷ xs)) (leb m.created_at x.created_at) _ _ (λ _. Perm.refl _)
      (λ _. Perm.trans (Perm.cons x (insert_by_time-perm m xs)) (Perm.swap m x xs))

order_by_time-perm : (ms : List Message) → Perm (order_by_time ms) ms
unfolding order_by_time
order_by_time-perm [] = Perm.nil
order_by_time-perm (m ∷ ms) =
    Perm.trans (insert_by_time-perm m (order_by_time ms)) (Perm.cons m (order_by_time-perm ms))

module _ (P : Message → Type 0) where
  All-insert_by_time :
      (m : Message) (ms : List Message) → P m → All P ms → All P (insert_by_time m ms)
  unfolding insert_by_time
  All-insert_by_time m [] h k = (h, tt)
  All-insert_by_time m (x ∷ xs) h k =
      if_elim (All P) (leb m.created_at x.created_at) _ _ (h, k)
        (k.0, All-insert_by_time m xs h k.1)

  pub All-order_by_time : (ms : List Message) → All P ms → All P (order_by_time ms)
  unfolding order_by_time
  All-order_by_time [] h = tt
  All-order_by_time (m ∷ ms) h =
      All-insert_by_time m (order_by_time ms) h.0 (All-order_by_time ms h.1)

insert_by_time-IsSorted :
    (m : Message) (ms : List Message) → IsSorted ms → IsSorted (insert_by_time m ms)
unfolding insert_by_time
insert_by_time-IsSorted m [] h = (tt, tt)
insert_by_time-IsSorted m (x ∷ xs) h =
    if_cases IsSorted (leb m.created_at x.created_at) _ _
      (λ t.
        let le = leb→le m.created_at x.created_at t in
        (
          (
            le,
            All-map (Earlier m) (λ (y : Message) (b : Earlier x y). omega (arith, le, b)) xs h.0,
          ),
          h,
        ))
      (λ f. (
        All-insert_by_time (Earlier x) m xs (later m.created_at x.created_at f) h.0,
        insert_by_time-IsSorted m xs h.1,
      ))
  where
    later : (a b : ℕ) → leb a b ≡ false → b ≤ a
    later a b f = ground arith

order_by_time-IsSorted : (ms : List Message) → IsSorted (order_by_time ms)
unfolding order_by_time
order_by_time-IsSorted [] = tt
order_by_time-IsSorted (m ∷ ms) =
    insert_by_time-IsSorted m (order_by_time ms) (order_by_time-IsSorted ms)

-- Asked for, by a time that the column's signed type holds; a larger one is read as negative.
abbrev pub IsAsked : ℕ → Message → Type 0
IsAsked since m = (2 ^ 63 ≤ since) ⊎ (since ≤ m.created_at)

abbrev pub IsOlder : ℕ → Message → Type 0
IsOlder since m = (since < 2 ^ 63) × (m.created_at < since)

-- The rows of an answer: sorted, asked for, and with the older messages the whole archive.
pub record IsAnswer (since : ℕ) (a : Archive) (rows : List Message) : Type 0 where
  pub sorted : IsSorted rows
  pub asked : All (IsAsked since) rows
  pub older : List Message
  pub old : All (IsOlder since) older
  pub complete : Perm (rows ++ older) a.messages

is_since-IsAsked : (since : ℕ) (m : Message) → is_since since m ≡ true → IsAsked since m
unfolding is_since
is_since-IsAsked since m t =
    if_cases (λ (b : Bool). b ≡ leb (2 ^ 63) since → IsAsked since m) (leb (2 ^ 63) since) true
      false (λ h _. inl (leb→le (2 ^ 63) since h))
      (λ h _. inr (leb→le since m.created_at (ground (arith, t, h)))) (ground arith)

is_since-IsOlder : (since : ℕ) (m : Message) → not (is_since since m) ≡ true → IsOlder since m
unfolding is_since
is_since-IsOlder since m t = (ground (arith, t), ground (arith, t))

-- The query returns the payloads of the messages created at that time or later, each as often as
-- the archive has it and in the order of creation; every other message of the archive is older. From
-- 2^63 on, which the column's signed type does not hold, it returns those of all messages.
pub messages_since-IsAnswer :
    (since : ℕ) (a : Archive)
    → (rows : List Message) × ((messages_since since a ≡ map (λ (m : Message). m.payload) rows)
        × IsAnswer since a rows)
unfolding messages_since
messages_since-IsAnswer since a =
    let due = select (is_since since) a.messages in
    let left = select (λ m. not (is_since since m)) a.messages in
    (
      order_by_time due,
      (
        refl,
        record {
          sorted = order_by_time-IsSorted due;
          asked =
              All-order_by_time (IsAsked since) due
                (All-selected (IsAsked since) (is_since since) (is_since-IsAsked since) a.messages);
          older = left;
          old =
              All-selected (IsOlder since) (λ m. not (is_since since m)) (is_since-IsOlder since)
                a.messages;
          complete =
              Perm.trans (Perm.append_right left (order_by_time-perm due))
                (select-split (is_since since) a.messages);
        },
      ),
    )
