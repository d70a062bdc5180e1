-- ===== src/Queue/Order.antt =====
-- The order in which `get_pings_from_queue` of podping/dbif/src/lib.rs reads rows.
use mathlib.Core.List.Perm
use podping_alpha.Prelude.{
  ℕ, zero, suc, ◌≤◌, String, ◌≡◌, refl, ap, ◌∙◌, Bool, List, [], ◌∷◌, Perm, length, take, drop,
  select, All, All-map, All-take, All-drop, arith, leb, ◌==◌, eq_iff, str_eq_refl, if_cases,
  if◌then◌else◌,
}
use podping_alpha.Ping.{Reason, update, live, live_end, reason_name}
use podping_alpha.Queue.{text_le, insert_by_reason, order_by_reason}
use podping_alpha.Queue.Rows.{Row}
use podping_alpha.Queue.Invariant.{IsNamed}

-- The priority of a reason's text: live items first, then ends, then updates.
abbrev pub priority : String → ℕ
priority s = if s == "Live" then 0 else if s == "LiveEnd" then 1 else 2

text_le-reason_name :
    (a b : Reason)
    → text_le (reason_name a) (reason_name b)
      ≡ leb (priority (reason_name a)) (priority (reason_name b))
unfolding text_le reason_name
text_le-reason_name update update = refl
text_le-reason_name update live = refl
text_le-reason_name update live_end = refl
text_le-reason_name live update = refl
text_le-reason_name live live = refl
text_le-reason_name live live_end = refl
text_le-reason_name live_end update = refl
text_le-reason_name live_end live = refl
text_le-reason_name live_end live_end = refl

text_le-priority :
    (a b : Row)
    → IsNamed a
    → IsNamed b
    → text_le a.reason b.reason ≡ leb (priority a.reason) (priority b.reason)
text_le-priority a b ha hb =
    rw (ha.is_reason, hb.is_reason) (text_le-reason_name ha.reason hb.reason)

abbrev pub Before : Row → Row → Type 0
Before a b = priority a.reason ≤ priority b.reason

abbrev pub IsOrdered : List Row → Type 0
IsOrdered [] = Unit
IsOrdered (r ∷ rows) = All (Before r) rows × IsOrdered rows

pub insert_by_reason-perm : (r : Row) (rows : List Row) → Perm (insert_by_reason r rows) (r ∷ rows)
unfolding insert_by_reason
insert_by_reason-perm r [] = Perm.refl _
insert_by_reason-perm r (s ∷ rows) =
    if_cases (λ l. Perm l (r ∷ s ∷ rows)) (text_le r.reason s.reason) _ _ (λ _. Perm.refl _)
      (λ _. Perm.trans (Perm.cons s (insert_by_reason-perm r rows)) (Perm.swap r s rows))

pub order_by_reason-perm : (rows : List Row) → Perm (order_by_reason rows) rows
unfolding order_by_reason
order_by_reason-perm [] = Perm.nil
order_by_reason-perm (r ∷ rows) =
    Perm.trans (insert_by_reason-perm r (order_by_reason rows))
      (Perm.cons r (order_by_reason-perm rows))

module _ {κ} (P : Row → Type κ) where
  All-insert_by_reason :
      (r : Row) (rows : List Row) → P r → All P rows → All P (insert_by_reason r rows)
  unfolding insert_by_reason
  All-insert_by_reason r [] h hs = (h, tt)
  All-insert_by_reason r (s ∷ rows) h hs =
      let rest = All-insert_by_reason r rows h hs.1 in
      if_cases (All P) (text_le r.reason s.reason) _ _ (λ _. (h, hs)) (λ _. (hs.0, rest))

  pub All-order_by_reason : (rows : List Row) → All P rows → All P (order_by_reason rows)
  unfolding order_by_reason
  All-order_by_reason [] h = tt
  All-order_by_reason (r ∷ rows) h =
      All-insert_by_reason r (order_by_reason rows) h.0 (All-order_by_reason rows h.1)

pub length-insert_by_reason :
    (r : Row) (rows : List Row) → length (insert_by_reason r rows) ≡ suc (length rows)
unfolding insert_by_reason
length-insert_by_reason r [] = refl
length-insert_by_reason r (s ∷ rows) = ground (arith, length-insert_by_reason r rows)

pub length-order_by_reason : (rows : List Row) → length (order_by_reason rows) ≡ length rows
unfolding order_by_reason
length-order_by_reason [] = refl
length-order_by_reason (r ∷ rows) =
    length-insert_by_reason r (order_by_reason rows) ∙ ap suc (length-order_by_reason rows)

insert_by_reason-IsOrdered :
    (r : Row) (rows : List Row)
    → IsNamed r
    → All IsNamed rows
    → IsOrdered rows
    → IsOrdered (insert_by_reason r rows)
unfolding insert_by_reason
insert_by_reason-IsOrdered r [] n ns o = (tt, tt)
insert_by_reason-IsOrdered r (s ∷ rows) n ns o =
    let rest = insert_by_reason-IsOrdered r rows n ns.1 o.1 in
    let e = text_le-priority r s n ns.0 in
    if_cases IsOrdered (text_le r.reason s.reason) _ _
      (λ h.
        let le : Before r s = ground (arith, e, h) in
        ((le, All-map (Before r) (λ t k. omega arith) rows o.0), o))
      (λ h. (All-insert_by_reason (Before s) r rows (ground (arith, e, h)) o.0, rest))

pub order_by_reason-IsOrdered :
    (rows : List Row) → All IsNamed rows → IsOrdered (order_by_reason rows)
unfolding order_by_reason
order_by_reason-IsOrdered [] h = tt
order_by_reason-IsOrdered (r ∷ rows) h =
    insert_by_reason-IsOrdered r (order_by_reason rows) h.0 (All-order_by_reason IsNamed rows h.1)
      (order_by_reason-IsOrdered rows h.1)

abbrev pub has_reason : String → Row → Bool
has_reason t r = r.reason == t

-- Rows of one reason keep their order.
insert_by_reason-stable :
    (t : String) (r : Row) (rows : List Row)
    → select (has_reason t) (insert_by_reason r rows) ≡ select (has_reason t) (r ∷ rows)
unfolding insert_by_reason text_le
insert_by_reason-stable t r [] = refl
insert_by_reason-stable t r (s ∷ rows) = ground (
  arith,
  insert_by_reason-stable t r rows,
  eq_iff r.reason t,
  eq_iff s.reason t,
  eq_iff r.reason s.reason,
  str_eq_refl r.reason,
)

pub order_by_reason-stable :
    (t : String) (rows : List Row)
    → select (has_reason t) (order_by_reason rows) ≡ select (has_reason t) rows
unfolding order_by_reason
order_by_reason-stable t [] = refl
order_by_reason-stable t (r ∷ rows) =
    insert_by_reason-stable t r (order_by_reason rows)
    ∙ ap (λ l. if has_reason t r then r ∷ l else l) (order_by_reason-stable t rows)

pub take-IsOrdered : (n : ℕ) (rows : List Row) → IsOrdered rows → IsOrdered (take n rows)
take-IsOrdered zero rows o = tt
take-IsOrdered (suc n) [] o = tt
take-IsOrdered (suc n) (r ∷ rows) o = (All-take (Before r) n rows o.0, take-IsOrdered n rows o.1)

-- What a limit leaves out comes after all that it lets through.
pub take-Before-drop :
    (n : ℕ) (rows : List Row)
    → IsOrdered rows
    → All (λ a. All (Before a) (drop n rows)) (take n rows)
take-Before-drop zero rows o = tt
take-Before-drop (suc n) [] o = tt
take-Before-drop (suc n) (r ∷ rows) o =
    (All-drop (Before r) n rows o.0, take-Before-drop n rows o.1)
