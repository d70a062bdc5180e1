-- ===== src/Queue/Select.antt =====
-- What `get_pings_from_queue` of podping/dbif/src/lib.rs hands to the sender.
use podping_alpha.Prelude.{
  ℕ, String, ◌≡◌, refl, ap, ◌∙◌, Bool, List, [], ◌∷◌, ◌++◌, Perm, min, length, take, drop, select,
  All, All-select, length-take, take-append-drop, All-take, sym, subst, ok, Returns, if_elim, ◌&&◌,
  done, true, err,
}
use podping_alpha.Ping.{
  Ping, reason_name, medium_name, reason_from_str-reason_name, medium_from_str-medium_name,
}
use podping_alpha.Queue.{
  Engine, sound, read_row, read_rows, order_by_reason, is_due, get_pings_from_queue,
  ping_batch_size,
}
use podping_alpha.Queue.Rows.{Row}
use podping_alpha.Queue.Invariant.{IsNamed, IsValid}
use podping_alpha.Queue.Order.{
  Before, IsOrdered, has_reason, order_by_reason-perm, All-order_by_reason, length-order_by_reason,
  order_by_reason-IsOrdered, order_by_reason-stable, take-IsOrdered, take-Before-drop,
}

-- The ping carries what the row says.
abbrev pub Reads : List Ping → List Row → Type 0
Reads [] [] = Unit
Reads [] (r ∷ rows) = ⊥
Reads (p ∷ pings) [] = ⊥
Reads (p ∷ pings) (r ∷ rows) =
    ((p.url ≡ r.url)
      × (p.time ≡ r.createdon)
      × (reason_name p.reason ≡ r.reason)
      × (medium_name p.medium ≡ r.medium))
    × Reads pings rows

pub ping_of : (r : Row) → IsNamed r → Ping
ping_of r n = record { url = r.url; time = r.createdon; reason = n.reason; medium = n.medium }

ping_of-Reads :
    (r : Row) (n : IsNamed r)
    → ((ping_of r n).url ≡ r.url)
      × ((ping_of r n).time ≡ r.createdon)
      × (reason_name (ping_of r n).reason ≡ r.reason)
      × (medium_name (ping_of r n).medium ≡ r.medium)
unfolding ping_of
ping_of-Reads r n = (refl, refl, sym n.is_reason, sym n.is_medium)

read_row-IsNamed : (r : Row) (n : IsNamed r) → read_row r ≡ done (ping_of r n)
unfolding read_row ping_of
read_row-IsNamed r n = rw (
  n.is_reason,
  n.is_medium,
  reason_from_str-reason_name n.reason,
  medium_from_str-medium_name n.medium,
)

read_rows-total :
    (rows : List Row)
    → All IsNamed rows
    → (pings : List Ping) × (read_rows rows ≡ done pings) × Reads pings rows
unfolding read_rows
read_rows-total [] h = ([], refl, tt)
read_rows-total (r ∷ rows) h =
    let (pings, e, reads) = read_rows-total rows h.1 in
    (ping_of r h.0 ∷ pings, rw (read_row-IsNamed r h.0, e), (ping_of-Reads r h.0, reads))

-- The result of a query: the rows that it reads and those that it leaves behind the limit.
pub record Picks (now : ℕ) (with_in_flight : Bool) (queue : List Row) : Type 0 where
  pub pings : List Ping
  pub picked : List Row
  pub rest : List Row
  pub answers : get_pings_from_queue sound now with_in_flight queue ≡ done (ok pings)
  pub reads : Reads pings picked
  pub splits : Perm (picked ++ rest) (select (is_due with_in_flight now) queue)
  pub batch :
      length picked ≡ min ping_batch_size (length (select (is_due with_in_flight now) queue))
  pub ordered : IsOrdered picked
  pub first : All (λ a. All (Before a) rest) picked
  pub stable :
      (t : String)
      → select (has_reason t) (picked ++ rest)
        ≡ select (has_reason t) (select (is_due with_in_flight now) queue)

-- On a valid queue, with an engine that opens the file, prepares the query and finds every row, the
-- query does not panic. It returns, in the order of reason and then of age, the due rows, 1000 at
-- most; no row that it leaves out comes before one that it returns, and the rows of one reason keep
-- the order in which they came.
pub get_pings-Picks :
    (now : ℕ) (with_in_flight : Bool) (queue : List Row)
    → IsValid queue
    → Picks now with_in_flight queue
unfolding get_pings_from_queue
get_pings-Picks now with_in_flight queue v = record {
  pings = read.0;
  picked = take ping_batch_size sorted;
  rest = drop ping_batch_size sorted;
  answers = rw read.1;
  reads = read.2;
  splits = subst (λ l. Perm l due) (sym whole) (order_by_reason-perm due);
  batch =
      length-take ping_batch_size sorted ∙ ap (min ping_batch_size) (length-order_by_reason due);
  ordered = take-IsOrdered ping_batch_size sorted in_order;
  first = take-Before-drop ping_batch_size sorted in_order;
  stable = λ t. ap (select (has_reason t)) whole ∙ order_by_reason-stable t due;
}
  where
    due : List Row
    due = select (is_due with_in_flight now) queue

    sorted : List Row
    sorted = order_by_reason due

    named : All IsNamed sorted
    named =
        All-order_by_reason IsNamed due
          (All-select IsNamed (is_due with_in_flight now) queue v.named)

    in_order : IsOrdered sorted
    in_order =
        order_by_reason-IsOrdered due (All-select IsNamed (is_due with_in_flight now) queue v.named)

    whole : take ping_batch_size sorted ++ drop ping_batch_size sorted ≡ sorted
    whole = take-append-drop ping_batch_size sorted

    read :
        (pings : List Ping) × (read_rows (take ping_batch_size sorted) ≡ done pings)
        × Reads pings (take ping_batch_size sorted)
    read =
        read_rows-total (take ping_batch_size sorted)
          (All-take IsNamed ping_batch_size sorted named)

-- The query of a valid queue does not panic unless a step to a row fails.
pub get_pings-total :
    (e : Engine) (now : ℕ) (with_in_flight : Bool) (queue : List Row)
    → IsValid queue
    → e.steps ≡ true
    → Returns (λ _. Unit) (get_pings_from_queue e now with_in_flight queue)
unfolding get_pings_from_queue
get_pings-total e now with_in_flight queue v steps =
    let picks = get_pings-Picks now with_in_flight queue v in
    if_elim (Returns (λ _. Unit)) (e.opens && e.runs) _ (done err)
      (rw steps (subst (Returns (λ _. Unit)) (sym picks.answers) tt)) tt
