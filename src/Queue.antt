-- ===== src/Queue.antt =====
-- The ping queue of podping/dbif/src/lib.rs: the table `queue` as its rows in the order of their
-- rowids, and each function as its SQL text acts on them. What the SQLite engine answers (the file
-- opens, the statement runs) is an argument.
pub mod Rows
pub mod Invariant
pub mod Order
pub mod Select
pub mod Updates
pub mod Reset
pub mod Examples
use Prim.Native.String.{compare}
use Prim.Native.Nat.{Ordering}
use podping_alpha.Prelude.{
  ℕ, ◌+◌, String, Bool, true, false, not, ◌&&◌, Option, none, some, List, [], ◌∷◌, ◌++◌, take,
  select, Result, ok, err, Outcome, done, panic, ◌>>=◌, ltb, ◌==◌, if◌then◌else◌, zero, suc,
}
use podping_alpha.Ping.{
  Ping, Reason, update, live, live_end, reason_name, medium_name, reason_from_str, medium_from_str,
}
use Rows.{Row, url_in, set_where, delete_where}

-- What the engine answers to one connection: whether the file opens, whether the statement is
-- prepared and, if it writes, runs (not when the file is busy), and whether each step of a query to
-- its next row succeeds.
pub record Engine : Type 0 where
  pub opens : Bool
  pub runs : Bool
  pub steps : Bool

abbrev pub sound : Engine
sound = record { opens = true; runs = true; steps = true }

abbrev pub ping_batch_size : ℕ
ping_batch_size = 1000

-- A column `reason` or `medium` that is read back by `from_str(..).unwrap()`.
abbrev unwrap : {A : Type 0} → Option A → Outcome A
unwrap none = panic
unwrap (some a) = done a

unfoldable pub read_row : Row → Outcome Ping
read_row r = do
  reason ← unwrap (reason_from_str r.reason)
  medium ← unwrap (medium_from_str r.medium)
  done (record { url = r.url; time = r.createdon; reason = reason; medium = medium })

unfoldable pub read_rows : List Row → Outcome (List Ping)
unfolding read_row
read_rows [] = done []
read_rows (r ∷ rs) = do ping ← read_row r; rest ← read_rows rs; done (ping ∷ rest)

-- `ORDER BY reason ASC, rowid ASC`: texts compare by their code points, and the insertion keeps
-- the order of rows with the same reason.
unfoldable pub text_le : String → String → Bool
text_le s t = elim (compare s t) [ Ordering.gt ↦ false | _ ↦ true ]

unfoldable pub insert_by_reason : Row → List Row → List Row
insert_by_reason r [] = r ∷ []
insert_by_reason r (s ∷ rows) =
    if text_le r.reason s.reason then r ∷ s ∷ rows else s ∷ insert_by_reason r rows

unfoldable pub order_by_reason : List Row → List Row
unfolding insert_by_reason text_le
order_by_reason [] = []
order_by_reason (r ∷ rows) = insert_by_reason r (order_by_reason rows)

-- `WHERE inflight = 0 (or >= 0) AND createdon < (STRFTIME('%s') - 15)`
abbrev pub is_due : Bool → ℕ → Row → Bool
is_due with_in_flight now r =
    (if with_in_flight then true else not r.inflight) && ltb (r.createdon + 15) now

-- A step that fails is unwrapped.
unfoldable pub get_pings_from_queue : Engine → ℕ → Bool → List Row → Outcome (Result (List Ping))
unfolding read_rows order_by_reason
get_pings_from_queue e now with_in_flight queue =
    if e.opens && e.runs
    then (if e.steps
        then (do
          pings ←
              read_rows
                (take ping_batch_size (order_by_reason (select (is_due with_in_flight now) queue)))
          done (ok pings))
        else panic)
    else done err

-- `UPDATE queue SET inflight = 0, createdon, reason, medium WHERE url = ?`
unfoldable pub update_ping_in_queue : Engine → Ping → List Row → Result Bool × List Row
update_ping_in_queue e ping queue =
    if e.opens && e.runs
    then (
      ok true,
      set_where ping.url
          (λ r. record r {
            createdon = ping.time;
            reason = reason_name ping.reason;
            medium = medium_name ping.medium;
            inflight = false;
          })
          queue,
    )
    else (err, queue)

abbrev pub row_of : Ping → Row
row_of ping = record {
  url = ping.url;
  createdon = ping.time;
  reason = reason_name ping.reason;
  medium = medium_name ping.medium;
  inflight = false;
}

-- The `INSERT` fails on a duplicate key too. The second engine is that of the update's connection.
unfoldable pub add_ping_to_queue : Engine → Engine → Ping → List Row → Result Bool × List Row
unfolding update_ping_in_queue
add_ping_to_queue e again ping queue =
    if e.opens
    then (if e.runs && not (url_in ping.url queue)
        then (ok true, queue ++ row_of ping ∷ [])
        else elim ping.reason [
          | live ↦ update_ping_in_queue again ping queue
          | live_end ↦ update_ping_in_queue again ping queue
          | update ↦ (err, queue)
        ])
    else (err, queue)

-- `UPDATE queue SET inflight = 1 WHERE url = ?`
unfoldable pub set_ping_as_inflight : Engine → Ping → List Row → Result Bool × List Row
set_ping_as_inflight e ping queue =
    if e.opens && e.runs
    then (ok true, set_where ping.url (λ r. record r { inflight = true }) queue)
    else (err, queue)

-- `WHERE inflight = 1 AND createdon < (STRFTIME('%s') - 180)`
abbrev pub is_stuck : ℕ → Row → Bool
is_stuck now r = r.inflight && ltb (r.createdon + 180) now

-- `UPDATE .. WHERE .. LIMIT n`: the scan stops once `n` rows are updated.
unfoldable pub reset_scan : ℕ → ℕ → List Row → List Row
reset_scan now limit [] = []
reset_scan now zero (r ∷ rows) = r ∷ rows
reset_scan now (suc limit) (r ∷ rows) =
    let hit = record r { inflight = false; createdon = now } ∷ reset_scan now limit rows in
    let miss = r ∷ reset_scan now (suc limit) rows in if is_stuck now r then hit else miss

unfoldable pub reset_pings_in_flight : Engine → ℕ → List Row → Result Bool × List Row
unfolding reset_scan
reset_pings_in_flight e now queue =
    if e.opens && e.runs then (ok true, reset_scan now 25 queue) else (err, queue)

-- `DELETE FROM queue WHERE url = ?1`
unfoldable pub delete_ping_from_queue : Engine → String → List Row → Result Bool × List Row
delete_ping_from_queue e url queue =
    if e.opens && e.runs then (ok true, delete_where url queue) else (err, queue)
