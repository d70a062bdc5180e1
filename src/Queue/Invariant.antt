-- ===== src/Queue/Invariant.antt =====
-- The queue of podping/dbif/src/lib.rs after any sequence of calls.
use podping_alpha.Prelude.{
  ℕ, zero, suc, String, ◌≡◌, refl, Bool, true, false, not, ◌&&◌, List, [], ◌∷◌, ◌++◌, All,
  All-append, Result, ok, arith, ◌==◌, if◌then◌else◌, err, if_elim, eq_iff,
}
use podping_alpha.Ping.{Ping, Reason, Medium, update, live, live_end, reason_name, medium_name}
use podping_alpha.Queue.{
  Engine, row_of, update_ping_in_queue, add_ping_to_queue, set_ping_as_inflight, is_stuck,
  reset_scan, reset_pings_in_flight, delete_ping_from_queue,
}
use podping_alpha.Queue.Rows.{
  Row, url_in, set_where, delete_where, HasKeys, url_in-append, set_where-HasKeys,
  delete_where-HasKeys,
}

-- The texts of the row are names of a reason and of a medium.
pub record IsNamed (r : Row) : Type 0 where
  pub reason : Reason
  pub medium : Medium
  pub is_reason : r.reason ≡ reason_name reason
  pub is_medium : r.medium ≡ medium_name medium

pub record IsValid (queue : List Row) : Type 0 where
  pub keys : HasKeys queue
  pub named : All IsNamed queue

-- One call of the queue, with what the engine answers to it.
pub data Call : Type 0 where
  add : Engine → Engine → Ping → Call
  mark : Engine → Ping → Call
  reset : Engine → ℕ → Call
  delete : Engine → String → Call

unfoldable pub step : List Row → Call → List Row
step queue (add e again ping) = (add_ping_to_queue e again ping queue).1
step queue (mark e ping) = (set_ping_as_inflight e ping queue).1
step queue (reset e now) = (reset_pings_in_flight e now queue).1
step queue (delete e url) = (delete_ping_from_queue e url queue).1

unfoldable pub run : List Row → List Call → List Row
run queue [] = queue
run queue (c ∷ cs) = run (step queue c) cs

row_of-IsNamed : (p : Ping) → IsNamed (row_of p)
row_of-IsNamed p = record {
  reason = p.reason;
  medium = p.medium;
  is_reason = refl;
  is_medium = refl;
}

set_where-IsNamed :
    (u : String) (f : Row → Row)
    → ((r : Row) → IsNamed r → IsNamed (f r))
    → (rows : List Row) → All IsNamed rows
    → All IsNamed (set_where u f rows)
unfolding set_where
set_where-IsNamed u f keep [] h = tt
set_where-IsNamed u f keep (r ∷ rows) h =
    (if_elim IsNamed (r.url == u) (f r) r (keep r h.0) h.0, set_where-IsNamed u f keep rows h.1)

delete_where-IsNamed :
    (u : String) (rows : List Row) → All IsNamed rows → All IsNamed (delete_where u rows)
unfolding delete_where
delete_where-IsNamed u [] h = tt
delete_where-IsNamed u (r ∷ rows) h =
    let rest = delete_where-IsNamed u rows h.1 in
    if_elim (All IsNamed) (r.url == u) (delete_where u rows) (r ∷ delete_where u rows) rest
      (h.0, rest)

HasKeys-append :
    (rows : List Row) (r : Row)
    → HasKeys rows
    → url_in r.url rows ≡ false
    → HasKeys (rows ++ r ∷ [])
HasKeys-append [] r h new = (refl, tt)
HasKeys-append (x ∷ rows) r h new = ground (
  arith,
  url_in-append x.url rows (r ∷ []),
  HasKeys-append rows r h.1,
  eq_iff x.url r.url,
  eq_iff r.url x.url,
)

set_where-IsValid :
    (u : String) (f : Row → Row)
    → ((r : Row) → (f r).url ≡ r.url)
    → ((r : Row) → IsNamed r → IsNamed (f r))
    → {rows : List Row} → IsValid rows
    → IsValid (set_where u f rows)
set_where-IsValid u f same keep {rows} v = record {
  keys = set_where-HasKeys f same u rows v.keys;
  named = set_where-IsNamed u f keep rows v.named;
}

after-if :
    (b : Bool) {new old : List Row} (r : Result Bool)
    → IsValid new
    → IsValid old
    → IsValid (if◌then◌else◌ {A = Result Bool × List Row} b (r, new) (err, old)).1
after-if b {new} {old} r =
    if_elim {A = Result Bool × List Row} (λ s. IsValid s.1) b (r, new) (err, old)

update-IsValid :
    (e : Engine) (ping : Ping) {queue : List Row}
    → IsValid queue
    → IsValid (update_ping_in_queue e ping queue).1
unfolding update_ping_in_queue
update-IsValid e ping v =
    after-if (e.opens && e.runs) (ok true)
      (set_where-IsValid ping.url _ (λ r. refl)
        (λ r h. record {
          reason = ping.reason;
          medium = ping.medium;
          is_reason = refl;
          is_medium = refl;
        })
        v)
      v

-- What `add_ping_to_queue` leaves: the queue as it was, one more row with a new key, or an update.
pub add_cases {κ} :
    (P : List Row → Type κ) (e again : Engine) (ping : Ping) (queue : List Row)
    → P queue
    → (url_in ping.url queue ≡ false → P (queue ++ row_of ping ∷ []))
    → P (update_ping_in_queue again ping queue).1
    → P (add_ping_to_queue e again ping queue).1
unfolding add_ping_to_queue
add_cases P e again ping queue same new old =
    go e.opens e.runs (url_in ping.url queue) refl ping.reason
  where
    answer : Bool → Bool → Bool → Reason → Result Bool × List Row
    answer opens runs there reason =
        if opens
        then (if runs && not there then (ok true, queue ++ row_of ping ∷ []) else elim reason [
          | live ↦ update_ping_in_queue again ping queue
          | live_end ↦ update_ping_in_queue again ping queue
          | update ↦ (err, queue)
        ])
        else (err, queue)

    go :
        (opens runs there : Bool)
        → url_in ping.url queue ≡ there
        → (reason : Reason) → P (answer opens runs there reason).1
    go false runs there h reason = same
    go true true false h reason = new h
    go true true true h live = old
    go true true true h live_end = old
    go true true true h update = same
    go true false there h live = old
    go true false there h live_end = old
    go true false there h update = same

add-IsValid :
    (e again : Engine) (ping : Ping) {queue : List Row}
    → IsValid queue
    → IsValid (add_ping_to_queue e again ping queue).1
add-IsValid e again ping {queue} v =
    add_cases IsValid e again ping queue v
      (λ new. record {
        keys = HasKeys-append queue (row_of ping) v.keys new;
        named = All-append IsNamed queue _ v.named (row_of-IsNamed ping, tt);
      })
      (update-IsValid again ping v)

pub reset_scan-url_in :
    (now limit : ℕ) (u : String) (rows : List Row)
    → url_in u (reset_scan now limit rows) ≡ url_in u rows
unfolding reset_scan
reset_scan-url_in now limit u [] = refl
reset_scan-url_in now zero u (r ∷ rows) = refl
reset_scan-url_in now (suc limit) u (r ∷ rows) =
    ground (arith, reset_scan-url_in now limit u rows, reset_scan-url_in now (suc limit) u rows)

reset_scan-keys :
    (now limit : ℕ) (rows : List Row) → HasKeys rows → HasKeys (reset_scan now limit rows)
unfolding reset_scan
reset_scan-keys now limit [] h = tt
reset_scan-keys now zero (r ∷ rows) h = h
reset_scan-keys now (suc limit) (r ∷ rows) h = ground (
  arith,
  reset_scan-url_in now limit r.url rows,
  reset_scan-url_in now (suc limit) r.url rows,
  reset_scan-keys now limit rows h.1,
  reset_scan-keys now (suc limit) rows h.1,
)

reset_scan-IsNamed :
    (now limit : ℕ) (rows : List Row) → All IsNamed rows → All IsNamed (reset_scan now limit rows)
unfolding reset_scan
reset_scan-IsNamed now limit [] h = tt
reset_scan-IsNamed now zero (r ∷ rows) h = h
reset_scan-IsNamed now (suc limit) (r ∷ rows) h =
    let hit = reset_scan-IsNamed now limit rows h.1 in
    let miss = reset_scan-IsNamed now (suc limit) rows h.1 in
    if_elim (All IsNamed) (is_stuck now r) _ _
      (
        record {
          reason = h.0.reason;
          medium = h.0.medium;
          is_reason = h.0.is_reason;
          is_medium = h.0.is_medium;
        },
        hit,
      )
      (h.0, miss)

-- Every call, whatever the engine answers, keeps one row to a key, and texts that read back.
pub step-IsValid : (queue : List Row) (c : Call) → IsValid queue → IsValid (step queue c)
unfolding step set_ping_as_inflight reset_pings_in_flight delete_ping_from_queue
step-IsValid queue (add e again ping) v = add-IsValid e again ping v
step-IsValid queue (mark e ping) v =
    after-if (e.opens && e.runs) (ok true)
      (set_where-IsValid ping.url _ (λ r. refl)
        (λ r h. record {
          reason = h.reason;
          medium = h.medium;
          is_reason = h.is_reason;
          is_medium = h.is_medium;
        })
        v)
      v
step-IsValid queue (reset e now) v =
    after-if (e.opens && e.runs) (ok true)
      (record {
        keys = reset_scan-keys now 25 queue v.keys;
        named = reset_scan-IsNamed now 25 queue v.named;
      })
      v
step-IsValid queue (delete e url) v =
    after-if (e.opens && e.runs) (ok true)
      (record {
        keys = delete_where-HasKeys url queue v.keys;
        named = delete_where-IsNamed url queue v.named;
      })
      v

run-IsValid : (queue : List Row) (cs : List Call) → IsValid queue → IsValid (run queue cs)
unfolding run
run-IsValid queue [] v = v
run-IsValid queue (c ∷ cs) v = run-IsValid (step queue c) cs (step-IsValid queue c v)

pub IsValid-nil : IsValid []
IsValid-nil = record { keys = tt; named = tt }

-- From the empty table, whatever the calls and the engine's answers, the queue has one row to a
-- URL, and each row's texts are names of a reason and of a medium.
pub run-nil-IsValid : (cs : List Call) → IsValid (run [] cs)
run-nil-IsValid cs = run-IsValid [] cs IsValid-nil
