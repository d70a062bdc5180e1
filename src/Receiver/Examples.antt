-- ===== src/Receiver/Examples.antt =====
-- The receiver's theorems on a caller that waits, an event, and two events that nobody waits for.
use mathlib.Core.Bool.{false≢true}
use podping_alpha.Prelude.{
  Perm, Bool, false, zero, suc, ◌++◌, sym, true, inr, arith, ℕ, ◌≡◌, ◌≢◌, ◌≤◌, refl, List, [], ◌∷◌,
  length,
}
use podping_alpha.Receiver.{
  Actor, Input, item, ask, event, received, lagged, failed, ended, new, run, on_item, remember,
  max_queue,
}
use podping_alpha.Receiver.Steps.{IsStep, items, askers, IsBalanced}
use podping_alpha.Receiver.Fifo.{got, lost, run-new-IsFifo}
use podping_alpha.Receiver.Hashes.{on_item-digests}

abbrev digest : ℕ → ℕ
digest n = n

abbrev inputs : List (Input ℕ)
inputs =
    ask 0 ∷ item (event (received 7)) ∷ item (event lagged) ∷ item (event (received 8)) ∷ ask 1 ∷ []

abbrev inputs_then_failed : List (Input ℕ)
inputs_then_failed = ask 0 ∷ ask 1 ∷ item failed ∷ ask 2 ∷ []

run_events : (run digest inputs new).sends ≡ (0, event (received 7)) ∷ (1, event lagged) ∷ []
unfolding run
run_events = refl

run_digests : (run digest inputs new).last_message_hashes ≡ 8 ∷ []
unfolding run
run_digests = refl

run_failed : (run digest inputs_then_failed new).sends ≡ (0, failed) ∷ (1, ended) ∷ []
unfolding run
run_failed = refl

-- The first caller has given up: its event is lost.
abbrev second_waits : ℕ → Bool
second_waits zero = false
second_waits (suc w) = true

run-new-IsFifo_example :
    IsStep (items inputs) (askers inputs) new (run digest inputs new)
    × ((run digest inputs new).running ≡ true
        → Perm
            ((got digest second_waits (run digest inputs new)
                ++ lost digest second_waits (run digest inputs new))
              ++ (run digest inputs new).msg_queue)
            (items inputs))
run-new-IsFifo_example = run-new-IsFifo digest second_waits inputs

abbrev waiting : Actor ℕ ℕ
waiting = record {
  last_message_hashes = [];
  msg_queue = [];
  waiters = 3 ∷ [];
  sends = [];
  running = true;
}

waiting-IsBalanced : IsBalanced waiting
waiting-IsBalanced = record {
  idle = inr refl;
  bounded = omega arith;
  recent = omega arith;
  answered = λ e. absurd (false≢true (sym e));
}

on_item-digests_example :
    (waiting.waiters ≢ [] → (on_item digest (event (received 7)) waiting).last_message_hashes ≡ [])
    × (waiting.waiters ≡ []
        → length waiting.msg_queue ≤ max_queue
        → (on_item digest (event (received 7)) waiting).last_message_hashes
          ≡ remember [] (digest 7))
on_item-digests_example = on_item-digests digest 7 waiting waiting-IsBalanced
