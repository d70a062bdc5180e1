-- ===== src/Swarm/Log.antt =====
-- The log of suggestions of gossip-monitor/src/swarm.rs.
use podping_alpha.Prelude.{
  ℕ, suc, ◌-◌, ◌≤◌, String, ◌≡◌, refl, sym, ap, ap₂, ◌∙◌, Option, List, [], ◌∷◌, ◌++◌, length, drop,
  length-append, append_assoc, ltb, if◌then◌else◌, if_cases, arith, min, drop_left, append-nil,
  subst, ltb→lt,
}

abbrev pub max_suggestion_log : ℕ
max_suggestion_log = 200

pub record SuggestionLogEntry : Type 0 where
  pub timestamp : ℕ
  pub target_node_id : String
  pub target_name : Option String
  pub suggested_peers : List String
  pub reason : String

-- `SuggestionLog::push`; a new log is `[]`.
unfoldable pub push : SuggestionLogEntry → List SuggestionLogEntry → List SuggestionLogEntry
push entry entries =
    let pushed = entries ++ entry ∷ [] in
    if ltb max_suggestion_log (length pushed) then drop 1 pushed else pushed

unfoldable pub push_all :
    List SuggestionLogEntry → List SuggestionLogEntry → List SuggestionLogEntry
unfolding push
push_all [] entries = entries
push_all (entry ∷ more) entries = push_all more (push entry entries)

-- The log as a reader may think of it: everything that was pushed, without what is too old.
abbrev pub latest : List SuggestionLogEntry → List SuggestionLogEntry
latest entries = drop (length entries - max_suggestion_log) entries

-- The log is the end of what was pushed, up to its cap.
IsEnd : List SuggestionLogEntry → List SuggestionLogEntry → Type 0
IsEnd all entries =
    (older : List SuggestionLogEntry) × ((older ++ entries ≡ all)
      × (length entries ≡ min max_suggestion_log (length all)))

push-IsEnd :
    (entry : SuggestionLogEntry) (all entries : List SuggestionLogEntry)
    → IsEnd all entries
    → IsEnd (all ++ entry ∷ []) (push entry entries)
unfolding push IsEnd
push-IsEnd entry all entries i =
    let pushed = entries ++ entry ∷ [] in
    let whole : i.0 ++ pushed ≡ all ++ entry ∷ [] =
      sym (append_assoc i.0 entries (entry ∷ [])) ∙ ap (λ v. v ++ entry ∷ []) i.1.0 in
    let one = length-append entries (entry ∷ []) in
    let grown = length-append all (entry ∷ []) in
    if_cases (IsEnd (all ++ entry ∷ [])) (ltb max_suggestion_log (length pushed)) (drop 1 pushed)
      pushed
      (λ t.
        without_first i.0 all entry pushed whole
          (omega (arith, one, grown, i.1.1, ltb→lt max_suggestion_log (length pushed) t)))
      (λ f. (i.0, (whole, ground (arith, f, one, grown, i.1.1))))
  where
    without_first :
        (older all : List SuggestionLogEntry) (entry : SuggestionLogEntry)
        (pushed : List SuggestionLogEntry)
        → older ++ pushed ≡ all ++ entry ∷ []
        → (length pushed ≡ suc max_suggestion_log)
          × (suc max_suggestion_log ≤ length (all ++ entry ∷ []))
        → IsEnd (all ++ entry ∷ []) (drop 1 pushed)
    without_first older all entry [] q l = absurd (omega (arith, l))
    without_first older all entry (x ∷ rest) q l =
        (older ++ x ∷ [], (append_assoc older (x ∷ []) rest ∙ q, omega (arith, l)))

push_all-IsEnd :
    (more all entries : List SuggestionLogEntry)
    → IsEnd all entries
    → IsEnd (all ++ more) (push_all more entries)
unfolding push_all
push_all-IsEnd [] all entries i = subst (λ v. IsEnd v entries) (sym (append-nil all)) i
push_all-IsEnd (entry ∷ more) all entries i =
    subst (λ v. IsEnd v (push_all more (push entry entries))) (append_assoc all (entry ∷ []) more)
      (push_all-IsEnd more (all ++ entry ∷ []) (push entry entries)
        (push-IsEnd entry all entries i))

-- The log that removes its first entry when it is too long implements the log that keeps everything
-- and shows the last 200: after any pushes, both show the same.
pub push_all-latest : (pushed : List SuggestionLogEntry) → push_all pushed [] ≡ latest pushed
unfolding IsEnd
push_all-latest pushed =
    let i = push_all-IsEnd pushed [] [] ([], (refl, omega arith)) in
    let count : length i.0 ≡ length pushed - max_suggestion_log =
      omega (arith, i.1.1, length-append i.0 (push_all pushed []), ap length i.1.0) in
    sym (drop_left i.0 (push_all pushed [])) ∙ ap₂ (λ n v. drop n v) count i.1.0
