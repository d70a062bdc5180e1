-- ===== src/Topology/Search.antt =====
-- What the breadth-first search of gossip-monitor/src/topology.rs returns.
use podping_alpha.Prelude.{
  ℕ, suc, ◌+◌, ◌≤◌, String, ◌≡◌, ap, subst, List, [], ◌∷◌, ◌++◌, length, contains, contains-append,
  length-append, IsDistinct, IsDistinct-snoc, if◌then◌else◌, if_cases, ◌==◌, true, false, arith,
  eq_iff, str_eq_refl, ◌∙◌, append_assoc,
}
use podping_alpha.Topology.{scan}

-- How many entries of a list are not marked.
abbrev pub unmarked : List String → List String → ℕ
unmarked [] marked = 0
unmarked (x ∷ xs) marked =
    let rest = unmarked xs marked in if contains marked x then rest else suc rest

unmarked-snoc-le :
    (xs marked : List String) (y : String) → unmarked xs (marked ++ y ∷ []) ≤ unmarked xs marked
unmarked-snoc-le [] marked y = omega arith
unmarked-snoc-le (x ∷ xs) marked y =
    ground (arith, unmarked-snoc-le xs marked y, contains-append marked (y ∷ []) x)

unmarked-snoc-lt :
    (xs marked : List String) (y : String)
    → contains xs y ≡ true
    → contains marked y ≡ false
    → suc (unmarked xs (marked ++ y ∷ [])) ≤ unmarked xs marked
unmarked-snoc-lt [] marked y h f = absurd (ground (arith, h))
unmarked-snoc-lt (x ∷ xs) marked y h f = ground (
  arith,
  contains-append marked (y ∷ []) x,
  eq_iff x y,
  unmarked-snoc-le xs marked y,
  unmarked-snoc-lt xs marked y,
)

-- A predicate of the items of a list, at its first item and at the others.
pub contains-cons_elim :
    (P : String → Type 0) (y : String) (ys : List String)
    → P y
    → ((x : String) → contains ys x ≡ true → P x)
    → (x : String) → contains (y ∷ ys) x ≡ true
    → P x
contains-cons_elim P y ys py rest x h =
    if_cases (λ t. t ≡ true → P x) (y == x) true (contains ys x)
      (λ e _. subst P ((eq_iff y x).0 e) py) (λ _ k. rest x k) (ground (arith, h))

pub contains-snoc_elim :
    (P : String → Type 0) (ys : List String) (y : String)
    → ((x : String) → contains ys x ≡ true → P x)
    → P y
    → (x : String) → contains (ys ++ y ∷ []) x ≡ true
    → P x
contains-snoc_elim P ys y rest py x h =
    if_cases (λ t. t ≡ true → P x) (contains ys x) true (y == x) (λ k _. rest x k)
      (λ _ e. subst P ((eq_iff y x).0 e) py) (ground (arith, contains-append ys (y ∷ []) x, h))

-- What the loop over `neighbors` leaves, for nodes that satisfy `P`, when the marked nodes are
-- `before` and then the queue.
pub record IsScanned (P : String → Type 0) (entries before neighbors visited queue : List String)
    (found : List String × List String) : Type 0 where
  pub joined : found.0 ≡ before ++ found.1
  pub distinct : IsDistinct found.0
  pub sound : (x : String) → contains found.1 x ≡ true → P x
  pub grown : (x : String) → contains visited x ≡ true → contains found.0 x ≡ true
  pub covers : (x : String) → contains neighbors x ≡ true → contains found.0 x ≡ true
  pub bounded : unmarked entries found.0 + length found.1 ≤ unmarked entries visited + length queue

module _ (P : String → Type 0) (entries before : List String) where
  pub scan-IsScanned :
      (neighbors visited queue : List String)
      → visited ≡ before ++ queue
      → IsDistinct visited
      → ((x : String) → contains queue x ≡ true → P x)
      → ((x : String) → contains neighbors x ≡ true → contains visited x ≡ false → P x)
      → ((x : String) → contains neighbors x ≡ true → contains entries x ≡ true)
      → IsScanned P entries before neighbors visited queue (scan neighbors visited queue)
  unfolding scan
  scan-IsScanned [] visited queue j d s n i = record {
    joined = j;
    distinct = d;
    sound = s;
    grown = λ x h. h;
    covers = λ x h. absurd (ground (arith, h));
    bounded = omega arith;
  }
  scan-IsScanned (y ∷ ys) visited queue j d s n i =
      if_cases (IsScanned P entries before (y ∷ ys) visited queue) (contains visited y)
        (scan ys visited queue) (scan ys (visited ++ y ∷ []) (queue ++ y ∷ []))
        (λ old.
          let r =
            scan-IsScanned ys visited queue j d s (λ x h. n x (ground (arith, h)))
              (λ x h. i x (ground (arith, h))) in
          record {
            joined = r.joined;
            distinct = r.distinct;
            sound = r.sound;
            grown = r.grown;
            covers =
                contains-cons_elim (λ x. contains (scan ys visited queue).0 x ≡ true) y ys
                  (r.grown y old) r.covers;
            bounded = r.bounded;
          })
        (λ new.
          let r =
            scan-IsScanned ys (visited ++ y ∷ []) (queue ++ y ∷ [])
              (ap (λ v. v ++ y ∷ []) j ∙ append_assoc before queue (y ∷ []))
              (IsDistinct-snoc visited y d new)
              (contains-snoc_elim P queue y s (n y (ground (arith, str_eq_refl y)) new))
              (λ x h f.
                n x (ground (arith, h)) (ground (arith, f, contains-append visited (y ∷ []) x)))
              (λ x h. i x (ground (arith, h))) in
          record {
            joined = r.joined;
            distinct = r.distinct;
            sound = r.sound;
            grown = λ x h. r.grown x (ground (arith, h, contains-append visited (y ∷ []) x));
            covers =
                contains-cons_elim
                  (λ x. contains (scan ys (visited ++ y ∷ []) (queue ++ y ∷ [])).0 x ≡ true) y ys
                  (r.grown y (ground (arith, contains-append visited (y ∷ []) y, str_eq_refl y)))
                  r.covers;
            bounded = omega (
              arith,
              r.bounded,
              length-append queue (y ∷ []),
              unmarked-snoc-lt entries visited y (i y (ground (arith, str_eq_refl y))) new,
            );
          })
