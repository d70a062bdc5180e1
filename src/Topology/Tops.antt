-- ===== src/Topology/Tops.antt =====
-- What `top_betweenness` of gossip-monitor/src/topology.rs selects, and what its sorting keeps.
use podping_alpha.Prelude.{
  ℕ, zero, suc, ◌≤◌, String, Bool, true, false, not, ◌&&◌, ◌||◌, ◌≡◌, refl, sym, ap, ◌∙◌, List, [],
  ◌∷◌, length, length-take, take, select, All, contains, if_elim, ◌==◌, has, arith, eq_iff,
}
use podping_alpha.Topology.Betweenness.{Floats}
use podping_alpha.Topology.Analysis.{place, sort, keys, higher, top_betweenness}

-- Some item has the text.
abbrev pub named {ℓ} : {A : Type ℓ} → (A → String) → List A → String → Bool
named name [] s = false
named name (x ∷ xs) s = (name x == s) || named name xs s

module _ {A : Type 0} (earlier : A → A → Bool) where
  All-place : (P : A → Type 0) (x : A) (ys : List A) → P x → All P ys → All P (place earlier x ys)
  unfolding place
  All-place P x [] h k = (h, tt)
  All-place P x (y ∷ ys) h k =
      if_elim (All P) (earlier y x) (y ∷ place earlier x ys) (x ∷ y ∷ ys)
        (k.0, All-place P x ys h k.1) (h, k)

  pub All-sort : (P : A → Type 0) (xs : List A) → All P xs → All P (sort earlier xs)
  unfolding sort
  All-sort P [] h = tt
  All-sort P (x ∷ xs) h = All-place P x (sort earlier xs) h.0 (All-sort P xs h.1)

  module _ (name : A → String) where
    named-place :
        (x : A) (ys : List A) (s : String)
        → named name (place earlier x ys) s ≡ ((name x == s) || named name ys s)
    unfolding place
    named-place x [] s = refl
    named-place x (y ∷ ys) s = ground (arith, named-place x ys s)

    pub named-sort : (xs : List A) (s : String) → named name (sort earlier xs) s ≡ named name xs s
    unfolding sort
    named-sort [] s = refl
    named-sort (x ∷ xs) s = ground (arith, named-place x (sort earlier xs) s, named-sort xs s)

-- The key of an entry.
abbrev pub key {ℓ} : {A : Type ℓ} → String × A → String
key entry = entry.0

pub named-has {ℓ} :
    {A : Type ℓ} (map : List (String × A)) (x : String) → named key map x ≡ has x map
named-has [] x = refl
named-has (entry ∷ map) x = ground (arith, named-has map x)

contains-keys {ℓ} :
    {A : Type ℓ} (map : List (String × A)) (x : String) → contains (keys map) x ≡ has x map
contains-keys [] x = refl
contains-keys (entry ∷ map) x = ground (arith, contains-keys map x)

length-keys {ℓ} : {A : Type ℓ} (map : List (String × A)) → length (keys map) ≡ length map
length-keys [] = refl
length-keys (entry ∷ map) = ap suc (length-keys map)

has-take {ℓ} :
    {A : Type ℓ} (n : ℕ) (map : List (String × A)) (x : String)
    → has x (take n map) ≡ true
    → has x map ≡ true
has-take zero map x h = absurd (ground (arith, h))
has-take (suc n) [] x h = h
has-take (suc n) (entry ∷ map) x h = ground (arith, h, has-take n map x)

pub has-select-not {ℓ} :
    {A : Type ℓ} (exclude : List String) (map : List (String × A)) (x : String)
    → has x (select (λ (c : String × A). not (contains exclude c.0)) map)
      ≡ (has x map && not (contains exclude x))
has-select-not exclude [] x = ground arith
has-select-not exclude (entry ∷ map) x =
    ground (arith, has-select-not exclude map x, eq_iff entry.0 x)

pub has-select {ℓ} :
    {A : Type ℓ} (include : List String) (map : List (String × A)) (x : String)
    → has x (select (λ (c : String × A). contains include c.0) map)
      ≡ (has x map && contains include x)
has-select include [] x = ground arith
has-select include (entry ∷ map) x = ground (arith, has-select include map x, eq_iff entry.0 x)

module _ (e : Floats) (scores : List (String × e.F64)) (exclude : List String) (count : ℕ) where
  pub length-top_betweenness : length (top_betweenness e scores exclude count) ≤ count
  unfolding top_betweenness
  length-top_betweenness =
      let left =
        sort (higher e) (select (λ (c : String × e.F64). not (contains exclude c.0)) scores) in
      omega (arith, length-keys (take count left), length-take count left)

  -- What is selected has a score and is not excluded.
  pub contains-top_betweenness :
      (x : String)
      → contains (top_betweenness e scores exclude count) x ≡ true
      → (has x scores ≡ true) × (contains exclude x ≡ false)
  unfolding top_betweenness
  contains-top_betweenness x h =
      let kept = select (λ (c : String × e.F64). not (contains exclude c.0)) scores in
      let left = sort (higher e) kept in
      let taken = has-take count left x (sym (contains-keys (take count left) x) ∙ h) in
      ground (
        arith,
        taken,
        named-has left x,
        named-has kept x,
        named-sort (higher e) key kept x,
        has-select-not exclude scores x,
      )
