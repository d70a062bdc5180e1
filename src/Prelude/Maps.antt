-- ===== src/Prelude/Maps.antt =====
-- Maps from texts, as the lists of their entries, the first one of a key being the one that counts.
use mathlib.Core.Path.{◌≡◌, refl, sym, subst}
use mathlib.Core.Bool.{Bool, true, false, ◌||◌}
use mathlib.Core.Option.{Option, none, some}
use mathlib.Core.List.{List, [], ◌∷◌}
use Prim.Native.String.{String}
use native.Mathlib.Omega.{arith}
use text.Mathlib.Text.{◌==◌}
use text.Mathlib.TextEquality.{eq_iff}
use podping_alpha.Prelude.Tests.{if◌then◌else◌, if_cases}
use podping_alpha.Prelude.Outcomes.{Outcome, done, panic, Returns}

module _ {ℓ} {A : Type ℓ} where
  unfoldable pub get : String → List (String × A) → Option A
  get k [] = none
  get k (e ∷ map) = let rest = get k map in if e.0 == k then some e.1 else rest

  -- `map.insert(key, value)`
  unfoldable pub put : String → A → List (String × A) → List (String × A)
  put k a [] = (k, a) ∷ []
  put k a (e ∷ map) = let rest = put k a map in if e.0 == k then (e.0, a) ∷ map else e ∷ rest

  -- `map.contains_key(key)`
  abbrev pub has : String → List (String × A) → Bool
  has k [] = false
  has k (e ∷ map) = (e.0 == k) || has k map

  abbrev pub unwrap : Option A → Outcome A
  unwrap none = panic
  unwrap (some a) = done a

  -- `map[key]`, and `map.get_mut(key).unwrap()`
  unfoldable pub entry_of : String → List (String × A) → Outcome A
  entry_of k map = unwrap (get k map)

  pub has-put :
      (k : String) (a : A) (map : List (String × A)) (x : String)
      → has x (put k a map) ≡ (has x map || (k == x))
  unfolding put
  has-put k a [] x = ground arith
  has-put k a (e ∷ map) x =
      ground (arith, has-put k a map x, eq_iff e.0 k, eq_iff e.0 x, eq_iff k x)

  get-has :
      (k : String) (map : List (String × A)) → has k map ≡ true → (a : A) × (get k map ≡ some a)
  unfolding get
  get-has k [] h = absurd (ground (arith, h))
  get-has k (e ∷ map) h =
      if_cases (λ o. (a : A) × (o ≡ some a)) (e.0 == k) (some e.1) (get k map) (λ t. (e.1, refl))
        (λ f. get-has k map (ground (arith, h, f)))

  pub get-put :
      (k : String) (a : A) (map : List (String × A)) (x : String)
      → get x (put k a map) ≡ (if k == x then some a else get x map)
  unfolding get put
  get-put k a [] x = refl
  get-put k a (e ∷ map) x =
      ground (arith, get-put k a map x, eq_iff e.0 k, eq_iff e.0 x, eq_iff k x)

-- The value that a key of the map has.
pub entry_of-has :
    {A : Type 0} (k : String) (map : List (String × A))
    → has k map ≡ true
    → Returns (λ a. get k map ≡ some a) (entry_of k map)
unfolding entry_of
entry_of-has k map h =
    let r = get-has k map h in
    subst (λ o. Returns (λ a. get k map ≡ some a) (unwrap o)) (sym r.1) r.1
