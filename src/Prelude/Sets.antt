-- ===== src/Prelude/Sets.antt =====
-- Sets of texts, as the lists of their items.
use Prim.Native.Nat.{ℕ, zero, suc}
use Prim.Native.String.{String}
use mathlib.Core.Path.{◌≡◌, refl}
use mathlib.Core.Bool.{Bool, false, ◌||◌}
use mathlib.Core.List.{List, [], ◌∷◌, ◌++◌}
use native.Mathlib.Omega.{arith}
use text.Mathlib.Text.{◌==◌}
use text.Mathlib.TextEquality.{eq_iff}
use podping_alpha.Prelude.Lists.{drop}

-- Membership of a text, as `contains` of a `HashSet<String>` or of a `Vec<String>`.
abbrev pub contains : List String → String → Bool
contains [] s = false
contains (x ∷ xs) s = (x == s) || contains xs s

pub contains-append :
    (xs ys : List String) (s : String) → contains (xs ++ ys) s ≡ (contains xs s || contains ys s)
contains-append [] ys s = refl
contains-append (x ∷ xs) ys s = ground (arith, contains-append xs ys s)

-- No text is there twice.
abbrev pub IsDistinct : List String → Type 0
IsDistinct [] = Unit
IsDistinct (p ∷ peers) = (contains peers p ≡ false) × IsDistinct peers

pub IsDistinct-drop : (n : ℕ) (peers : List String) → IsDistinct peers → IsDistinct (drop n peers)
IsDistinct-drop zero peers h = h
IsDistinct-drop (suc n) [] h = tt
IsDistinct-drop (suc n) (p ∷ peers) h = IsDistinct-drop n peers h.1

pub IsDistinct-snoc :
    (peers : List String) (p : String)
    → IsDistinct peers
    → contains peers p ≡ false
    → IsDistinct (peers ++ p ∷ [])
IsDistinct-snoc [] p h f = (refl, tt)
IsDistinct-snoc (q ∷ peers) p h f =
    (apart q peers p h.0 f, IsDistinct-snoc peers p h.1 (ground (arith, f)))
  where
    apart :
        (q : String) (peers : List String) (p : String)
        → contains peers q ≡ false
        → contains (q ∷ peers) p ≡ false
        → contains (peers ++ p ∷ []) q ≡ false
    apart q peers p h f = ground (arith, contains-append peers (p ∷ []) q, eq_iff p q, eq_iff q p)
