-- ===== src/Merge/Choice.antt =====
-- The peers that the merges of dtt-fork/src/gossip/merge choose from their candidates.
use podping_alpha.Prelude.{
  ℕ, zero, suc, ◌≤◌, min, String, Bool, true, ◌&&◌, ◌≡◌, refl, sym, ap, ◌∙◌, List, [], ◌∷◌, length,
  length-take, take, take_all, select, contains, ◌==◌, arith, eq_iff,
}
use podping_alpha.Merge.{Env, to_set, pad, join_peers}

-- The random order loses nothing and makes nothing up.
pub record IsShuffle (e : Env) : Type 0 where
  pub same : (xs : List String) (x : String) → contains (e.shuffle xs) x ≡ contains xs x
  pub count : (xs : List String) → length (e.shuffle xs) ≡ length xs

pub contains-to_set : (xs : List String) (x : String) → contains (to_set xs) x ≡ contains xs x
unfolding to_set
contains-to_set [] x = refl
contains-to_set (y ∷ xs) x = ground (arith, contains-to_set xs x, contains-to_set xs y, eq_iff y x)

contains-take :
    (n : ℕ) (xs : List String) (x : String) → contains (take n xs) x ≡ true → contains xs x ≡ true
contains-take zero xs x h = absurd (ground (arith, h))
contains-take (suc n) [] x h = h
contains-take (suc n) (y ∷ xs) x h = ground (arith, h, contains-take n xs x)

pub contains-length : (xs : List String) (x : String) → contains xs x ≡ true → 1 ≤ length xs
contains-length [] x h = absurd (ground (arith, h))
contains-length (y ∷ xs) x h = omega arith

pub contains-select :
    (p : String → Bool) (xs : List String) (x : String)
    → contains (select p xs) x ≡ (p x && contains xs x)
contains-select p [] x = ground arith
contains-select p (y ∷ xs) x =
    let same : (y == x) ≡ true → p y ≡ p x = λ t. ap p ((eq_iff y x).0 t) in
    ground (arith, contains-select p xs x, same)

module _ (e : Env) where
  pub contains-pad :
      (n : ℕ) (xs : List String) (x : String)
      → contains (take n xs) x ≡ true
      → contains (pad e n xs) x ≡ true
  unfolding pad
  contains-pad zero xs x h = h
  contains-pad (suc n) [] x h = absurd (ground (arith, h))
  contains-pad (suc n) (y ∷ xs) x h = ground (arith, h, contains-pad n xs x)

  pub length-join_peers :
      (s : IsShuffle e) (peers : List String) → length (join_peers e peers) ≡ min 5 (length peers)
  unfolding join_peers
  length-join_peers s peers = omega (arith, length-take 5 (e.shuffle peers), s.count peers)

  pub contains-join_peers :
      (s : IsShuffle e) (peers : List String) (x : String)
      → contains (join_peers e peers) x ≡ true
      → contains peers x ≡ true
  unfolding join_peers
  contains-join_peers s peers x h = sym (s.same peers x) ∙ contains-take 5 (e.shuffle peers) x h

  pub join_peers-contains :
      (s : IsShuffle e) (peers : List String) (x : String)
      → length peers ≤ 5
      → contains peers x ≡ true
      → contains (join_peers e peers) x ≡ true
  unfolding join_peers
  join_peers-contains s peers x l h =
      ap (λ v. contains v x) (take_all 5 (e.shuffle peers) (omega (arith, l, s.count peers)))
      ∙ s.same peers x
      ∙ h
