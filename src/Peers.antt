-- ===== src/Peers.antt =====
-- `save_peer_if_new`, of gossip-writer/src/main.rs and of gossip-listener/src/main.rs: the file of
-- known peers, as the list of its lines that are not empty, trimmed.
mod Examples
use mathlib.Core.Bool.{false≢true}
use podping_alpha.Prelude.{
  select, if_elim, length-select-le, ℕ, zero, suc, ◌+◌, ◌-◌, ◌≤◌, String, ◌≡◌, ◌≢◌, refl, sym, ap,
  ◌∙◌, ◌⊎◌, inl, inr, Bool, true, false, List, [], ◌∷◌, ◌++◌, length, drop, contains,
  contains-append, length-append, length-drop, if◌then◌else◌, if_cases, ◌==◌, ◌||◌, eq_iff,
  str_eq_refl, arith, ltb, min, IsDistinct, IsDistinct-drop, IsDistinct-snoc,
}

abbrev pub max_known_peers : ℕ
max_known_peers = 15

-- What the disk answers: whether the file can be read and created, and which lines can be written.
pub record Files : Type 0 where
  pub reads : Bool
  pub creates : Bool
  pub writes : String → Bool

abbrev pub working : Files
working = record { reads = true; creates = true; writes = λ line. true }

-- `read_to_string(path).unwrap_or_default()`: a file that cannot be read counts as an empty one.
abbrev pub read_peers : Files → List String → List String
read_peers f file = if f.reads then file else []

-- The oldest peers make room where there is one too many.
abbrev pub evict : List String → List String
evict peers =
    if ltb max_known_peers (length peers)
    then drop (length peers - max_known_peers) peers
    else peers

-- A file that cannot be created is left as it is.
unfoldable pub save_peer_if_new : Files → String → String → List String → List String
save_peer_if_new f node_id my_node_id file =
    let peers = read_peers f file in
    let written = select f.writes (evict (peers ++ node_id ∷ [])) in
    let saved = if f.creates then written else file in
    if node_id == my_node_id then file else if contains peers node_id then file else saved

contains-drop :
    (n : ℕ) (peers : List String) (p : String)
    → n ≤ length peers
    → contains (drop n (peers ++ p ∷ [])) p ≡ true
contains-drop zero peers p h = ground (arith, contains-append peers (p ∷ []) p, str_eq_refl p)
contains-drop (suc n) [] p h = absurd (omega arith)
contains-drop (suc n) (q ∷ peers) p h = contains-drop n peers p (omega arith)

contains-select_known :
    (p : String → Bool) (xs : List String) (x : String)
    → contains xs x ≡ true
    → p x ≡ true
    → contains (select p xs) x ≡ true
contains-select_known p [] x h k = h
contains-select_known p (y ∷ xs) x h k =
    if_cases (λ l. contains l x ≡ true) (p y) (y ∷ select p xs) (select p xs)
      (λ _. ground (arith, h, λ (t : contains xs x ≡ true). contains-select_known p xs x t k))
      (λ f.
        let other : (y == x) ≡ true → ⊥ =
          λ t. absurd (ground (arith, f, ap p ((eq_iff y x).0 t), k)) in
        ground (arith, h, other, λ (t : contains xs x ≡ true). contains-select_known p xs x t k))

contains-select_from :
    (p : String → Bool) (xs : List String) (x : String)
    → contains (select p xs) x ≡ true
    → contains xs x ≡ true
contains-select_from p [] x h = h
contains-select_from p (y ∷ xs) x h =
    if_cases (λ l. contains l x ≡ true → contains (y ∷ xs) x ≡ true) (p y) (y ∷ select p xs)
      (select p xs) (λ _ g. ground (arith, g, contains-select_from p xs x))
      (λ _ g. ground (arith, contains-select_from p xs x g)) h

IsDistinct-select :
    (p : String → Bool) (xs : List String) → IsDistinct xs → IsDistinct (select p xs)
IsDistinct-select p [] d = tt
IsDistinct-select p (y ∷ xs) d =
    if_elim IsDistinct (p y) (y ∷ select p xs) (select p xs)
      (ground (arith, d.0, contains-select_from p xs y), IsDistinct-select p xs d.1)
      (IsDistinct-select p xs d.1)

-- What a call leaves in the file.
pub record IsSaved (f : Files) (node_id : String) (my_node_id : String) (before : List String)
    (after : List String) : Type 0 where
  pub distinct : IsDistinct after
  pub bounded : length after ≤ max_known_peers
  pub present :
      node_id ≢ my_node_id
      → f.reads ≡ true
      → f.creates ≡ true
      → f.writes node_id ≡ true
      → contains after node_id ≡ true
  pub last :
      (after ≡ before)
      ⊎ ((f.creates ≡ true)
          × ((n : ℕ) × (after ≡ select f.writes (drop n (read_peers f before ++ node_id ∷ [])))
              × (n ≤ 1)))
  pub wiped :
      node_id ≢ my_node_id
      → f.reads ≡ false
      → f.creates ≡ true
      → after ≡ select f.writes (node_id ∷ [])

record IsEvicted (peers : List String) (node_id : String) (left : List String) : Type 0 where
  n : ℕ
  one : n ≤ 1
  rest : left ≡ drop n (peers ++ node_id ∷ [])
  distinct : IsDistinct left
  bounded : length left ≤ max_known_peers
  present : contains left node_id ≡ true

evict-IsEvicted :
    (peers : List String) (node_id : String)
    → IsDistinct peers
    → length peers ≤ max_known_peers
    → contains peers node_id ≡ false
    → IsEvicted peers node_id (evict (peers ++ node_id ∷ []))
evict-IsEvicted peers node_id d b f =
    if_cases (IsEvicted peers node_id) (ltb max_known_peers (length (peers ++ node_id ∷ []))) _ _
      (λ t.
        let pushed = peers ++ node_id ∷ [] in
        let n = length pushed - max_known_peers in
        let grown = length-append peers (node_id ∷ []) in
        record {
          n = n;
          one = omega (arith, grown, b);
          rest = refl;
          distinct = IsDistinct-drop n pushed (IsDistinct-snoc peers node_id d f);
          bounded = omega (arith, length-drop n pushed);
          present = contains-drop n peers node_id (omega (arith, grown));
        })
      (λ u. record {
        n = zero;
        one = omega arith;
        rest = refl;
        distinct = IsDistinct-snoc peers node_id d f;
        bounded = ground arith;
        present = contains-drop zero peers node_id (omega arith);
      })

-- A file of at most 15 different peers stays one, whatever the disk answers. It is left as it was
-- (for the node itself, for a peer that is in it, or where it cannot be created), or it is written
-- anew: what was read of it and the peer, at most the oldest removed, without the lines that cannot
-- be written. A peer other than the node itself is in it afterwards, if the file can be read and
-- created and the peer's line written; if the file cannot be read but created, all other peers are
-- lost.
pub save_peer_if_new-IsSaved :
    (f : Files) (node_id my_node_id : String) (file : List String)
    → IsDistinct file
    → length file ≤ max_known_peers
    → IsSaved f node_id my_node_id file (save_peer_if_new f node_id my_node_id file)
unfolding save_peer_if_new
save_peer_if_new-IsSaved f node_id my_node_id file d b =
    if_cases (IsSaved f node_id my_node_id file) (node_id == my_node_id) _ _
      (λ t.
        let same = (eq_iff node_id my_node_id).0 t in
        record {
          distinct = d;
          bounded = b;
          present = λ ne _ _ _. absurd (ne same);
          last = inl refl;
          wiped = λ ne _ _. absurd (ne same);
        })
      (λ _.
        if_cases (IsSaved f node_id my_node_id file) (contains peers node_id) _ _
          (λ t. record {
            distinct = d;
            bounded = b;
            present = λ _ r _ _. ap (λ c. contains (if c then file else []) node_id) (sym r) ∙ t;
            last = inl refl;
            wiped = λ _ r _.
                absurd
                  (false≢true (ap (λ c. contains (if c then file else []) node_id) (sym r) ∙ t));
          })
          (λ g.
            if_cases (IsSaved f node_id my_node_id file) f.creates _ _ (λ c. written g c)
              (λ c. record {
                distinct = d;
                bounded = b;
                present = λ _ _ k _. absurd (false≢true (sym c ∙ k));
                last = inl refl;
                wiped = λ _ _ k. absurd (false≢true (sym c ∙ k));
              })))
  where
    peers : List String
    peers = read_peers f file

    written :
        contains peers node_id ≡ false
        → f.creates ≡ true
        → IsSaved f node_id my_node_id file (select f.writes (evict (peers ++ node_id ∷ [])))
    written g c =
        let v =
          evict-IsEvicted peers node_id (if_elim IsDistinct f.reads file [] d tt)
            (if_elim (λ l. length l ≤ max_known_peers) f.reads file [] b (omega arith)) g in
        let left = evict (peers ++ node_id ∷ []) in
        record {
          distinct = IsDistinct-select f.writes left v.distinct;
          bounded = omega (arith, v.bounded, length-select-le f.writes left);
          present = λ _ _ _ w. contains-select_known f.writes left node_id v.present w;
          last = inr (c, (v.n, ap (select f.writes) v.rest, v.one));
          wiped = λ _ r _.
              ap (λ b. select f.writes (evict ((if b then file else []) ++ node_id ∷ []))) r;
        }
