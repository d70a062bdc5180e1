-- ===== src/Queue/Rows.antt =====
-- Rows of the table `queue` of podping/dbif/src/lib.rs, and the primary key `url`.
use podping_alpha.Prelude.{
  ℕ, suc, String, ◌≡◌, refl, ap, Bool, true, false, not, ◌&&◌, ◌||◌, Option, none, some, List, [],
  ◌∷◌, ◌++◌, length, arith, ◌==◌, eq_iff, if◌then◌else◌,
}

pub record Row : Type 0 where
  pub url : String
  pub createdon : ℕ
  pub reason : String
  pub medium : String
  pub inflight : Bool

-- The row of a key; the key is in use if there is one.
unfoldable pub find_row : String → List Row → Option Row
find_row u [] = none
find_row u (r ∷ rows) = if r.url == u then some r else find_row u rows

abbrev pub url_in : String → List Row → Bool
url_in u [] = false
url_in u (r ∷ rows) = (r.url == u) || url_in u rows

-- `UPDATE queue SET .. WHERE url = ?`
unfoldable pub set_where : String → (Row → Row) → List Row → List Row
set_where u f [] = []
set_where u f (r ∷ rows) = (if r.url == u then f r else r) ∷ set_where u f rows

-- `DELETE FROM queue WHERE url = ?`
unfoldable pub delete_where : String → List Row → List Row
delete_where u [] = []
delete_where u (r ∷ rows) = let rest = delete_where u rows in if r.url == u then rest else r ∷ rest

-- No two rows have one key.
abbrev pub HasKeys : List Row → Type 0
HasKeys [] = Unit
HasKeys (r ∷ rows) = (url_in r.url rows ≡ false) × HasKeys rows

abbrev pub map_row : (Row → Row) → Option Row → Option Row
map_row f none = none
map_row f (some r) = some (f r)

abbrev pub is_some : Option Row → Bool
is_some none = false
is_some (some r) = true

pub url_in-is_some : (u : String) (rows : List Row) → url_in u rows ≡ is_some (find_row u rows)
unfolding find_row
url_in-is_some u [] = refl
url_in-is_some u (r ∷ rows) = ground (arith, url_in-is_some u rows)

pub url_in-append :
    (u : String) (xs ys : List Row) → url_in u (xs ++ ys) ≡ (url_in u xs || url_in u ys)
url_in-append u [] ys = refl
url_in-append u (r ∷ xs) ys = ground (arith, url_in-append u xs ys)

pub find_row-append :
    (u : String) (xs : List Row) (r : Row)
    → url_in r.url xs ≡ false
    → find_row u (xs ++ r ∷ []) ≡ (if r.url == u then some r else find_row u xs)
unfolding find_row
find_row-append u [] r h = refl
find_row-append u (x ∷ xs) r h =
    ground (arith, find_row-append u xs r, eq_iff x.url u, eq_iff r.url u, eq_iff x.url r.url)

module _ (f : Row → Row) (keeps : (r : Row) → (f r).url ≡ r.url) where
  pub url_in-set_where :
      (u v : String) (rows : List Row) → url_in v (set_where u f rows) ≡ url_in v rows
  unfolding set_where
  url_in-set_where u v [] = refl
  url_in-set_where u v (r ∷ rows) = ground (arith, url_in-set_where u v rows, keeps r)

  pub set_where-HasKeys :
      (u : String) (rows : List Row) → HasKeys rows → HasKeys (set_where u f rows)
  unfolding set_where
  set_where-HasKeys u [] h = tt
  set_where-HasKeys u (r ∷ rows) h =
      ground (arith, url_in-set_where u r.url rows, keeps r, set_where-HasKeys u rows h.1)

  -- An update touches the row of its key, and no other.
  pub find_row-set_where :
      (u v : String) (rows : List Row)
      → find_row v (set_where u f rows)
        ≡ (if u == v then map_row f (find_row v rows) else find_row v rows)
  unfolding find_row set_where
  find_row-set_where u v [] = ground arith
  find_row-set_where u v (x ∷ rows) =
      ground
        (arith, keeps x, find_row-set_where u v rows, eq_iff x.url u, eq_iff x.url v, eq_iff u v)

pub length-set_where :
    (u : String) (f : Row → Row) (rows : List Row) → length (set_where u f rows) ≡ length rows
unfolding set_where
length-set_where u f [] = refl
length-set_where u f (r ∷ rows) = ap (λ (n : ℕ). suc n) (length-set_where u f rows)

pub url_in-delete_where :
    (u v : String) (rows : List Row)
    → url_in v (delete_where u rows) ≡ (not (u == v) && url_in v rows)
unfolding delete_where
url_in-delete_where u v [] = ground arith
url_in-delete_where u v (r ∷ rows) =
    ground (arith, url_in-delete_where u v rows, eq_iff r.url u, eq_iff r.url v, eq_iff u v)

pub delete_where-HasKeys :
    (u : String) (rows : List Row) → HasKeys rows → HasKeys (delete_where u rows)
unfolding delete_where
delete_where-HasKeys u [] h = tt
delete_where-HasKeys u (r ∷ rows) h =
    ground (arith, url_in-delete_where u r.url rows, delete_where-HasKeys u rows h.1)

-- After a deletion the key has no row, and every other key has the row that it had.
pub find_row-delete_where :
    (u v : String) (rows : List Row)
    → find_row v (delete_where u rows) ≡ (if u == v then none else find_row v rows)
unfolding find_row delete_where
find_row-delete_where u v [] = ground arith
find_row-delete_where u v (r ∷ rows) =
    ground (arith, find_row-delete_where u v rows, eq_iff r.url u, eq_iff r.url v, eq_iff u v)
