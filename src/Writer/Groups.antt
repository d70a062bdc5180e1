-- ===== src/Writer/Groups.antt =====
-- The grouping of `flush_batch` in gossip-writer/src/main.rs loses no ping and makes none up.
use mathlib.Core.List.{append_assoc, perm_append_comm, perm_middle}
use mathlib.Core.List.Perm
use podping_alpha.Prelude.{
  ℕ, zero, suc, String, ◌≡◌, refl, sym, ap, ap₂, subst, ◌∙◌, true, List, [], ◌∷◌, ◌++◌, map, Perm,
  eq_iff, if◌then◌else◌, if_cases, arith,
}
use podping_alpha.Writer.{
  PendingPing, Group, has_key, is_grouped, push_iri, insert_at, add_to_group, group_pings,
}

-- An IRI under its medium and reason.
pub record Entry : Type 0 where
  pub medium : String
  pub reason : String
  pub iri : String

abbrev pub entry : String → String → String → Entry
entry medium reason iri = record { medium = medium; reason = reason; iri = iri }

abbrev pub entry_of : PendingPing → Entry
entry_of p = entry p.medium_str p.reason_str p.iri

abbrev pub group_entries : Group → List Entry
group_entries g = map (entry g.medium g.reason) g.iris

abbrev pub entries : List Group → List Entry
entries [] = []
entries (g ∷ gs) = group_entries g ++ entries gs

has_key_lem : (m r : String) (g : Group) → has_key m r g ≡ true → (g.medium ≡ m) × (g.reason ≡ r)
has_key_lem m r g h = ground (arith, eq_iff g.medium m, eq_iff g.reason r)

map_snoc :
    (f : String → Entry) (xs : List String) (x : String)
    → map f (xs ++ x ∷ []) ≡ map f xs ++ f x ∷ []
map_snoc f [] x = refl
map_snoc f (y ∷ xs) x = ap (◌∷◌ (f y)) (map_snoc f xs x)

insert_at-perm :
    (n : ℕ) (g : Group) (gs : List Group)
    → Perm (entries (insert_at n g gs)) (group_entries g ++ entries gs)
unfolding insert_at
insert_at-perm zero g gs = Perm.refl _
insert_at-perm (suc n) g [] = Perm.refl _
insert_at-perm (suc n) g (h ∷ gs) =
    let H = group_entries h in
    let G = group_entries g in
    Perm.trans (Perm.append_left H (insert_at-perm n g gs)) (
      subst (λ l. Perm (H ++ (G ++ entries gs)) l) (append_assoc G H (entries gs))
        (subst (λ l. Perm l ((G ++ H) ++ entries gs)) (append_assoc H G (entries gs))
          (Perm.append_right (entries gs) (perm_append_comm H G))))

first_group-perm :
    (p : PendingPing) (g : Group) (es : List Entry)
    → has_key p.medium_str p.reason_str g ≡ true
    → Perm
        (group_entries (record g { iris = g.iris ++ p.iri ∷ [] }) ++ es)
        (entry_of p ∷ (group_entries g ++ es))
first_group-perm p g es h =
    let k = has_key_lem p.medium_str p.reason_str g h in
    let G = group_entries g in
    let e : entry g.medium g.reason p.iri ≡ entry_of p = ap₂ (λ m r. entry m r p.iri) k.0 k.1 in
    subst (λ l. Perm l (entry_of p ∷ (G ++ es)))
      (sym (
        ap (λ l. l ++ es) (map_snoc (entry g.medium g.reason) g.iris p.iri)
        ∙ append_assoc G (entry g.medium g.reason p.iri ∷ []) es
        ∙ ap (λ x. G ++ x ∷ es) e))
      (perm_middle G es)

push_iri-perm :
    (p : PendingPing) (gs : List Group)
    → is_grouped p.medium_str p.reason_str gs ≡ true
    → Perm (entries (push_iri p gs)) (entry_of p ∷ entries gs)
unfolding push_iri is_grouped
push_iri-perm p [] h = absurd (ground arith)
push_iri-perm p (g ∷ gs) h =
    if_cases (λ l. Perm (entries l) (entry_of p ∷ (group_entries g ++ entries gs)))
      (has_key p.medium_str p.reason_str g) _ _ (λ t. first_group-perm p g (entries gs) t)
      (λ f.
        Perm.trans
          (Perm.append_left (group_entries g) (
            push_iri-perm p gs
              (sym (ap (λ b. if b then true else is_grouped p.medium_str p.reason_str gs) f) ∙ h)))
          (perm_middle (group_entries g) (entries gs)))

module _ (place : String → String → List Group → ℕ) where
  add_to_group-perm :
      (p : PendingPing) (gs : List Group)
      → Perm (entries (add_to_group place p gs)) (entry_of p ∷ entries gs)
  unfolding add_to_group
  add_to_group-perm p gs =
      if_cases (λ l. Perm (entries l) (entry_of p ∷ entries gs))
        (is_grouped p.medium_str p.reason_str gs) _ _ (push_iri-perm p gs)
        (λ f. insert_at-perm (place p.medium_str p.reason_str gs) _ gs)

  pub group_pings-perm :
      (pending : List PendingPing) (gs : List Group)
      → Perm (entries (group_pings place pending gs)) (map entry_of pending ++ entries gs)
  unfolding group_pings
  group_pings-perm [] gs = Perm.refl _
  group_pings-perm (p ∷ pending) gs =
      Perm.trans (group_pings-perm pending (add_to_group place p gs)) (
        Perm.trans (Perm.append_left (map entry_of pending) (add_to_group-perm p gs))
          (perm_middle (map entry_of pending) (entries gs)))
