-- ===== src/Archive/Rows.antt =====
-- What `store` of gossip-listener/src/archive.rs adds and keeps.
use mathlib.Core.Bool.{false≢true}
use podping_alpha.Prelude.{
  ℕ, String, ◌≡◌, refl, sym, ap, ◌∙◌, Bool, true, false, ◌||◌, List, [], ◌∷◌, ◌++◌, arith,
  str_eq_refl, Result, if_cases, if_elim, All, All-append, subst,
}
use podping_alpha.Archive.{
  Message, Archive, Disk, Payload, Header, Manifest, has_hash, insert_message, insert_manifest,
  store, manifest_of,
}

has_hash-append :
    (a b : List Message) (h : String) → has_hash (a ++ b) h ≡ (has_hash a h || has_hash b h)
unfolding has_hash
has_hash-append [] b h = refl
has_hash-append (m ∷ a) b h = ground (arith, has_hash-append a b h)

insert_message-has :
    (m : Message) (a : Archive) → has_hash (insert_message m a).messages m.hash ≡ true
unfolding insert_message has_hash
insert_message-has m a =
    if_cases (λ (b : Archive). has_hash b.messages m.hash ≡ true) (has_hash a.messages m.hash) _ _
      (λ t. t) (λ f. ground (arith, has_hash-append a.messages (m ∷ []) m.hash, str_eq_refl m.hash))

insert_message-keeps :
    (m : Message) (a : Archive) (h : String)
    → has_hash a.messages h ≡ true
    → has_hash (insert_message m a).messages h ≡ true
unfolding insert_message
insert_message-keeps m a h k =
    if_elim (λ (b : Archive). has_hash b.messages h ≡ true) (has_hash a.messages m.hash) _ _ k
      (ground (arith, has_hash-append a.messages (m ∷ []) h))

insert_manifest_messages :
    (r : Manifest) (a : Archive) → (insert_manifest r a).messages ≡ a.messages
unfolding insert_manifest
insert_manifest_messages r a = if_elim (λ (b : Archive). b.messages ≡ a.messages) _ _ _ refl refl

-- A message stands under the digest of its payload.
abbrev pub IsAuthentic : (Payload → String) → Message → Type 0
IsAuthentic blake3 m = m.hash ≡ blake3 m.payload

insert_message-IsAuthentic :
    (blake3 : Payload → String) (m : Message) (a : Archive)
    → IsAuthentic blake3 m
    → All (IsAuthentic blake3) a.messages
    → All (IsAuthentic blake3) (insert_message m a).messages
unfolding insert_message
insert_message-IsAuthentic blake3 m a h k =
    if_elim (λ (b : Archive). All (IsAuthentic blake3) b.messages) (has_hash a.messages m.hash) a
      (record a { messages = a.messages ++ m ∷ [] }) k
      (All-append (IsAuthentic blake3) a.messages (m ∷ []) k (h, tt))

module _ (blake3 : Payload → String) (disk : Disk) (now : ℕ) (payload : Payload) (h : Header)
    (a : Archive) where
  -- `store` in terms of its two statements.
  store_cases :
      (P : Archive → Type 0)
      → (disk.message_fails payload ≡ true → P a)
      → (disk.message_fails payload ≡ false
          → P (
              insert_message
                (record { hash = blake3 payload; payload = payload; created_at = now })
                a))
      → ((b c : Archive) → b.messages ≡ c.messages → P c → P b)
      → P (store blake3 disk now payload h a).0
  unfolding store
  store_cases P fails works same =
      if_cases (λ (r : Archive × Result Bool). P r.0) (disk.message_fails payload) _ _ fails
        (λ f.
          if_elim (λ (r : Archive × Result Bool). P r.0) (disk.manifest_fails payload) _ _ (works f)
            (same _ _ (insert_manifest_messages (manifest_of blake3 disk payload h) _) (works f)))

  pub store-keeps :
      (k : String)
      → has_hash a.messages k ≡ true
      → has_hash (store blake3 disk now payload h a).0.messages k ≡ true
  store-keeps k has =
      store_cases (λ b. has_hash b.messages k ≡ true) (λ _. has)
        (λ _.
          insert_message-keeps
            (record { hash = blake3 payload; payload = payload; created_at = now }) a k has)
        (λ b c e p. ap (λ l. has_hash l k) e ∙ p)

  pub store-has :
      disk.message_fails payload ≡ false
      → has_hash (store blake3 disk now payload h a).0.messages (blake3 payload) ≡ true
  store-has f =
      store_cases (λ b. has_hash b.messages (blake3 payload) ≡ true)
        (λ t. absurd (false≢true (sym f ∙ t)))
        (λ _.
          insert_message-has (record { hash = blake3 payload; payload = payload; created_at = now })
            a)
        (λ b c e p. ap (λ l. has_hash l (blake3 payload)) e ∙ p)

  pub store-IsAuthentic :
      All (IsAuthentic blake3) a.messages
      → All (IsAuthentic blake3) (store blake3 disk now payload h a).0.messages
  store-IsAuthentic k =
      store_cases (λ b. All (IsAuthentic blake3) b.messages) (λ _. k)
        (λ _.
          insert_message-IsAuthentic blake3
            (record { hash = blake3 payload; payload = payload; created_at = now }) a refl k)
        (λ b c e q. subst (All (IsAuthentic blake3)) (sym e) q)
