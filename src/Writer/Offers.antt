-- ===== src/Writer/Offers.antt =====
-- What the flushes of gossip-writer/src/main.rs put into the channel to the broadcast task.
use native.Mathlib.Nat.{add-zero}
use podping_alpha.Prelude.{
  ℕ, suc, ◌+◌, ◌≡◌, refl, sym, ap, ◌∙◌, List, [], ◌∷◌, ◌++◌, map, length, String, arith,
  append_assoc, append-nil, some, map-append, length-map,
}
use podping_alpha.Writer.Notification.{Codec, GossipNotification}
use podping_alpha.Writer.{
  Env, Flushed, Group, SendAnswer, sent, full, closed, offer, notification, send_chunk, send_chunks,
  send_groups, split_iris_to_fit,
}

abbrev pub if_sent : {A : Type 0} → SendAnswer → A → List A
if_sent sent a = a ∷ []
if_sent full a = []
if_sent closed a = []

-- The payloads that the channel took, where its answers begin with the one of number `n`.
abbrev pub taken : {A : Type 0} → (ℕ → SendAnswer) → ℕ → List A → List A
taken answers n [] = []
taken answers n (b ∷ bs) = if_sent (answers n) b ++ taken answers (suc n) bs

module _ {A : Type 0} (answers : ℕ → SendAnswer) where
  taken-snoc :
      (n : ℕ) (bs : List A) (b : A)
      → taken answers n (bs ++ b ∷ []) ≡ taken answers n bs ++ if_sent (answers (n + length bs)) b
  taken-snoc n [] b =
      append-nil (if_sent (answers n) b) ∙ ap (λ k. if_sent (answers k) b) (sym (add-zero n))
  taken-snoc n (c ∷ bs) b =
      let shift : suc n + length bs ≡ n + suc (length bs) = omega arith in
      ap (λ l. if_sent (answers n) c ++ l) (taken-snoc (suc n) bs b)
      ∙ sym (
          append_assoc (if_sent (answers n) c) (taken answers (suc n) bs)
            (if_sent (answers (suc n + length bs)) b))
      ∙ ap (λ k. (if_sent (answers n) c ++ taken answers (suc n) bs) ++ if_sent (answers k) b) shift

  -- A channel that takes everything.
  pub taken-all : ((n : ℕ) → answers n ≡ sent) → (n : ℕ) (bs : List A) → taken answers n bs ≡ bs
  taken-all takes_all n [] = refl
  taken-all takes_all n (b ∷ bs) =
      ap (λ s. if_sent s b ++ taken answers (suc n) bs) (takes_all n)
      ∙ ap (◌∷◌ b) (taken-all takes_all (suc n) bs)

module _ {Bytes : Type 0} (codec : Codec Bytes) (env : Env) where
  -- The channel has the payloads of the notifications built so far that it took.
  abbrev pub IsOffered : Flushed Bytes → Type 0
  IsOffered out = out.broadcast ≡ taken env.try_send 0 (map codec.to_vec out.built)

  offer-broadcast :
      (s : SendAnswer) (payload : Bytes) (out : Flushed Bytes)
      → (offer s payload out).broadcast ≡ out.broadcast ++ if_sent s payload
  unfolding offer
  offer-broadcast sent payload out = refl
  offer-broadcast full payload out = sym (append-nil out.broadcast)
  offer-broadcast closed payload out = sym (append-nil out.broadcast)

  offer_built :
      (s : SendAnswer) (payload : Bytes) (out : Flushed Bytes)
      → (offer s payload out).built ≡ out.built
  unfolding offer
  offer_built sent payload out = refl
  offer_built full payload out = refl
  offer_built closed payload out = refl

  send_chunk-IsOffered :
      (m r : String) (c : List String) (out : Flushed Bytes)
      → IsOffered out
      → IsOffered (send_chunk codec env m r c out)
  unfolding send_chunk
  send_chunk-IsOffered m r c out h =
      let n : GossipNotification = notification codec env m r c (some out.seq_counter) in
      let b = codec.to_vec n in
      let payloads = map codec.to_vec out.built in
      let s = env.try_send (length out.built) in
      let number : length out.built ≡ 0 + length payloads =
        omega (arith, length-map codec.to_vec out.built) in
      offer-broadcast s b _
      ∙ ap (λ l. l ++ if_sent s b) h
      ∙ ap (λ k. taken env.try_send 0 payloads ++ if_sent (env.try_send k) b) number
      ∙ sym (taken-snoc env.try_send 0 payloads b)
      ∙ ap (taken env.try_send 0) (sym (map-append codec.to_vec out.built (n ∷ [])))
      ∙ ap (λ l. taken env.try_send 0 (map codec.to_vec l)) (sym (offer_built s b _))

  send_chunks-IsOffered :
      (m r : String) (chunks : List (List String)) (out : Flushed Bytes)
      → IsOffered out
      → IsOffered (send_chunks codec env m r chunks out)
  unfolding send_chunks
  send_chunks-IsOffered m r [] out h = h
  send_chunks-IsOffered m r (c ∷ chunks) out h =
      send_chunks-IsOffered m r chunks _ (send_chunk-IsOffered m r c out h)

  pub send_groups-IsOffered :
      (gs : List Group) (out : Flushed Bytes)
      → IsOffered out
      → IsOffered (send_groups codec env gs out)
  unfolding send_groups
  send_groups-IsOffered [] out h = h
  send_groups-IsOffered (g ∷ gs) out h = send_groups-IsOffered gs _ (
      send_chunks-IsOffered g.medium g.reason (split_iris_to_fit codec env g.medium g.reason g.iris)
        out h)
