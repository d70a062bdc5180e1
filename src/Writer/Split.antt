-- ===== src/Writer/Split.antt =====
-- `split_iris_to_fit` of gossip-writer/src/main.rs cuts a list into chunks and loses nothing.
use mathlib.Core.List.{append_assoc, append-nil}
use podping_alpha.Prelude.{
  ℕ, ◌≤◌, String, ◌≡◌, refl, sym, ap, ◌∙◌, ◌⊎◌, inl, inr, false, List, [], ◌∷◌, ◌++◌, length, All,
  All-append, arith, ltb, leb, leb→le, if_cases, if_elim,
}
use podping_alpha.Writer.{max_gossip_payload, push_chunk, split_loop, split_by_size}

abbrev pub concat : List (List String) → List String
concat [] = []
concat (c ∷ chunks) = c ++ concat chunks

pub concat-append : (a b : List (List String)) → concat (a ++ b) ≡ concat a ++ concat b
concat-append [] b = refl
concat-append (c ∷ a) b =
    ap (◌++◌ c) (concat-append a b) ∙ sym (append_assoc c (concat a) (concat b))

concat-push_chunk :
    (chunks : List (List String)) (current : List String)
    → concat (push_chunk chunks current) ≡ concat chunks ++ current
unfolding push_chunk
concat-push_chunk chunks [] = sym (append-nil (concat chunks))
concat-push_chunk chunks (i ∷ is) =
    concat-append chunks ((i ∷ is) ∷ []) ∙ ap (◌++◌ (concat chunks)) (append-nil (i ∷ is))

module _ (size : List String → ℕ) where
  -- A chunk is not empty, and fits, or is a single IRI.
  abbrev pub IsChunk : List String → Type 0
  IsChunk c = (1 ≤ length c) × ((size c ≤ max_gossip_payload) ⊎ (length c ≡ 1))

  split_loop-concat :
      (iris : List String) (chunks : List (List String)) (current : List String)
      → concat (split_loop size iris chunks current) ≡ concat chunks ++ (current ++ iris)
  unfolding split_loop
  split_loop-concat [] chunks current =
      concat-push_chunk chunks current ∙ ap (◌++◌ (concat chunks)) (sym (append-nil current))
  split_loop-concat (i ∷ iris) chunks current =
      if_elim (λ cs. concat cs ≡ concat chunks ++ (current ++ i ∷ iris))
        (ltb max_gossip_payload (size (current ++ i ∷ []))) _ _
        (split_loop-concat iris (push_chunk chunks current) (i ∷ [])
          ∙ ap (λ l. l ++ i ∷ iris) (concat-push_chunk chunks current)
          ∙ append_assoc (concat chunks) current (i ∷ iris))
        (split_loop-concat iris chunks (current ++ i ∷ [])
          ∙ ap (◌++◌ (concat chunks)) (append_assoc current (i ∷ []) iris))

  push_chunk-IsChunk :
      (chunks : List (List String)) (current : List String)
      → All IsChunk chunks
      → (1 ≤ length current → IsChunk current)
      → All IsChunk (push_chunk chunks current)
  unfolding push_chunk
  push_chunk-IsChunk chunks [] h k = h
  push_chunk-IsChunk chunks (i ∷ is) h k =
      All-append IsChunk chunks ((i ∷ is) ∷ []) h (k (omega arith), tt)

  split_loop-IsChunk :
      (iris : List String) (chunks : List (List String)) (current : List String)
      → All IsChunk chunks
      → (1 ≤ length current → IsChunk current)
      → All IsChunk (split_loop size iris chunks current)
  unfolding split_loop
  split_loop-IsChunk [] chunks current h k = push_chunk-IsChunk chunks current h k
  split_loop-IsChunk (i ∷ iris) chunks current h k =
      let grown = current ++ i ∷ [] in
      if_cases (All IsChunk) (ltb max_gossip_payload (size grown)) _ _
        (λ t.
          split_loop-IsChunk iris (push_chunk chunks current) (i ∷ [])
            (push_chunk-IsChunk chunks current h k) (λ b. (b, inr refl)))
        (λ f. split_loop-IsChunk iris chunks grown h (λ b. (b, inl (not_over (size grown) f))))
    where
      not_over : (n : ℕ) → ltb max_gossip_payload n ≡ false → n ≤ max_gossip_payload
      not_over n f = ground arith

  pub split_by_size-concat : (iris : List String) → concat (split_by_size size iris) ≡ iris
  unfolding split_by_size
  split_by_size-concat iris =
      if_elim (λ cs. concat cs ≡ iris) (leb (size iris) max_gossip_payload) _ _ (append-nil iris)
        (split_loop-concat iris [] [])

  -- The chunks, one after another, are the IRIs in their order; none is empty, and each is of a
  -- size that fits a gossip message or is a single IRI. (A single IRI of any size is a chunk.)
  pub split_by_size-IsSplit :
      (iris : List String)
      → 1 ≤ length iris
      → (concat (split_by_size size iris) ≡ iris) × All IsChunk (split_by_size size iris)
  unfolding split_by_size
  split_by_size-IsSplit iris b = (
    split_by_size-concat iris,
    if_cases (All IsChunk) (leb (size iris) max_gossip_payload) _ _
        (λ t. ((b, inl (leb→le (size iris) max_gossip_payload t)), tt))
        (λ f. split_loop-IsChunk iris [] [] tt (λ e. absurd (omega (arith, e)))),
  )
