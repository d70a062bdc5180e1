-- ===== src/Catchup/Wire.antt =====
-- The length-prefixed stream of the catch-up is read back as it was written.
use podping_alpha.Prelude.{
  Bool, ℕ, zero, suc, ◌%◌, ◌^◌, ◌≤◌, ◌<◌, ◌≡◌, refl, sym, ap, ap₂, ◌∙◌, true, false, Option, none,
  some, List, [], ◌∷◌, ◌++◌, length, take, drop, length-append, take_left, drop_left, All, ltb,
  if◌then◌else◌, if_else, arith,
}
use podping_alpha.Archive.{Payload}
use podping_alpha.Catchup.{
  to_be_bytes, from_be_bytes, frames, read_exact, read_payload, read_loop, read_all, is_refused,
}

from_be_bytes-to_be_bytes : (n : ℕ) → n < 2 ^ 32 → from_be_bytes (to_be_bytes n) ≡ n
unfolding to_be_bytes from_be_bytes
from_be_bytes-to_be_bytes n h = omega arith

length-to_be_bytes : (n : ℕ) → length (to_be_bytes n) ≡ 4
unfolding to_be_bytes
length-to_be_bytes n = refl

-- `read_exact` of as many bytes as stand before the rest.
read_exact-append :
    (xs ys : List ℕ) (n : ℕ) → n ≡ length xs → read_exact n (xs ++ ys) ≡ some (xs, ys)
unfolding read_exact
read_exact-append xs ys n h =
    if_else (λ o. o ≡ some (xs, ys)) (ltb (length (xs ++ ys)) n) _ _
      (ground (arith, length-append xs ys))
      (ap₂ (λ a b. some (a, b)) (ap (λ k. take k (xs ++ ys)) h ∙ take_left xs ys)
        (ap (λ k. drop k (xs ++ ys)) h ∙ drop_left xs ys))

-- The payloads before the first that is empty or over ten million bytes.
abbrev pub readable : List Payload → List Payload
readable [] = []
readable (p ∷ payloads) =
    let rest = readable payloads in if is_refused (length p) then [] else p ∷ rest

read_frame :
    (p : Payload) (payloads : List Payload)
    → length p < 2 ^ 32
    → read_payload (read_exact 4 (frames (p ∷ payloads)))
      ≡ (if is_refused (length p) then none else some (p, frames payloads))
unfolding frames read_payload
read_frame p payloads h =
    let size = length p % 2 ^ 32 in
    let rest = p ++ frames payloads in
    let whole : from_be_bytes (to_be_bytes size) ≡ length p =
      from_be_bytes-to_be_bytes size (omega arith) ∙ omega (arith, h) in
    ap read_payload (read_exact-append (to_be_bytes size) rest 4 (sym (length-to_be_bytes size)))
    ∙ ap (λ k. if is_refused k then none else read_exact k rest) whole
    ∙ ap (λ o. if is_refused (length p) then none else o)
        (read_exact-append p (frames payloads) (length p) refl)

-- A turn of the loop, by what it has read.
abbrev turn : ℕ → Option (List ℕ × List ℕ) → List Payload
turn fuel none = []
turn fuel (some r) = r.0 ∷ read_loop fuel r.1

turn_if :
    (b : Bool) (fuel : ℕ) (p : Payload) (rest : List ℕ) (tail : List Payload)
    → read_loop fuel rest ≡ tail
    → turn fuel (if b then none else some (p, rest)) ≡ (if b then [] else p ∷ tail)
turn_if true fuel p rest tail h = refl
turn_if false fuel p rest tail h = ap (◌∷◌ p) h

read_loop-frames :
    (payloads : List Payload) (fuel : ℕ)
    → All (λ p. length p < 2 ^ 32) payloads
    → length payloads ≤ fuel
    → read_loop fuel (frames payloads) ≡ readable payloads
unfolding read_loop frames
read_loop-frames [] zero h b = refl
read_loop-frames [] (suc fuel) h b = refl
read_loop-frames (p ∷ payloads) zero h b = absurd (omega (arith, b))
read_loop-frames (p ∷ payloads) (suc fuel) h b =
    ap (turn fuel) (read_frame p payloads h.0)
    ∙ turn_if (is_refused (length p)) fuel p (frames payloads) (readable payloads)
        (read_loop-frames payloads fuel h.1 (omega (arith, b)))

length-frames : (payloads : List Payload) → length payloads ≤ length (frames payloads)
unfolding frames
length-frames [] = omega arith
length-frames (p ∷ payloads) = omega (
  arith,
  length-frames payloads,
  length-append (to_be_bytes (length p % 2 ^ 32)) (p ++ frames payloads),
  length-append p (frames payloads),
  length-to_be_bytes (length p % 2 ^ 32),
)

-- Of payloads whose sizes fit 32 bits, the client reads all before the first that is empty or over
-- ten million bytes, in order, and none from there on.
pub read_all-frames :
    (payloads : List Payload)
    → All (λ p. length p < 2 ^ 32) payloads
    → read_all (frames payloads) ≡ readable payloads
unfolding read_all
read_all-frames payloads h =
    read_loop-frames payloads (length (frames payloads)) h (length-frames payloads)
