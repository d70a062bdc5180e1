-- ===== src/Record/Codec.antt =====
-- The codecs of dtt-fork/src/crypto/record.rs read back what they write.
use mathlib.Core.List.{append-nil}
use podping_alpha.Prelude.{
  ◌/◌, ◌^◌, ℕ, zero, suc, ◌-◌, ◌*◌, ◌<◌, ◌≡◌, refl, sym, ap, ap₂, ◌∙◌, [], ◌++◌, length, take, drop,
  length-append, take_left, drop_left, ltb, if◌then◌else◌, if_else, Result, ok, err, Outcome, done,
  ◌>>=◌, arith,
}
use podping_alpha.Record.{
  Bytes, Record, EncryptedRecord, to_le_bytes, from_le_bytes, split_at, to_bytes, from_bytes,
  read_content, read_signature, no_bytes, seal_to_bytes, seal_from_bytes,
}

-- The least number that does not fit so many bytes.
abbrev pub range : ℕ → ℕ
range zero = 1
range (suc width) = 256 * range width

pub from_le_bytes-to_le_bytes :
    (width n : ℕ) → n < range width → from_le_bytes (to_le_bytes width n) ≡ n
unfolding to_le_bytes from_le_bytes
from_le_bytes-to_le_bytes zero n h = omega (arith, h)
from_le_bytes-to_le_bytes (suc width) n h =
    omega (arith, h, from_le_bytes-to_le_bytes width (n / 256) (omega (arith, h)))

pub length-to_le_bytes : (width n : ℕ) → length (to_le_bytes width n) ≡ width
unfolding to_le_bytes
length-to_le_bytes zero n = refl
length-to_le_bytes (suc width) n = ap suc (length-to_le_bytes width (n / 256))

pub split_at-append :
    (xs ys : Bytes) (n : ℕ) → n ≡ length xs → split_at n (xs ++ ys) ≡ done (xs, ys)
unfolding split_at
split_at-append xs ys n h =
    if_else (λ o. o ≡ done (xs, ys)) (ltb (length (xs ++ ys)) n) _ _
      (ground (arith, length-append xs ys))
      (ap₂ (λ a b. done (a, b)) (ap (λ k. take k (xs ++ ys)) h ∙ take_left xs ys)
        (ap (λ k. drop k (xs ++ ys)) h ∙ drop_left xs ys))

-- The sizes of a record's arrays, and the range of its minute.
pub record IsSized (r : Record) : Type 0 where
  pub topic : length r.topic ≡ 32
  pub unix_minute : r.unix_minute < 2 ^ 64
  pub pub_key : length r.pub_key ≡ 32
  pub signature : length r.signature ≡ 64

signature_lem :
    (r : Record)
    → IsSized r
    → read_signature r.topic (to_le_bytes 8 r.unix_minute) r.pub_key (r.content, r.signature)
      ≡ done (ok r)
unfolding read_signature
signature_lem r h =
    let minute = to_le_bytes 8 r.unix_minute in
    let f : Bytes × Bytes → Outcome (Result Record) = λ (s : Bytes × Bytes). done (
      if no_bytes s.1
      then ok (record {
        topic = r.topic;
        unix_minute = from_le_bytes minute;
        pub_key = r.pub_key;
        content = r.content;
        signature = s.0;
      })
      else err) in
    ap (λ l. split_at 64 l >>= f) (sym (append-nil r.signature))
    ∙ ap (λ o. o >>= f) (split_at-append r.signature [] 64 (sym h.signature))
    ∙ ap
        (λ m. done (
          ok (record {
            topic = r.topic;
            unix_minute = m;
            pub_key = r.pub_key;
            content = r.content;
            signature = r.signature;
          })))
        (from_le_bytes-to_le_bytes 8 r.unix_minute h.unix_minute)

content_lem :
    (r : Record)
    → IsSized r
    → read_content r.topic (to_le_bytes 8 r.unix_minute) (r.pub_key, r.content ++ r.signature)
      ≡ done (ok r)
unfolding read_content
content_lem r h =
    let end = r.content ++ r.signature in
    let size = length-append r.content r.signature in
    if_else (λ o. o ≡ done (ok r)) (ltb (length end) 64) _ _ (ground (arith, size, h.signature))
      (ap (λ o. o >>= read_signature r.topic (to_le_bytes 8 r.unix_minute) r.pub_key)
          (split_at-append r.content r.signature (length end - 64)
            (omega (arith, size, h.signature)))
        ∙ signature_lem r h)

-- A record whose fields have the sizes of the code's arrays is read back from its bytes.
pub from_bytes-to_bytes : (r : Record) → IsSized r → from_bytes (to_bytes r) ≡ done (ok r)
unfolding from_bytes to_bytes
from_bytes-to_bytes r h =
    let minute = to_le_bytes 8 r.unix_minute in
    let end = r.content ++ r.signature in
    let f : Bytes × Bytes → Outcome (Result Record) = λ (t : Bytes × Bytes).
      split_at 8 t.1 >>= (λ (m : Bytes × Bytes). split_at 32 m.1 >>= read_content t.0 m.0) in
    let g : Bytes × Bytes → Outcome (Result Record) =
      λ (m : Bytes × Bytes). split_at 32 m.1 >>= read_content r.topic m.0 in
    ap (λ o. o >>= f) (split_at-append r.topic (minute ++ (r.pub_key ++ end)) 32 (sym h.topic))
    ∙ ap (λ o. o >>= g)
        (split_at-append minute (r.pub_key ++ end) 8 (sym (length-to_le_bytes 8 r.unix_minute)))
    ∙ ap (λ o. o >>= read_content r.topic minute) (split_at-append r.pub_key end 32 (sym h.pub_key))
    ∙ content_lem r h

-- An encrypted record of less than 4 GiB is read back from its bytes.
pub seal_from_bytes-seal_to_bytes :
    (e : EncryptedRecord)
    → length e.encrypted_record < 2 ^ 32
    → seal_from_bytes (seal_to_bytes e) ≡ done e
unfolding seal_from_bytes seal_to_bytes
seal_from_bytes-seal_to_bytes e h =
    let size = to_le_bytes 4 (length e.encrypted_record) in
    let rest = e.encrypted_record ++ e.encrypted_decryption_key in
    let g : Bytes × Bytes → Outcome EncryptedRecord = λ (b : Bytes × Bytes).
      done (record { encrypted_record = b.0; encrypted_decryption_key = b.1 }) in
    let f : Bytes × Bytes → Outcome EncryptedRecord =
      λ (l : Bytes × Bytes). split_at (from_le_bytes l.0) l.1 >>= g in
    ap (λ o. o >>= f)
      (split_at-append size rest 4 (sym (length-to_le_bytes 4 (length e.encrypted_record))))
    ∙ ap (λ o. o >>= g)
        (split_at-append e.encrypted_record e.encrypted_decryption_key (from_le_bytes size)
          (from_le_bytes-to_le_bytes 4 (length e.encrypted_record) h))
