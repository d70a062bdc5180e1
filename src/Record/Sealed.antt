-- ===== src/Record/Sealed.antt =====
-- What a node finds in the DHT: the records of others, and values that stop it
-- (dtt-fork/src/crypto/record.rs).
use mathlib.Core.List.{append_assoc}
use podping_alpha.Prelude.{
  ℕ, ◌-◌, ◌<◌, ◌^◌, ◌≡◌, refl, sym, ap, ap₂, ◌∙◌, true, false, ◌&&◌, Option, none, some, List, [],
  ◌∷◌, ◌++◌, length, take, length-append, take_left, ltb, eqb, if_then, if_else, Result, ok, err,
  Outcome, done, panic, ◌>>=◌, arith,
}
use podping_alpha.Record.{
  Bytes, Record, EncryptedRecord, Crypto, to_le_bytes, from_le_bytes, split_at, to_bytes,
  from_bytes, seal_to_bytes, seal_from_bytes, same_bytes, sign, verify, encrypt, decrypt,
  decrypt_with, keep, read_value, get_records, insert,
}
use podping_alpha.Record.Codec.{IsSized, from_bytes-to_bytes, seal_from_bytes-seal_to_bytes}

same_bytes_refl : (a : Bytes) → same_bytes a a ≡ true
unfolding same_bytes
same_bytes_refl [] = refl
same_bytes_refl (b ∷ a) = ground (arith, same_bytes_refl a)

short_split : (value : Bytes) → length value < 4 → split_at 4 value ≡ panic
unfolding split_at
short_split value h = if_then (λ o. o ≡ panic) (ltb (length value) 4) _ _ (ground (arith, h)) refl

eqb_refl : (n : ℕ) → eqb n n ≡ true
eqb_refl n = ground arith

-- What signatures and HPKE promise.
pub record IsSound (crypto : Crypto) : Type 0 where
  pub verifies :
      (key bytes : Bytes) → crypto.verify (crypto.public key) bytes (crypto.sign key bytes) ≡ true
  pub signature_size : (key bytes : Bytes) → length (crypto.sign key bytes) ≡ 64
  pub opens :
      (key bytes : Bytes)
      → crypto.decrypt key (crypto.encrypt (crypto.public key) bytes) ≡ some bytes

module _ (crypto : Crypto) where
  panic_bind :
      (m : Outcome (Option Record)) → ◌≡◌ {A = Outcome (List Record)} (m >>= (λ a. panic)) panic
  panic_bind (done a) = refl
  panic_bind panic = refl

  short_seal : (value : Bytes) → length value < 4 → seal_from_bytes value ≡ panic
  unfolding seal_from_bytes
  short_seal value h =
      let g : Bytes × Bytes → Outcome EncryptedRecord = λ (e : Bytes × Bytes).
        done (record { encrypted_record = e.0; encrypted_decryption_key = e.1 }) in
      let f : Bytes × Bytes → Outcome EncryptedRecord =
        λ (l : Bytes × Bytes). split_at (from_le_bytes l.0) l.1 >>= g in
      ap (λ o. o >>= f) (short_split value h)

  short_value :
      (own key topic : Bytes) (unix_minute : ℕ) (value : Bytes)
      → length value < 4
      → read_value crypto own key topic unix_minute value ≡ panic
  unfolding read_value
  short_value own key topic unix_minute value h =
      let f : EncryptedRecord → Outcome (Option Record) =
        λ e. decrypt crypto key e >>= (λ r. done (keep crypto own topic unix_minute r)) in
      ap (λ o. o >>= f) (short_seal value h)

  -- A value of less than four bytes among those that the DHT returns makes `get_records` panic,
  -- whatever the others are.
  pub get_records_short_value :
      (own key topic : Bytes) (unix_minute : ℕ) (before : List Bytes) (value : Bytes)
      (after : List Bytes)
      → length value < 4
      → get_records crypto own key topic unix_minute (before ++ value ∷ after) ≡ panic
  unfolding get_records
  get_records_short_value own key topic unix_minute [] value after h =
      ap
        (λ o. o >>= (λ r.
          get_records crypto own key topic unix_minute after >>= (λ rs. done (insert crypto r rs))))
        (short_value own key topic unix_minute value h)
  get_records_short_value own key topic unix_minute (v ∷ before) value after h =
      ap
        (λ rest.
          read_value crypto own key topic unix_minute v
          >>= (λ r. rest >>= (λ rs. done (insert crypto r rs))))
        (get_records_short_value own key topic unix_minute before value after h)
      ∙ panic_bind (read_value crypto own key topic unix_minute v)

  module _ (sound : IsSound crypto) (topic : Bytes) (unix_minute : ℕ) (content signing_key : Bytes)
      (is_topic : length topic ≡ 32) (is_minute : unix_minute < 2 ^ 64)
      (is_key : length (crypto.public signing_key) ≡ 32) where
    abbrev signed : Record
    signed = sign crypto topic unix_minute (crypto.public signing_key) content signing_key

    signed-IsSized : IsSized signed
    unfolding sign
    signed-IsSized = record {
      topic = is_topic;
      unix_minute = is_minute;
      pub_key = is_key;
      signature = sound.signature_size signing_key _;
    }

    abbrev payload : Bytes
    payload = topic ++ (to_le_bytes 8 unix_minute ++ (crypto.public signing_key ++ content))

    signed_bytes : to_bytes signed ≡ payload ++ signed.signature
    unfolding to_bytes sign
    signed_bytes =
        let minute = to_le_bytes 8 unix_minute in
        let key = crypto.public signing_key in
        let end = signed.signature in
        sym (
          append_assoc topic (minute ++ (key ++ content)) end
          ∙ ap (◌++◌ topic) (
              append_assoc minute (key ++ content) end
              ∙ ap (◌++◌ minute) (append_assoc key content end)))

    signed_part : take (length (to_bytes signed) - 64) (to_bytes signed) ≡ payload
    signed_part =
        let size = length-append payload signed.signature in
        ap (λ l. take (length l - 64) l) signed_bytes
        ∙ ap (λ n. take n (payload ++ signed.signature))
            (omega (arith, size, signed-IsSized.signature))
        ∙ take_left payload signed.signature

    signed_verifies : verify crypto signed topic unix_minute ≡ true
    unfolding verify sign
    signed_verifies = ap₂ (◌&&◌) (same_bytes_refl topic) (
        ap₂ (◌&&◌) (eqb_refl unix_minute) (
          ap (λ b. crypto.verify (crypto.public signing_key) b signed.signature) signed_part
          ∙ sound.verifies signing_key payload))

    opened :
        (one_time_key : Bytes)
        → length one_time_key ≡ 32
        → decrypt_with crypto
            (some one_time_key)
            (crypto.encrypt (crypto.public one_time_key) (to_bytes signed))
          ≡ done (ok signed)
    unfolding decrypt_with
    opened one_time_key size =
        let F : Option Bytes → Outcome (Result Record) =
          λ o. elim o [ none ↦ done err | some bytes ↦ from_bytes bytes ] in
        if_then (λ m. m ≡ done (ok signed)) (eqb (length one_time_key) 32) _ _
          (ground (arith, size))
          (ap F (sound.opens one_time_key (to_bytes signed))
            ∙ from_bytes-to_bytes signed signed-IsSized)

    -- A record that a node signs for a topic and a minute, encrypts, and writes out, is taken by
    -- every other node that looks for that topic and minute with the same encryption key, where
    -- the sizes are those of the code's arrays, signatures verify, and HPKE opens what it sealed.
    pub read_value-sealed :
        (own key one_time_key : Bytes)
        → same_bytes (crypto.public signing_key) own ≡ false
        → length one_time_key ≡ 32
        → length (crypto.encrypt (crypto.public one_time_key) (to_bytes signed)) < 2 ^ 32
        → read_value crypto own key topic unix_minute
            (seal_to_bytes (encrypt crypto one_time_key key signed))
          ≡ done (some signed)
    unfolding read_value encrypt decrypt decrypt_with keep sign
    read_value-sealed own key one_time_key other size fits =
        let e = encrypt crypto one_time_key key signed in
        let g : Result Record → Outcome (Option Record) =
          λ r. done (keep crypto own topic unix_minute r) in
        let f : EncryptedRecord → Outcome (Option Record) = λ e. decrypt crypto key e >>= g in
        let sealed = crypto.encrypt (crypto.public one_time_key) (to_bytes signed) in
        ap (λ o. o >>= f) (seal_from_bytes-seal_to_bytes e fits)
        ∙ ap (λ k. decrypt_with crypto k sealed >>= g) (sound.opens key one_time_key)
        ∙ ap (λ o. o >>= g) (opened one_time_key size)
        ∙ ap done (
            if_then (λ o. o ≡ some signed) (verify crypto signed topic unix_minute) _ _
              signed_verifies
              (if_else (λ o. o ≡ some signed) (same_bytes (crypto.public signing_key) own) _ _ other
                refl))
