-- ===== src/Record.antt =====
-- dtt-fork/src/crypto/record.rs: the layout of records, their signature, and what a node takes from
-- the values it finds in the DHT. Bytes are numbers; signing, HPKE and the postcard codec are
-- parameters, and `split_at` panics beyond the end.
pub mod Codec
pub mod Sealed
mod Examples
use podping_alpha.Prelude.{
  ℕ, zero, suc, ◌+◌, ◌-◌, ◌*◌, ◌/◌, ◌%◌, Bool, true, false, ◌&&◌, Option, none, some, List, [], ◌∷◌,
  ◌++◌, length, take, drop, ltb, eqb, if◌then◌else◌, Result, ok, err, Outcome, done, panic, ◌>>=◌,
}

abbrev pub Bytes : Type 0
Bytes = List ℕ

pub record Record : Type 0 where
  pub topic : Bytes
  pub unix_minute : ℕ
  pub pub_key : Bytes
  pub content : Bytes
  pub signature : Bytes

pub record EncryptedRecord : Type 0 where
  pub encrypted_record : Bytes
  pub encrypted_decryption_key : Bytes

-- `to_le_bytes` and `from_le_bytes` of an integer of so many bytes.
unfoldable pub to_le_bytes : ℕ → ℕ → Bytes
to_le_bytes zero n = []
to_le_bytes (suc width) n = n % 256 ∷ to_le_bytes width (n / 256)

unfoldable pub from_le_bytes : Bytes → ℕ
from_le_bytes [] = 0
from_le_bytes (b ∷ bytes) = b + 256 * from_le_bytes bytes

unfoldable pub split_at : ℕ → Bytes → Outcome (Bytes × Bytes)
split_at n buf = if ltb (length buf) n then panic else done (take n buf, drop n buf)

abbrev pub no_bytes : Bytes → Bool
no_bytes [] = true
no_bytes (b ∷ bytes) = false

-- `Record::to_bytes` and the stages of `Record::from_bytes`.
unfoldable pub to_bytes : Record → Bytes
unfolding to_le_bytes
to_bytes r = r.topic ++ (to_le_bytes 8 r.unix_minute ++ (r.pub_key ++ (r.content ++ r.signature)))

unfoldable pub read_signature : Bytes → Bytes → Bytes → Bytes × Bytes → Outcome (Result Record)
unfolding split_at from_le_bytes
read_signature topic minute node_id r = split_at 64 r.1 >>= (λ (s : Bytes × Bytes). done (
    if no_bytes s.1
    then ok (record {
      topic = topic;
      unix_minute = from_le_bytes minute;
      pub_key = node_id;
      content = r.0;
      signature = s.0;
    })
    else err))

-- `buf.len() - 64` is out of range, or panics, where the buffer is shorter.
unfoldable pub read_content : Bytes → Bytes → Bytes × Bytes → Outcome (Result Record)
unfolding read_signature split_at
read_content topic minute r =
    if ltb (length r.1) 64
    then panic
    else split_at (length r.1 - 64) r.1 >>= read_signature topic minute r.0

unfoldable pub from_bytes : Bytes → Outcome (Result Record)
unfolding read_content split_at
from_bytes buf = split_at 32 buf >>= (λ (t : Bytes × Bytes).
    split_at 8 t.1 >>= (λ (m : Bytes × Bytes). split_at 32 m.1 >>= read_content t.0 m.0))

unfoldable pub seal_to_bytes : EncryptedRecord → Bytes
unfolding to_le_bytes
seal_to_bytes e =
    to_le_bytes 4 (length e.encrypted_record) ++ (e.encrypted_record ++ e.encrypted_decryption_key)

unfoldable pub seal_from_bytes : Bytes → Outcome EncryptedRecord
unfolding split_at from_le_bytes
seal_from_bytes buf = split_at 4 buf >>= (λ (l : Bytes × Bytes).
    split_at (from_le_bytes l.0) l.1 >>= (λ (e : Bytes × Bytes).
      done (record { encrypted_record = e.0; encrypted_decryption_key = e.1 })))

-- `sign key bytes`, `verify public bytes signature`, `public key`, and HPKE.
pub record Crypto : Type 0 where
  pub sign : Bytes → Bytes → Bytes
  pub verify : Bytes → Bytes → Bytes → Bool
  pub public : Bytes → Bytes
  pub encrypt : Bytes → Bytes → Bytes
  pub decrypt : Bytes → Bytes → Option Bytes

unfoldable pub same_bytes : Bytes → Bytes → Bool
same_bytes [] [] = true
same_bytes [] (b ∷ bs) = false
same_bytes (a ∷ rest) [] = false
same_bytes (a ∷ rest) (b ∷ bs) = eqb a b && same_bytes rest bs

module _ (crypto : Crypto) where
  -- `Record::sign` of the content's bytes.
  unfoldable pub sign : Bytes → ℕ → Bytes → Bytes → Bytes → Record
  unfolding to_le_bytes
  sign topic unix_minute node_id content signing_key = record {
    topic = topic;
    unix_minute = unix_minute;
    pub_key = node_id;
    content = content;
    signature =
        crypto.sign signing_key (topic ++ (to_le_bytes 8 unix_minute ++ (node_id ++ content)));
  }

  unfoldable pub verify : Record → Bytes → ℕ → Bool
  unfolding to_bytes same_bytes
  verify r topic unix_minute =
      let bytes = to_bytes r in
      same_bytes r.topic topic
      && (eqb r.unix_minute unix_minute
          && crypto.verify r.pub_key (take (length bytes - 64) bytes) r.signature)

  -- The one-time key is drawn at random.
  unfoldable pub encrypt : Bytes → Bytes → Record → EncryptedRecord
  unfolding to_bytes
  encrypt one_time_key encryption_key r = record {
    encrypted_record = crypto.encrypt (crypto.public one_time_key) (to_bytes r);
    encrypted_decryption_key = crypto.encrypt (crypto.public encryption_key) one_time_key;
  }

  unfoldable pub decrypt_with : Option Bytes → Bytes → Outcome (Result Record)
  unfolding from_bytes
  decrypt_with none sealed = done err
  decrypt_with (some key) sealed =
      if eqb (length key) 32
      then elim (crypto.decrypt key sealed) [ none ↦ done err | some bytes ↦ from_bytes bytes ]
      else done err

  unfoldable pub decrypt : Bytes → EncryptedRecord → Outcome (Result Record)
  unfolding decrypt_with
  decrypt key e = decrypt_with (crypto.decrypt key e.encrypted_decryption_key) e.encrypted_record

  unfoldable pub keep : Bytes → Bytes → ℕ → Result Record → Option Record
  unfolding verify same_bytes
  keep own topic unix_minute err = none
  keep own topic unix_minute (ok r) =
      if verify r topic unix_minute
      then (if same_bytes r.pub_key own then none else some r)
      else none

  -- The closure of `get_records` on a value of the DHT.
  unfoldable pub read_value : Bytes → Bytes → Bytes → ℕ → Bytes → Outcome (Option Record)
  unfolding seal_from_bytes decrypt keep
  read_value own key topic unix_minute value =
      seal_from_bytes value >>= (λ e. decrypt key e >>= (λ r. done (keep own topic unix_minute r)))

  abbrev pub same_record : Record → Record → Bool
  same_record a b =
      same_bytes a.topic b.topic
      && (eqb a.unix_minute b.unix_minute
          && (same_bytes a.pub_key b.pub_key
              && (same_bytes a.content b.content && same_bytes a.signature b.signature)))

  unfoldable pub has_record : Record → List Record → Bool
  has_record r [] = false
  has_record r (s ∷ records) =
      let rest = has_record r records in if same_record s r then true else rest

  -- `collect::<HashSet<_>>()`
  unfoldable pub insert : Option Record → List Record → List Record
  unfolding has_record
  insert none records = records
  insert (some r) records = if has_record r records then records else r ∷ records

  unfoldable pub get_records : Bytes → Bytes → Bytes → ℕ → List Bytes → Outcome (List Record)
  unfolding read_value insert
  get_records own key topic unix_minute [] = done []
  get_records own key topic unix_minute (v ∷ values) =
      read_value own key topic unix_minute v
      >>= (λ o. get_records own key topic unix_minute values >>= (λ rs. done (insert o rs)))

  abbrev pub max_bootstrap_records : ℕ
  max_bootstrap_records = 100

  -- `publish_record`: the value put into the DHT, if there is room.
  unfoldable pub publish_record :
      Bytes → Bytes → Bytes → Record → List Bytes → Outcome (Option Bytes)
  unfolding get_records seal_to_bytes encrypt
  publish_record one_time_key key own r values =
      get_records own key r.topic r.unix_minute values >>= (λ records. done (
        if ltb (length records) max_bootstrap_records
        then some (seal_to_bytes (encrypt one_time_key key r))
        else none))
