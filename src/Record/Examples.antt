-- ===== src/Record/Examples.antt =====
-- Records of one content byte, with signatures of zeros and a cipher that changes nothing.
use podping_alpha.Prelude.{
  ℕ, zero, suc, ◌≡◌, refl, true, false, some, [], ◌∷◌, done, panic, arith, length, ◌<◌, ◌^◌,
}
use podping_alpha.Record.{
  Bytes, Record, Crypto, to_bytes, seal_to_bytes, sign, same_bytes, encrypt, read_value,
  get_records,
}
use podping_alpha.Record.Sealed.{IsSound, get_records_short_value, read_value-sealed}

abbrev zeros : ℕ → Bytes
zeros zero = []
zeros (suc n) = 0 ∷ zeros n

abbrev crypto : Crypto
crypto = record {
  sign = λ key bytes. zeros 64;
  verify = λ key bytes s. true;
  public = λ key. key;
  encrypt = λ key bytes. bytes;
  decrypt = λ key bytes. some bytes;
}

sound : IsSound crypto
sound = record {
  verifies = λ key bytes. refl;
  signature_size = λ key bytes. refl;
  opens = λ key bytes. refl;
}

abbrev a_record : Record
a_record = record {
  topic = zeros 32;
  unix_minute = 29000000;
  pub_key = zeros 32;
  content = 5 ∷ [];
  signature = zeros 64;
}

get_records_short_value_example :
    get_records crypto [] (zeros 32) (zeros 32) 29000000 ((9 ∷ 9 ∷ []) ∷ []) ≡ panic
get_records_short_value_example =
    get_records_short_value crypto [] (zeros 32) (zeros 32) 29000000 [] (9 ∷ 9 ∷ []) []
      (omega arith)

is_other : same_bytes (zeros 32) [] ≡ false
unfolding same_bytes
is_other = refl

fits : length (to_bytes (sign crypto (zeros 32) 29000000 (zeros 32) (5 ∷ []) (zeros 32))) < 2 ^ 32
unfolding to_bytes sign
fits = omega arith

read_value-sealed_example :
    read_value crypto [] (zeros 32) (zeros 32) 29000000 (
      seal_to_bytes (
        encrypt crypto
          (zeros 32)
          (zeros 32)
          (sign crypto (zeros 32) 29000000 (zeros 32) (5 ∷ []) (zeros 32))))
    ≡ done (some (sign crypto (zeros 32) 29000000 (zeros 32) (5 ∷ []) (zeros 32)))
read_value-sealed_example =
    read_value-sealed crypto sound (zeros 32) 29000000 (5 ∷ []) (zeros 32) refl (omega arith) refl
      [] (zeros 32) (zeros 32) is_other refl fits
