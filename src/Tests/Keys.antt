-- ===== src/Tests/Keys.antt =====
-- Runs of internal/crypto/crypto.go and of the PIN of internal/pairing/manager.go.
use talka.Prelude.{◌≡◌, refl, some, List, [], ◌∷◌, arith, length}
use talka.Prelude.Bytes.{Bytes, codes}
use talka.Crypto.{Transcript, flow_pairing}
use talka.Crypto.Injective.{marshal_transcript_injective}
use talka.Pairing.Pin.{random_pin, pin_length, AllDigits, random_pin_digits}

abbrev transcript : Transcript
transcript = record {
  version = codes "v1alpha1";
  flow = flow_pairing;
  pairing_id = codes "ab";
  client_device_id = codes "phone";
  client_device_name = codes "Phone";
  server_device_id = codes "mac";
  server_device_name = codes "Mac";
  client_ephemeral_public_key = 1 ∷ [];
  server_ephemeral_public_key = 2 ∷ [];
  client_identity_public_key = 3 ∷ [];
  server_identity_public_key = 4 ∷ [];
}

marshal_transcript_injective_example : transcript ≡ transcript
marshal_transcript_injective_example =
    marshal_transcript_injective transcript transcript
      (
        omega arith,
        (
          omega arith,
          (
            omega arith,
            (
              omega arith,
              (
                omega arith,
                (
                  omega arith,
                  (omega arith, (omega arith, (omega arith, (omega arith, (omega arith, tt))))),
                ),
              ),
            ),
          ),
        ),
      )
      (
        omega arith,
        (
          omega arith,
          (
            omega arith,
            (
              omega arith,
              (
                omega arith,
                (
                  omega arith,
                  (omega arith, (omega arith, (omega arith, (omega arith, (omega arith, tt))))),
                ),
              ),
            ),
          ),
        ),
      )
      refl

abbrev secrets : List Bytes
secrets = (1 ∷ []) ∷ (2 ∷ 3 ∷ []) ∷ []

-- A byte that is thrown away, and the next six.
random_pin_digits_example :
    (pin : Bytes) × (rest : Bytes) × (random_pin (251 ∷ 1 ∷ 2 ∷ 3 ∷ 4 ∷ 5 ∷ 249 ∷ [])
      ≡ some (pin, rest))
    × (length pin ≡ pin_length)
    × AllDigits pin
random_pin_digits_example = random_pin_digits (251 ∷ 1 ∷ 2 ∷ 3 ∷ 4 ∷ 5 ∷ 249 ∷ []) (omega arith)
