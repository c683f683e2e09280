-- ===== src/Crypto.antt =====
-- internal/crypto/crypto.go. X25519, SHA-256, HMAC and HKDF are the parameter `Primitives`; what the
-- code builds of them is modelled, byte for byte.
pub mod Injective
pub mod Keys
use talka.Prelude.{
  ℕ, ◌≤◌, ◌≡◌, Bool, not, Option, none, some, List, [], ◌∷◌, ◌++◌, Result, ok, err, ◌>>=◌, ◌>>◌,
  guard, or_fail, length, take, drop,
}
use talka.Prelude.Bytes.{Bytes, codes, is_empty, read_full}
use talka.Prelude.Words.{be32, u32}

abbrev pub session_id_size : ℕ
session_id_size = 32

abbrev pub pairing_confirmation_key_info : Bytes
pairing_confirmation_key_info = codes "talka/pairing-confirmation-key/v1"

abbrev pub resume_confirmation_key_info : Bytes
resume_confirmation_key_info = codes "talka/resume-confirmation-key/v1"

abbrev pub session_key_derivation_info : Bytes
session_key_derivation_info = codes "talka/session-keys/v1"

abbrev pub session_key_bytes : ℕ
session_key_bytes = 32

abbrev pub total_session_key_material_bytes : ℕ
total_session_key_material_bytes = 64

-- `sha256.Size`.
abbrev pub sha256_size : ℕ
sha256_size = 32

abbrev pub Flow : Type 0
Flow = Bytes

abbrev pub flow_pairing : Flow
flow_pairing = codes "pairing"

abbrev pub flow_resume : Flow
flow_resume = codes "resume"

-- A private key is its bytes.
pub record KeyPair : Type 0 where
  pub private : Bytes
  pub public : Bytes

pub record Transcript : Type 0 where
  pub version : Bytes
  pub flow : Flow
  pub pairing_id : Bytes
  pub client_device_id : Bytes
  pub client_device_name : Bytes
  pub server_device_id : Bytes
  pub server_device_name : Bytes
  pub client_ephemeral_public_key : Bytes
  pub server_ephemeral_public_key : Bytes
  pub client_identity_public_key : Bytes
  pub server_identity_public_key : Bytes

pub record SessionKeys : Type 0 where
  pub client_to_server_key : Bytes
  pub server_to_client_key : Bytes

pub data Error : Type 0 where
  generate_failed private_key_required invalid_public_key ecdh_failed pin_required : Error
  session_id_required rand_failed hkdf_failed : Error

-- `crypto/ecdh` on X25519, `crypto/sha256`, `crypto/hmac` and `x/crypto/hkdf`. `generate_key` draws
-- from a random source and gives what is left of it; `hkdf` reads so many bytes.
pub record Primitives : Type 0 where
  pub generate_key : Bytes → Option (Bytes × Bytes)
  pub public_of : Bytes → Bytes
  pub is_private_key : Bytes → Bool
  pub is_public_key : Bytes → Bool
  pub ecdh : Bytes → Bytes → Option Bytes
  pub sha256 : Bytes → Bytes
  pub hmac_sha256 : Bytes → Bytes → Bytes
  pub hkdf_sha256 : Bytes → Bytes → Bytes → ℕ → Option Bytes

write_bytes : Bytes → Bytes → Bytes
write_bytes buffer value = buffer ++ (be32 (u32 (length value)) ++ value)

pub marshal_transcript : Transcript → Bytes
marshal_transcript t =
    let b1 = write_bytes [] t.version in
    let b2 = write_bytes b1 t.flow in
    let b3 = write_bytes b2 t.pairing_id in
    let b4 = write_bytes b3 t.client_device_id in
    let b5 = write_bytes b4 t.client_device_name in
    let b6 = write_bytes b5 t.server_device_id in
    let b7 = write_bytes b6 t.server_device_name in
    let b8 = write_bytes b7 t.client_ephemeral_public_key in
    let b9 = write_bytes b8 t.server_ephemeral_public_key in
    let b10 = write_bytes b9 t.client_identity_public_key in
    write_bytes b10 t.server_identity_public_key

join_from : Bytes → List Bytes → Bytes
join_from buffer [] = buffer
join_from buffer (secret ∷ secrets) = join_from (write_bytes buffer secret) secrets

pub join_secrets : List Bytes → Bytes
unfolding join_from
join_secrets secrets = join_from [] secrets

-- The session id, and what the source still holds.
unfoldable pub random_session_id : Bytes → Option (Bytes × Bytes)
random_session_id rand = read_full session_id_size rand

module _ (p : Primitives) where
  unfoldable pub generate_x25519_key_pair : Bytes → Option (KeyPair × Bytes)
  generate_x25519_key_pair rand = elim (p.generate_key rand) [
    | none ↦ none
    | some (key, rest) ↦ some (record { private = key; public = p.public_of key }, rest)
  ]

  -- `none` is a nil private key.
  unfoldable pub compute_shared_secret : Option Bytes → Bytes → Result Error Bytes
  compute_shared_secret private_key peer = do
    private ← or_fail private_key Error.private_key_required
    guard (p.is_public_key peer) Error.invalid_public_key
    or_fail (p.ecdh private peer) Error.ecdh_failed

  unfoldable pub compute_transcript_mac : Bytes → Transcript → Bytes
  compute_transcript_mac key t = p.hmac_sha256 key (marshal_transcript t)

  unfoldable pub compute_pairing_confirmation : List Bytes → Bytes → Transcript → Result Error Bytes
  compute_pairing_confirmation secrets pin t = do
    guard (not (is_empty pin)) Error.pin_required
    key ←
        or_fail (p.hkdf_sha256 (join_secrets secrets) pin pairing_confirmation_key_info sha256_size)
          Error.hkdf_failed
    ok (compute_transcript_mac key t)

  unfoldable pub compute_resume_confirmation : List Bytes → Transcript → Result Error Bytes
  compute_resume_confirmation secrets t = do
    key ←
        or_fail
          (p.hkdf_sha256 (join_secrets secrets) t.client_device_id resume_confirmation_key_info
            sha256_size)
          Error.hkdf_failed
    ok (compute_transcript_mac key t)

  unfoldable pub derive_session_keys : List Bytes → Bytes → Transcript → Result Error SessionKeys
  derive_session_keys secrets session_id t = do
    guard (not (is_empty session_id)) Error.session_id_required
    material ←
        or_fail
          (p.hkdf_sha256 (join_secrets secrets) (session_id ++ p.sha256 (marshal_transcript t))
            session_key_derivation_info total_session_key_material_bytes)
          Error.hkdf_failed
    ok (record {
      client_to_server_key = take session_key_bytes material;
      server_to_client_key = drop session_key_bytes material;
    })
