-- ===== src/Crypto/Keys.antt =====
-- The session keys of internal/crypto/crypto.go, and what the code relies on in the primitives.
use talka.Prelude.{
  ℕ, ◌≤◌, ◌*◌, ◌≡◌, ◌≢◌, some, List, [], ◌++◌, ok, arith, length, length-take, length-drop,
  take-append-drop, take, drop,
}
use talka.Prelude.Bytes.{Bytes}
use talka.Crypto.{
  Primitives, Transcript, SessionKeys, sha256_size, session_key_bytes, marshal_transcript,
  total_session_key_material_bytes, join_secrets, derive_session_keys, session_key_derivation_info,
}

-- HKDF over SHA-256 yields what is asked for up to 255 blocks of 32 bytes, and exactly that many
-- bytes.
pub record PrimitivesLaws (p : Primitives) : Type 0 where
  pub hkdf_yields :
      (secret salt info : Bytes) (size : ℕ)
      → size ≤ 255 * sha256_size
      → (out : Bytes) × (p.hkdf_sha256 secret salt info size ≡ some out) × (length out ≡ size)

-- The keys of a session are the two halves of the derived material.
pub record Halves (keys : SessionKeys) (material : Bytes) : Type 0 where
  pub joined : keys.client_to_server_key ++ keys.server_to_client_key ≡ material
  pub client_half : length keys.client_to_server_key ≡ session_key_bytes
  pub server_half : length keys.server_to_client_key ≡ session_key_bytes

module _ (p : Primitives) (laws : PrimitivesLaws p) where
  -- With an HKDF that yields what it is asked for, for any secrets and transcript, a session id that is not empty gives two keys of 32 bytes, the
  -- two halves of the material that is derived from the secrets, the session id and the
  -- transcript, the client's sending key first.
  pub derive_session_keys_total :
      (secrets : List Bytes) (session_id : Bytes) (t : Transcript)
      → session_id ≢ []
      → (material : Bytes) × (keys : SessionKeys) × (p.hkdf_sha256
            (join_secrets secrets)
            (session_id ++ p.sha256 (marshal_transcript t))
            session_key_derivation_info
            total_session_key_material_bytes
          ≡ some material)
        × (derive_session_keys p secrets session_id t ≡ ok keys)
        × Halves keys material
  unfolding derive_session_keys
  derive_session_keys_total secrets session_id t h =
      let (material, derived, size) =
        laws.hkdf_yields (join_secrets secrets) (session_id ++ p.sha256 (marshal_transcript t))
          session_key_derivation_info total_session_key_material_bytes (omega arith) in
      (
        material,
        record {
          client_to_server_key = take session_key_bytes material;
          server_to_client_key = drop session_key_bytes material;
        },
        derived,
        ground (arith, derived),
        record {
          joined = take-append-drop session_key_bytes material;
          client_half = omega (arith, length-take session_key_bytes material);
          server_half = omega (arith, length-drop session_key_bytes material);
        },
      )
