-- ===== src/Pairing.antt =====
-- internal/pairing: the pairing of a phone by PIN, and the resumption of a paired phone.
-- errors.go, the data of store.go and manager.go, and the interface `Store`.
pub mod FakeStore
pub mod Pin
pub mod World
pub mod Transcripts
pub mod Manager
pub mod Confirmation
pub mod Lockout
pub mod Trust
pub mod Pending
pub mod Keychain
use talka.Prelude.{
  ℕ, zero, suc, ◌≡◌, Bool, true, false, ◌&&◌, ltb, leb, ◌==◌, Option, none, some, [], ◌∷◌, Result,
  ok, err, if◌then◌else◌,
}
use talka.Prelude.Int.{ℤ}
use talka.Prelude.Bytes.{Bytes, bytes_eq}
use talka.Crypto.{KeyPair}
use talka.Crypto
use talka.Session.{StateMachine}
use talka.Session

-- The errors of errors.go first; `store_failed` is any other error of a store.
pub data Error : Type 0 where
  unknown_device invalid_pin expired_pin rate_limited local_identity_not_found : Error
  public_key_required invalid_public_key invalid_private_key rand_failed store_failed : Error
  crypto_failed : Crypto.Error → Error
  session_failed : Session.Error → Error

pub record LocalIdentity : Type 0 where
  pub private_key : Bytes
  pub public_key : Bytes

pub record TrustedDevice : Type 0 where
  pub device_id : Bytes
  pub device_name : Bytes
  pub identity_public_key : Bytes
  pub paired_at : ℕ
  pub last_seen_at : ℕ

-- The interface `Store`; `S` is what a store holds.
pub record Store (S : Type 0) : Type 0 where
  pub load_local_identity : S → Result Error LocalIdentity
  pub save_local_identity : LocalIdentity → S → S × Result Error (Unit {0})
  pub load_trusted_device : Bytes → S → Result Error TrustedDevice
  pub save_trusted_device : TrustedDevice → S → S × Result Error (Unit {0})
  pub delete_trusted_device : Bytes → S → S × Result Error (Unit {0})

-- What a text can be, as `utf8.Valid` has it: how many bytes have to follow the first byte of a
-- character, and the bounds of the next of them.
abbrev lead : ℕ → Option (ℕ × (ℕ × ℕ))
lead x =
    if ltb x 128
    then some (0, (128, 191))
    else if ltb x 194
    then none
    else if ltb x 224
    then some (1, (128, 191))
    else if x == 224
    then some (2, (160, 191))
    else if x == 237
    then some (2, (128, 159))
    else if ltb x 240
    then some (2, (128, 191))
    else if x == 240
    then some (3, (144, 191))
    else if ltb x 244
    then some (3, (128, 191))
    else if x == 244
    then some (3, (128, 143))
    else none

abbrev utf8_from : ℕ → ℕ → ℕ → Bytes → Bool
utf8_from zero low high [] = true
utf8_from (suc n) low high [] = false
utf8_from zero low high (x ∷ xs) = elim (lead x) [
  | none ↦ false
  | some (n, (low', high')) ↦ utf8_from n low' high' xs
]
utf8_from (suc n) low high (x ∷ xs) = leb low x && leb x high && utf8_from n 128 191 xs

abbrev pub Storable : TrustedDevice → Type 0
Storable d = (utf8_from 0 128 191 d.device_id ≡ true) × (utf8_from 0 128 191 d.device_name ≡ true)

-- What a pairing manager relies on in a store: a device whose texts are valid UTF-8 is loaded under
-- its id as it was saved, until it is deleted, other devices are not touched, and an identity that
-- was saved is loaded.
pub record StoreLaws {S : Type 0} (st : Store S) : Type 0 where
  pub load-save :
      (d : TrustedDevice) (id : Bytes) (s : S)
      → Storable d
      → (st.save_trusted_device d s).1 ≡ ok tt
      → st.load_trusted_device id (st.save_trusted_device d s).0
        ≡ (if bytes_eq d.device_id id then ok d else st.load_trusted_device id s)
  pub load-save_other :
      (d : TrustedDevice) (id : Bytes) (s : S)
      → bytes_eq d.device_id id ≡ false
      → st.load_trusted_device id (st.save_trusted_device d s).0 ≡ st.load_trusted_device id s
  pub load-delete :
      (k id : Bytes) (s : S)
      → (st.delete_trusted_device k s).1 ≡ ok tt
      → st.load_trusted_device id (st.delete_trusted_device k s).0
        ≡ (if bytes_eq k id then err Error.unknown_device else st.load_trusted_device id s)
  pub load-save_local :
      (i : LocalIdentity) (s : S)
      → (st.save_local_identity i s).1 ≡ ok tt
      → st.load_local_identity (st.save_local_identity i s).0 ≡ ok i
  pub load_device-save_local :
      (i : LocalIdentity) (id : Bytes) (s : S)
      → st.load_trusted_device id (st.save_local_identity i s).0 ≡ st.load_trusted_device id s

pub record Config : Type 0 where
  pub server_device_id : Bytes
  pub server_device_name : Bytes
  pub pairing_ttl : ℤ
  pub inactivity_timeout : ℤ
  pub max_failures : ℤ

pub record PendingPairing : Type 0 where
  pub pairing_id : Bytes
  pub pin : Bytes
  pub expires_at : ℕ
  pub failures : ℕ
  pub server_identity : KeyPair
  pub server_ephemeral : KeyPair

pub record StartResponse : Type 0 where
  pub pairing_id : Bytes
  pub pin : Bytes
  pub expires_at : ℕ
  pub server_identity_public_key : Bytes
  pub server_ephemeral_public_key : Bytes

pub record PairingRequest : Type 0 where
  pub pairing_id : Bytes
  pub client_device_id : Bytes
  pub client_device_name : Bytes
  pub client_identity_public_key : Bytes
  pub client_ephemeral_public_key : Bytes
  pub client_confirmation : Bytes

pub record ResumeRequest : Type 0 where
  pub pairing_id : Bytes
  pub client_device_id : Bytes
  pub client_device_name : Bytes
  pub client_identity_public_key : Bytes
  pub client_ephemeral_public_key : Bytes

-- `PairingResult` and `ResumeResult`, which have the same fields.
pub record PairingResult : Type 0 where
  pub pairing_id : Bytes
  pub session_id : Bytes
  pub client_device_id : Bytes
  pub client_device_name : Bytes
  pub server_device_id : Bytes
  pub server_device_name : Bytes
  pub server_identity_public_key : Bytes
  pub server_ephemeral_public_key : Bytes
  pub confirmation : Bytes
  pub server_session : StateMachine
  pub device : TrustedDevice
