-- ===== src/Pairing/Keychain.antt =====
-- internal/pairing/store_darwin.go: the store that keeps identities in the keychain, through the
-- command `security`, which is a parameter: what it prints, and the text of its error if it fails.
pub mod Laws
use talka.Prelude.{
  Bool, true, false, ◌||◌, Option, none, some, List, [], ◌∷◌, ◌++◌, Result, ok, err, if◌then◌else◌,
}
use talka.Prelude.Bytes.{Bytes, codes}
use talka.Prelude.Text.{trim_space, contains}
use talka.Prelude.Base64.{encode_to_string, decode_string}
use talka.Pairing.{Error, LocalIdentity, TrustedDevice, Store}

pub record Output : Type 0 where
  pub text : Bytes
  pub error : Option Bytes

-- The keychain `K` and the command on it, by its arguments; encoding/json.
pub record Keychain (K : Type 0) : Type 0 where
  pub runner : List Bytes → K → K × Output
  pub marshal_identity : LocalIdentity → Option Bytes
  pub marshal_device : TrustedDevice → Option Bytes
  pub unmarshal_identity : Bytes → Option LocalIdentity
  pub unmarshal_device : Bytes → Option TrustedDevice

abbrev pub keychain_service_name : Bytes
keychain_service_name = codes "talka.trusted-device"

abbrev pub identity_account : Bytes
identity_account = codes "local-identity"

abbrev pub device_account : Bytes → Bytes
device_account id = codes "device:" ++ id

abbrev pub find_arguments : Bytes → List Bytes
find_arguments account =
    codes "find-generic-password"
    ∷ codes "-a"
    ∷ account
    ∷ codes "-s"
    ∷ keychain_service_name
    ∷ codes "-w"
    ∷ []

abbrev pub add_arguments : Bytes → Bytes → List Bytes
add_arguments account encoded =
    codes "add-generic-password"
    ∷ codes "-a"
    ∷ account
    ∷ codes "-s"
    ∷ keychain_service_name
    ∷ codes "-w"
    ∷ encoded
    ∷ codes "-U"
    ∷ []

abbrev pub delete_arguments : Bytes → List Bytes
delete_arguments account =
    codes "delete-generic-password" ∷ codes "-a" ∷ account ∷ codes "-s" ∷ keychain_service_name ∷ []

-- `isKeychainNotFound`.
unfoldable pub is_keychain_not_found : Output → Bool
is_keychain_not_found o = elim o.error [
  | none ↦ false
  | some message ↦
      let said = message ++ 10 ∷ o.text in
      contains said (codes "could not be found")
      || contains said (codes "The specified item could not be found")
]

-- `loadAccount`, from the output of the command on; `read` is `json.Unmarshal`.
unfoldable pub read_account : {T : Type 0} → Error → (Bytes → Option T) → Output → Result Error T
read_account missing read o = elim o.error [
  | some message ↦ if is_keychain_not_found o then err missing else err Error.store_failed
  | none ↦ elim (decode_string (trim_space o.text)) [
    | none ↦ err Error.store_failed
    | some decoded ↦ elim (read decoded) [ none ↦ err Error.store_failed | some t ↦ ok t ]
  ]
]

abbrev pub no_error : Output → Bool
no_error o = elim o.error [ none ↦ true | some message ↦ false ]

abbrev pub succeeded : Output → Result Error (Unit {0})
succeeded o = elim o.error [ none ↦ ok tt | some message ↦ err Error.store_failed ]

-- Looking an account up does not change the keychain, so what the command makes of it is dropped.
module _ {K : Type 0} (keychain : Keychain K) where
  abbrev pub found_under : Bytes → K → Output
  found_under account k = (keychain.runner (find_arguments account) k).1

  unfoldable pub save_account : Bytes → Option Bytes → K → K × Result Error (Unit {0})
  save_account account none k = (k, err Error.store_failed)
  save_account account (some payload) k =
      let (k', o) = keychain.runner (add_arguments account (encode_to_string payload)) k in
      (k', succeeded o)

  unfoldable pub load_local_identity : K → Result Error LocalIdentity
  load_local_identity k =
      read_account Error.local_identity_not_found keychain.unmarshal_identity
        (found_under identity_account k)

  unfoldable pub save_local_identity : LocalIdentity → K → K × Result Error (Unit {0})
  save_local_identity i k = save_account identity_account (keychain.marshal_identity i) k

  unfoldable pub load_trusted_device : Bytes → K → Result Error TrustedDevice
  load_trusted_device id k =
      read_account Error.unknown_device keychain.unmarshal_device
        (found_under (device_account id) k)

  unfoldable pub save_trusted_device : TrustedDevice → K → K × Result Error (Unit {0})
  save_trusted_device d k = save_account (device_account d.device_id) (keychain.marshal_device d) k

  unfoldable pub delete_trusted_device : Bytes → K → K × Result Error (Unit {0})
  delete_trusted_device id k =
      let (k', o) = keychain.runner (delete_arguments (device_account id)) k in
      (k', if is_keychain_not_found o then ok tt else succeeded o)

  abbrev pub darwin_store : Store K
  darwin_store = record {
    load_local_identity = load_local_identity;
    save_local_identity = save_local_identity;
    load_trusted_device = load_trusted_device;
    save_trusted_device = save_trusted_device;
    delete_trusted_device = delete_trusted_device;
  }
