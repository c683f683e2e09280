-- ===== src/Pairing/Keychain/Laws.antt =====
-- The keychain store of internal/pairing/store_darwin.go keeps what is saved in it.
use talka.Prelude.{
  ◌≡◌, refl, true, false, ◌||◌, Option, none, some, [], ◌∷◌, ◌++◌, ok, err, arith, inl, inr,
  Bool-cases, Option-cases, if◌then◌else◌,
}
use talka.Prelude.Bytes.{Bytes, AllBytes, bytes_eq, bytes_eq_iff}
use talka.Prelude.Text.Plain.{trim_space-line, encode_to_string-AllPlain}
use talka.Prelude.Base64.{encode_to_string, decode_string-encode_to_string}
use talka.Pairing.{Error, LocalIdentity, TrustedDevice, Storable, StoreLaws}
use talka.Pairing.Keychain.{
  Output, Keychain, identity_account, device_account, add_arguments, delete_arguments, no_error,
  is_keychain_not_found, read_account, found_under, save_account, load_local_identity,
  save_local_identity, load_trusted_device, save_trusted_device, delete_trusted_device,
  darwin_store,
}

-- What `security` and encoding/json are documented to do. A password that was added is printed under
-- its account, with a line feed; one that was deleted, or that could not be deleted since there was
-- none, is not found; other accounts are not touched. What was encoded is bytes. An identity, whose
-- keys are written in base64, is decoded again, and so is a device whose texts are valid UTF-8; in
-- other texts encoding/json replaces what is not valid.
pub record KeychainLaws {K : Type 0} (c : Keychain K) : Type 0 where
  pub finds_added :
      (account encoded : Bytes) (k : K)
      → (c.runner (add_arguments account encoded) k).1.error ≡ none
      → found_under c account (c.runner (add_arguments account encoded) k).0
        ≡ record { text = encoded ++ 10 ∷ []; error = none }
  pub adding_keeps :
      (account encoded j : Bytes) (k : K)
      → bytes_eq account j ≡ false
      → found_under c j (c.runner (add_arguments account encoded) k).0 ≡ found_under c j k
  pub deleted_is_gone :
      (account : Bytes) (k : K)
      → (is_keychain_not_found (c.runner (delete_arguments account) k).1
          || no_error (c.runner (delete_arguments account) k).1)
        ≡ true
      → is_keychain_not_found (found_under c account (c.runner (delete_arguments account) k).0)
        ≡ true
  pub deleting_keeps :
      (account j : Bytes) (k : K)
      → bytes_eq account j ≡ false
      → found_under c j (c.runner (delete_arguments account) k).0 ≡ found_under c j k
  pub identity_bytes : (i : LocalIdentity) (p : Bytes) → c.marshal_identity i ≡ some p → AllBytes p
  pub device_bytes : (d : TrustedDevice) (p : Bytes) → c.marshal_device d ≡ some p → AllBytes p
  pub unmarshal-marshal_identity :
      (i : LocalIdentity) (p : Bytes)
      → c.marshal_identity i ≡ some p
      → c.unmarshal_identity p ≡ some i
  pub unmarshal-marshal_device :
      (d : TrustedDevice) (p : Bytes)
      → Storable d
      → c.marshal_device d ≡ some p
      → c.unmarshal_device p ≡ some d

-- A line of the command that holds a payload is read back.
read_account-line :
    {T : Type 0} (missing : Error) (read : Bytes → Option T) (p : Bytes) (t : T)
    → AllBytes p
    → read p ≡ some t
    → read_account missing read (record { text = encode_to_string p ++ 10 ∷ []; error = none })
      ≡ ok t
unfolding read_account
read_account-line missing read p t bytes e = ground (
  arith,
  trim_space-line (encode_to_string p) (encode_to_string-AllPlain p),
  decode_string-encode_to_string p bytes,
  e,
)

no_error_found : (o : Output) → o.error ≡ none → is_keychain_not_found o ≡ true → ⊥
unfolding is_keychain_not_found
no_error_found o q e = ground (arith, q, e)

read_account-missing :
    {T : Type 0} (missing : Error) (read : Bytes → Option T) (o : Output)
    → is_keychain_not_found o ≡ true
    → read_account missing read o ≡ err missing
unfolding read_account
read_account-missing missing read o e = elim (Option-cases o.error) [
  | inr (message, q) ↦ ground (arith, q, e)
  | inl q ↦ absurd (no_error_found o q e)
]

module _ {K : Type 0} (c : Keychain K) (laws : KeychainLaws c) where
  load-save :
      (d : TrustedDevice) (id : Bytes) (k : K)
      → Storable d
      → (save_trusted_device c d k).1 ≡ ok tt
      → load_trusted_device c id (save_trusted_device c d k).0
        ≡ (if bytes_eq d.device_id id then ok d else load_trusted_device c id k)
  unfolding load_trusted_device save_trusted_device save_account
  load-save d id k storable done = elim (Option-cases (c.marshal_device d)) [
    | inl q ↦ absurd (ground (arith, q, done))
    | inr (p, q) ↦ elim (Bool-cases (bytes_eq d.device_id id)) [
      | inl same ↦
          let found =
            laws.finds_added (device_account d.device_id) (encode_to_string p) k
              (ground (arith, q, done)) in
          let line =
            read_account-line Error.unknown_device c.unmarshal_device p d (laws.device_bytes d p q)
              (laws.unmarshal-marshal_device d p storable q) in
          ground (arith, q, found, line, same, bytes_eq_iff d.device_id id)
      | inr other ↦
          let kept =
            laws.adding_keeps (device_account d.device_id) (encode_to_string p) (device_account id)
              k other in
          ground (arith, q, kept, other)
    ]
  ]

  load-save_other :
      (d : TrustedDevice) (id : Bytes) (k : K)
      → bytes_eq d.device_id id ≡ false
      → load_trusted_device c id (save_trusted_device c d k).0 ≡ load_trusted_device c id k
  unfolding load_trusted_device save_trusted_device save_account
  load-save_other d id k other = elim (Option-cases (c.marshal_device d)) [
    | inl q ↦ ground (arith, q)
    | inr (p, q) ↦
        let kept =
          laws.adding_keeps (device_account d.device_id) (encode_to_string p) (device_account id) k
            other in
        ground (arith, q, kept)
  ]

  load-delete :
      (i id : Bytes) (k : K)
      → (delete_trusted_device c i k).1 ≡ ok tt
      → load_trusted_device c id (delete_trusted_device c i k).0
        ≡ (if bytes_eq i id then err Error.unknown_device else load_trusted_device c id k)
  unfolding load_trusted_device delete_trusted_device
  load-delete i id k done = elim (Bool-cases (bytes_eq i id)) [
    | inr other ↦
        let kept = laws.deleting_keeps (device_account i) (device_account id) k other in
        ground (arith, kept, other)
    | inl same ↦
        let gone = laws.deleted_is_gone (device_account i) k (ground (arith, done)) in
        let missing =
          read_account-missing Error.unknown_device c.unmarshal_device
            (found_under c (device_account i) (c.runner (delete_arguments (device_account i)) k).0)
            gone in
        ground (arith, missing, same, bytes_eq_iff i id)
  ]

  load-save_local :
      (i : LocalIdentity) (k : K)
      → (save_local_identity c i k).1 ≡ ok tt
      → load_local_identity c (save_local_identity c i k).0 ≡ ok i
  unfolding load_local_identity save_local_identity save_account
  load-save_local i k done = elim (Option-cases (c.marshal_identity i)) [
    | inl q ↦ absurd (ground (arith, q, done))
    | inr (p, q) ↦
        let found =
          laws.finds_added identity_account (encode_to_string p) k (ground (arith, q, done)) in
        let line =
          read_account-line Error.local_identity_not_found c.unmarshal_identity p i
            (laws.identity_bytes i p q) (laws.unmarshal-marshal_identity i p q) in
        ground (arith, q, found, line)
  ]

  load_device-save_local :
      (i : LocalIdentity) (id : Bytes) (k : K)
      → load_trusted_device c id (save_local_identity c i k).0 ≡ load_trusted_device c id k
  unfolding load_trusted_device save_local_identity save_account
  load_device-save_local i id k = elim (Option-cases (c.marshal_identity i)) [
    | inl q ↦ ground (arith, q)
    | inr (p, q) ↦
        let kept =
          laws.adding_keeps identity_account (encode_to_string p) (device_account id) k refl in
        ground (arith, q, kept)
  ]

  -- If `security` and encoding/json do what is documented of them, the keychain is a store: a device
  -- whose texts are valid UTF-8, or an identity, that was saved is loaded until it is deleted, under
  -- its own account and as it was saved, and other accounts are not touched, whatever is saved.
  pub darwin_store-StoreLaws : StoreLaws (darwin_store c)
  darwin_store-StoreLaws = record {
    load-save = load-save;
    load-save_other = load-save_other;
    load-delete = load-delete;
    load-save_local = load-save_local;
    load_device-save_local = load_device-save_local;
  }
