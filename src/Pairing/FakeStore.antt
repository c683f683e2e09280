-- ===== src/Pairing/FakeStore.antt =====
-- internal/pairing/fake_store.go. A value that is stored
-- or returned is a copy in the source, so no caller shares it.
use talka.Prelude.{
  ◌≡◌, refl, Option, none, some, List, [], Result, ok, err, or_fail, arith, if◌then◌else◌,
}
use talka.Prelude.Bytes.{Bytes, bytes_eq}
use talka.Prelude.Dict.{lookup, insert, delete, lookup-insert, lookup-delete}
use talka.Pairing.{Error, LocalIdentity, TrustedDevice, Store, StoreLaws}

-- The map is an association list.
pub record FakeStore : Type 0 where
  pub local : Option LocalIdentity
  pub trusted : List (Bytes × TrustedDevice)

abbrev pub empty_store : FakeStore
empty_store = record { local = none; trusted = [] }

unfoldable pub load_local_identity : FakeStore → Result Error LocalIdentity
load_local_identity s = or_fail s.local Error.local_identity_not_found

unfoldable pub save_local_identity : LocalIdentity → FakeStore → FakeStore × Result Error (Unit {0})
save_local_identity i s = (record s { local = some i }, ok tt)

unfoldable pub load_trusted_device : Bytes → FakeStore → Result Error TrustedDevice
load_trusted_device id s = or_fail (lookup id s.trusted) Error.unknown_device

unfoldable pub save_trusted_device : TrustedDevice → FakeStore → FakeStore × Result Error (Unit {0})
save_trusted_device d s = (record s { trusted = insert d.device_id d s.trusted }, ok tt)

unfoldable pub delete_trusted_device : Bytes → FakeStore → FakeStore × Result Error (Unit {0})
delete_trusted_device id s = (record s { trusted = delete id s.trusted }, ok tt)

abbrev pub fake_store : Store FakeStore
fake_store = record {
  load_local_identity = load_local_identity;
  save_local_identity = save_local_identity;
  load_trusted_device = load_trusted_device;
  save_trusted_device = save_trusted_device;
  delete_trusted_device = delete_trusted_device;
}

load-save :
    (d : TrustedDevice) (id : Bytes) (s : FakeStore)
    → load_trusted_device id (save_trusted_device d s).0
      ≡ (if bytes_eq d.device_id id then ok d else load_trusted_device id s)
unfolding load_trusted_device save_trusted_device
load-save d id s = ground (arith, lookup-insert d.device_id id d s.trusted)

load-delete :
    (k id : Bytes) (s : FakeStore)
    → load_trusted_device id (delete_trusted_device k s).0
      ≡ (if bytes_eq k id then err Error.unknown_device else load_trusted_device id s)
unfolding load_trusted_device delete_trusted_device
load-delete k id s = ground (arith, lookup-delete k id s.trusted)

-- The in-memory store is a store: after `SaveTrustedDevice`, `DeleteTrustedDevice` and
-- `SaveLocalIdentity` the loads give what was written, under exactly the ids that were written.
pub fake_store-StoreLaws : StoreLaws fake_store
fake_store-StoreLaws = record {
  load-save = λ d id s _ _. load-save d id s;
  load-save_other = λ d id s other. ground (arith, load-save d id s, other);
  load-delete = λ k id s _. load-delete k id s;
  load-save_local = λ i s _. unfold load_local_identity save_local_identity in refl;
  load_device-save_local = λ i id s. unfold load_trusted_device save_local_identity in refl;
}
