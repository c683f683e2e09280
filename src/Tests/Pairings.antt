-- ===== src/Tests/Pairings.antt =====
-- Runs of internal/pairing/manager.go over the store of fake_store.go.
use talka.Prelude.{◌≡◌, ◌≢◌, refl, some, none, List, [], ◌∷◌, ◌++◌, ok, arith, replicate}
use talka.Prelude.Int.{pos}
use talka.Prelude.Bytes.{Bytes, codes, read_full}
use talka.Crypto.{
  compute_shared_secret, random_session_id, derive_session_keys, generate_x25519_key_pair,
  compute_resume_confirmation, compute_pairing_confirmation, compute_transcript_mac,
}
use talka.Session.{State, StateMachine, new_state_machine}
use talka.Pairing.{
  Config, PendingPairing, PairingRequest, ResumeRequest, PairingResult, TrustedDevice,
}
use talka.Pairing.FakeStore.{
  FakeStore, fake_store, fake_store-StoreLaws, empty_store, load_trusted_device,
  save_trusted_device, load_local_identity,
}
use talka.Prelude.Dict.{lookup, insert}
use talka.Pairing.World.{World, Readings}
use talka.Pairing.Transcripts.{
  expected_confirmation, validate_public_key, resume_confirmation, resume_transcript,
}
use talka.Pairing.Manager.{
  complete, complete_pending, confirm, establish, resume, load_or_create_local_identity,
}
use talka.Pairing.Confirmation.{Confirmed, complete-Confirmed}
use talka.Pairing.Lockout.{attempts, WithinLimit, attempts-WithinLimit}
use talka.Pairing.Trust.{resume_ok}
use talka.Tests.{toy_primitives}

abbrev pub config : Config
config = record {
  server_device_id = codes "mac";
  server_device_name = codes "Mac";
  pairing_ttl = pos 120;
  inactivity_timeout = pos 30;
  max_failures = pos 3;
}

abbrev pub pending : PendingPairing
pending = record {
  pairing_id = codes "ab";
  pin = codes "123456";
  expires_at = 120;
  failures = 0;
  server_identity = record { private = 1 ∷ []; public = 1 ∷ [] };
  server_ephemeral = record { private = 2 ∷ []; public = 2 ∷ [] };
}

abbrev pub world : World FakeStore
world = record { store = empty_store; rand = replicate 40 5; pending = some pending }

abbrev readings : Readings
readings = record { checked = 10; started = 11; paired = 12; seen = 13 }

abbrev wrong_request : PairingRequest
wrong_request = record {
  pairing_id = codes "ab";
  client_device_id = codes "phone";
  client_device_name = codes "Phone";
  client_identity_public_key = 3 ∷ [];
  client_ephemeral_public_key = 4 ∷ [];
  client_confirmation = [];
}

-- The two shared secrets, and what the phone has to confirm.
abbrev secrets : List Bytes
secrets = (2 ∷ 4 ∷ []) ∷ (1 ∷ 3 ∷ []) ∷ []

abbrev expected : Bytes
expected = codes "123456" ++ replicate 26 1

abbrev pub request : PairingRequest
request = record wrong_request { client_confirmation = expected }

expects : expected_confirmation toy_primitives config pending wrong_request ≡ ok (secrets, expected)
unfolding expected_confirmation compute_shared_secret compute_pairing_confirmation
    compute_transcript_mac
expects = refl

abbrev device : TrustedDevice
device = record {
  device_id = codes "phone";
  device_name = codes "Phone";
  identity_public_key = 3 ∷ [];
  paired_at = 12;
  last_seen_at = 13;
}

abbrev pub machine : StateMachine
machine = record {
  session_id = replicate 32 5;
  send_key = replicate 32 0;
  receive_key = replicate 32 5;
  inactivity_timeout = pos 30;
  state = State.active;
  last_activity = 11;
  next_local_seq = 1;
  last_remote_seq = 0;
  seen_remote_seq = [];
}

abbrev result : PairingResult
result = record {
  pairing_id = codes "ab";
  session_id = replicate 32 5;
  client_device_id = codes "phone";
  client_device_name = codes "Phone";
  server_device_id = codes "mac";
  server_device_name = codes "Mac";
  server_identity_public_key = 1 ∷ [];
  server_ephemeral_public_key = 2 ∷ [];
  confirmation = expected;
  server_session = machine;
  device = device;
}

abbrev paired : World FakeStore
paired = record {
  store = record { local = none; trusted = (codes "phone", device) ∷ [] };
  rand = replicate 8 5;
  pending = none;
}

pairs : complete toy_primitives fake_store config readings request world ≡ (paired, ok result)
unfolding complete complete_pending confirm establish expected_confirmation validate_public_key
    compute_shared_secret compute_pairing_confirmation compute_transcript_mac random_session_id
    read_full derive_session_keys new_state_machine save_trusted_device insert
pairs = refl

complete-Confirmed_example :
    Confirmed toy_primitives fake_store config readings request world paired result
complete-Confirmed_example =
    complete-Confirmed toy_primitives fake_store config readings request world paired result pairs

-- Four wrong confirmations.
abbrev guesses : List (Readings × PairingRequest)
guesses =
    (readings, wrong_request)
    ∷ (readings, wrong_request)
    ∷ (readings, wrong_request)
    ∷ (readings, wrong_request)
    ∷ []

attempts-WithinLimit_example :
    WithinLimit toy_primitives fake_store config
      (attempts toy_primitives fake_store config guesses world).pending
attempts-WithinLimit_example =
    attempts-WithinLimit toy_primitives fake_store config guesses world (omega arith)

abbrev tired : PendingPairing
tired = record pending { failures = 3 }

abbrev resume_request : ResumeRequest
resume_request = record {
  pairing_id = codes "ab";
  client_device_id = codes "phone";
  client_device_name = codes "Phone";
  client_identity_public_key = 3 ∷ [];
  client_ephemeral_public_key = 4 ∷ [];
}

no_device :
    (d : TrustedDevice)
    → fake_store.load_trusted_device (codes "phone") empty_store ≡ ok d
    → d.identity_public_key ≢ 3 ∷ []
unfolding load_trusted_device lookup
no_device d e same = cc

-- The store has the phone and the server's own identity.
abbrev pub trusting : World FakeStore
trusting = record {
  store = record {
    local = some (record { private_key = 1 ∷ []; public_key = 1 ∷ [] });
    trusted = (codes "phone", device) ∷ [];
  };
  rand = replicate 40 5;
  pending = none;
}

abbrev resumed : World FakeStore
resumed = record trusting {
  store = record (trusting.store) {
    trusted = (codes "phone", record device { last_seen_at = 21 }) ∷ [];
  };
  rand = replicate 6 5;
}

abbrev resumed_result : PairingResult
resumed_result = record result {
  server_ephemeral_public_key = 5 ∷ 5 ∷ [];
  confirmation = codes "phone" ++ replicate 27 1;
  server_session = record machine { last_activity = 20 };
  device = record device { last_seen_at = 21 };
}

resumes :
    resume toy_primitives fake_store config 20 21 resume_request trusting
    ≡ (resumed, ok resumed_result)
unfolding resume establish load_trusted_device lookup load_or_create_local_identity
    load_local_identity generate_x25519_key_pair read_full resume_confirmation compute_shared_secret
    compute_resume_confirmation random_session_id derive_session_keys new_state_machine
    save_trusted_device insert compute_transcript_mac resume_transcript
resumes = refl

resume_ok_example :
    (d : TrustedDevice) × (fake_store.load_trusted_device (codes "phone") trusting.store ≡ ok d)
    × (d.identity_public_key ≡ 3 ∷ [])
    × (resumed_result.device ≡ record d { last_seen_at = 21 })
    × (resumed.pending ≡ trusting.pending)
resume_ok_example =
    resume_ok toy_primitives fake_store fake_store-StoreLaws config 20 21 resume_request trusting
      resumed resumed_result resumes
