-- ===== src/Session.antt =====
-- internal/session/session.go: the state machine of one encrypted session. Every method holds the
-- mutex from its first to its last line, so a method is one step on the state. A reading of
-- `s.now()` is an argument, in nanoseconds, and so is what the random source still holds.
-- ChaCha20-Poly1305 is the parameter `Aead`.
pub mod Header
pub mod Replay
pub mod Peers
pub mod Lifecycle
pub mod Capture
use talka.Prelude.{
  ℕ, ◌+◌, ◌-◌, ◌%◌, ◌^◌, Bool, true, false, not, ◌||◌, ◌≡◌, Option, none, some, List, [], ◌∷◌, ◌++◌,
  Result, ok, err, ◌>>=◌, ◌>>◌, guard, or_fail, if◌then◌else◌, ◌==◌, length, take, drop,
}
use talka.Prelude.Int.{ℤ, sub_ℕ, ltb_ℤ, is_positive}
use talka.Prelude.Bytes.{Bytes, codes, bytes_eq, is_empty, read_full}
use talka.Prelude.Words.{be32, be64, u32}
use talka.Protocol.{MessageType}

abbrev pub version : ℕ
version = 1

-- `chacha20poly1305.NonceSize`, `Overhead` and `KeySize`.
abbrev pub nonce_size : ℕ
nonce_size = 12

abbrev pub tag_size : ℕ
tag_size = 16

abbrev pub key_size : ℕ
key_size = 32

-- The cipher under a key: nonce, text and associated data.
pub record Aead : Type 0 where
  pub seal : Bytes → Bytes → Bytes → Bytes → Bytes
  pub unseal : Bytes → Bytes → Bytes → Bytes → Option Bytes

pub data Error : Type 0 where
  session_id_required send_key_size receive_key_size timeout_not_positive rand_failed : Error
  replay out_of_order expired forgotten session_id_mismatch wrong_nonce_size : Error
  wrong_tag_size authentication_failed : Error
  unsupported_version : ℕ → Error

pub data State : Type 0 where
  active expired forgotten : State

pub record Config : Type 0 where
  pub session_id : Bytes
  pub send_key : Bytes
  pub receive_key : Bytes
  pub inactivity_timeout : ℤ

pub record EncryptedMessage : Type 0 where
  pub version : ℕ
  pub session_id : Bytes
  pub seq : ℕ
  pub type : MessageType
  pub nonce : Bytes
  pub ciphertext : Bytes
  pub tag : Bytes

-- The two `cipherState` fields are the cipher under `send_key` and `receive_key`.
pub record StateMachine : Type 0 where
  pub session_id : Bytes
  pub send_key : Bytes
  pub receive_key : Bytes
  pub inactivity_timeout : ℤ
  pub state : State
  pub last_activity : ℕ
  pub next_local_seq : ℕ
  pub last_remote_seq : ℕ
  pub seen_remote_seq : List ℕ

-- A uint64 counter wraps.
abbrev pub next_u64 : ℕ → ℕ
next_u64 n = (n + 1) % 2 ^ 64

abbrev pub seen : ℕ → List ℕ → Bool
seen n [] = false
seen n (x ∷ xs) = x == n || seen n xs

-- `NewStateMachine`; `now` is the reading of the clock. Each key has been found to be of the size
-- that `chacha20poly1305.New` asks for, which is the only error it has.
unfoldable pub new_state_machine : Config → ℕ → Result Error StateMachine
new_state_machine c now = do
  guard (not (is_empty c.session_id)) Error.session_id_required
  guard (length c.send_key == key_size) Error.send_key_size
  guard (length c.receive_key == key_size) Error.receive_key_size
  guard (is_positive c.inactivity_timeout) Error.timeout_not_positive
  ok (record {
    session_id = c.session_id;
    send_key = c.send_key;
    receive_key = c.receive_key;
    inactivity_timeout = c.inactivity_timeout;
    state = State.active;
    last_activity = now;
    next_local_seq = 1;
    last_remote_seq = 0;
    seen_remote_seq = [];
  })

expire_active : ℕ → StateMachine → State → StateMachine
expire_active now s State.active =
    if ltb_ℤ s.inactivity_timeout (sub_ℕ now s.last_activity)
    then record s { state = State.expired }
    else s
expire_active now s State.expired = s
expire_active now s State.forgotten = s

unfoldable pub expire_if_idle : ℕ → StateMachine → StateMachine
unfolding expire_active
expire_if_idle now s = expire_active now s s.state

abbrev check_state : State → Result Error (Unit {0})
check_state State.active = ok tt
check_state State.forgotten = err Error.forgotten
check_state State.expired = err Error.expired

-- `State`: it may find the session expired.
pub state_of : ℕ → StateMachine → StateMachine × State
unfolding expire_if_idle
state_of now s = (expire_if_idle now s, (expire_if_idle now s).state)

ensure_active : ℕ → StateMachine → StateMachine × Result Error (Unit {0})
unfolding expire_if_idle
ensure_active now s = (expire_if_idle now s, check_state (expire_if_idle now s).state)

abbrev pub touch : ℕ → StateMachine → StateMachine
touch now s = record s { last_activity = now }

pub invalidate_trust : StateMachine → StateMachine
invalidate_trust s = record s { state = State.forgotten }

unfoldable pub associated_data : EncryptedMessage → Bytes
associated_data m =
    m.version
    ∷ (be64 m.seq
        ++ (be32 (u32 (length m.session_id))
            ++ (m.session_id ++ (be32 (u32 (length m.type)) ++ m.type))))

module _ (aead : Aead) where
  -- The message for a nonce; `sealed` is cut before its last `tag_size` bytes.
  unfoldable pub seal_message : StateMachine → MessageType → Bytes → Bytes → EncryptedMessage
  seal_message s type nonce plaintext =
      let header : EncryptedMessage = record {
        version = version;
        session_id = s.session_id;
        seq = s.next_local_seq;
        type = type;
        nonce = nonce;
        ciphertext = [];
        tag = [];
      } in
      let sealed = aead.seal s.send_key nonce plaintext (associated_data header) in
      record header {
        ciphertext = take (length sealed - tag_size) sealed;
        tag = drop (length sealed - tag_size) sealed;
      }

  -- `Encrypt`. `now` and `later` are the two readings of the clock, `rand` the random source; of
  -- the three results the second is what the source still holds.
  unfoldable pub encrypt :
      ℕ
      → ℕ
      → Bytes
      → StateMachine
      → MessageType
      → Bytes
      → StateMachine × Bytes × Result Error EncryptedMessage
  encrypt now later rand s type plaintext =
      let s' = expire_if_idle now s in
      elim (check_state s'.state) [
        | err e ↦ (s', rand, err e)
        | ok _ ↦ elim (read_full nonce_size rand) [
          | none ↦ (s', [], err Error.rand_failed)
          | some (nonce, rest) ↦ (
            touch later (record s' { next_local_seq = next_u64 s'.next_local_seq }),
            rest,
            ok (seal_message s' type nonce plaintext),
          )
        ]
      ]

  -- The checks of `Decrypt` on an active session, in the source's order, and the plaintext.
  unfoldable pub open_message : StateMachine → EncryptedMessage → Result Error Bytes
  open_message s m = do
    guard (m.version == version) (Error.unsupported_version m.version)
    guard (bytes_eq m.session_id s.session_id) Error.session_id_mismatch
    guard (length m.nonce == nonce_size) Error.wrong_nonce_size
    guard (length m.tag == tag_size) Error.wrong_tag_size
    guard (not (seen m.seq s.seen_remote_seq)) Error.replay
    guard (m.seq == next_u64 s.last_remote_seq) Error.out_of_order
    or_fail (aead.unseal s.receive_key m.nonce (m.ciphertext ++ m.tag) (associated_data m))
        Error.authentication_failed

  accept : ℕ → StateMachine → EncryptedMessage → StateMachine
  accept later s m =
      touch later
        (record s { last_remote_seq = m.seq; seen_remote_seq = m.seq ∷ s.seen_remote_seq })

  -- The state and the result, by the outcome of the two sets of checks.
  finish :
      ℕ
      → StateMachine
      → EncryptedMessage
      → Result Error (Unit {0})
      → Result Error Bytes
      → StateMachine × Result Error Bytes
  finish later s m (err e) opened = (s, err e)
  finish later s m (ok _) (err e) = (s, err e)
  finish later s m (ok _) (ok plaintext) = (accept later s m, ok plaintext)

  -- `Decrypt`.
  unfoldable pub decrypt :
      ℕ → ℕ → StateMachine → EncryptedMessage → StateMachine × Result Error Bytes
  unfolding accept finish
  decrypt now later s m =
      let s' = expire_if_idle now s in finish later s' m (check_state s'.state) (open_message s' m)
