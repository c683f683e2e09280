-- ===== src/App/Service/Connections.antt =====
-- The connections of phones and the end of the service: `registerIOSAudioConn`,
-- `unregisterIOSAudioConn`, `closeIOSAudioConns` and `Shutdown` of internal/app/app.go, and the audio
-- that a phone has sent as a whole (`processEncryptedIOSAudioSession` of ios_session.go). A
-- connection is a number.
use mathlib.Core.Option
use talka.Prelude.{
  ℕ, zero, suc, ◌+◌, not, ◌&&◌, ◌==◌, Option, none, some, List, [], ◌∷◌, Result, length, map,
  if◌then◌else◌,
}
use talka.Prelude.Bytes.{Bytes, codes}
use talka.Prelude.Dict.{lookup, insert}
use talka.Session.{StateMachine, EncryptedMessage}
use talka.App.Websocket
use talka.App.Websocket.{write_close}
use talka.App.Pipelines.{Pipelines, update, retain, release, is_current}
use talka.App.Dictation.{ProcessResult}
use talka.App.Replies.{Failure}
use talka.App.Buffering.{Stage, process_encrypted}
use talka.App.Service.{App, Environment, IosAudioSession, in_use_of}

unfoldable pub without : ℕ → List ℕ → List ℕ
without conn [] = []
without conn (c ∷ cs) = let rest = without conn cs in if c == conn then rest else c ∷ rest

module _ {S W A I : Type 0} where
  unfoldable pub register_ios_audio_conn : ℕ → App S W A I → App S W A I
  register_ios_audio_conn conn a = record a {
    ios_audio_conns = conn ∷ without conn a.ios_audio_conns;
  }

  unfoldable pub unregister_ios_audio_conn : ℕ → App S W A I → App S W A I
  unregister_ios_audio_conn conn a = record a { ios_audio_conns = without conn a.ios_audio_conns }

  -- Each connection with the frame that is written to it before it is closed; errors of the writes
  -- are ignored.
  unfoldable pub close_ios_audio_conns :
      App S W A I → App S W A I × List (ℕ × Result Websocket.Error Bytes)
  close_ios_audio_conns a = (
    record a { ios_audio_conns = [] },
    map (λ (c : ℕ). (c, write_close 1001 (codes "mac shutting down"))) a.ios_audio_conns,
  )

  -- What is shared with the session of the phone: its state machine, which the call changes.
  unfoldable pub put_machine : Bytes → Option StateMachine → App S W A I → App S W A I
  put_machine id none a = a
  put_machine id (some m) a = record a {
    ios_sessions = insert id (record { device_id = id; machine = m }) a.ios_sessions;
  }

-- The retired pipelines under `n` that are not the current one, in the order of their numbers.
unfoldable pub retired_below : ℕ → Pipelines → List ℕ
retired_below zero p = []
retired_below (suc n) p =
    let rest = retired_below n p in
    if p.retired_pipelines n && not (is_current p n) then n ∷ rest else rest

-- What `Shutdown` collects.
unfoldable pub to_shut_down : ℕ → Pipelines → List ℕ
to_shut_down n p = elim p.current [ none ↦ retired_below n p | some c ↦ c ∷ retired_below n p ]

-- The shutdown of one of them, which is not in the background.
unfoldable pub count_shutdown : ℕ → Pipelines → Pipelines
count_shutdown q p = record p { shutdowns = update p.shutdowns q (p.shutdowns q + 1) }

-- The variables of the loop of `Shutdown`: the pipelines that are left, and the first error.
pub record Ending (E : Type 0) : Type 0 where
  pub left : List ℕ
  pub shutdown_error : Option E

abbrev first_of : {E : Type 0} → Option E → Option E → Option E
first_of none later = later
first_of (some first) later = some first

-- A request with a session holds the current pipeline until it is done.
unfoldable pub held_for_a_while : Option StateMachine → Pipelines → Pipelines
held_for_a_while none p = p
held_for_a_while (some m) p = elim p.current [ none ↦ p | some c ↦ release c (retain c p) ]

abbrev pub machine_of : Option IosAudioSession → Option StateMachine
machine_of none = none
machine_of (some s) = some s.machine

module _ {S W E A I : Type 0} where
  -- `Shutdown` up to its loop: the service, the last frames of its connections, and the pipelines to
  -- shut down.
  unfoldable pub shutdown :
      App S W A I → App S W A I × (List (ℕ × Result Websocket.Error Bytes) × Ending E)
  shutdown a =
      let (b, frames) = close_ios_audio_conns a in
      (
        b,
        (
          frames,
          record { left = to_shut_down (length b.built) b.pipelines; shutdown_error = none },
        ),
      )

  -- A round of the loop, which runs without the lock; `stop` is `Shutdown` of a pipeline.
  unfoldable pub shut_down_next :
      (ℕ → W → W × Option E) → Ending E → App S W A I → App S W A I × Ending E
  shut_down_next stop e a = elim e.left [
    | [] ↦ (a, e)
    | q ∷ qs ↦
        let (w, failed) = stop q a.outside in
        (
          record a { outside = w; pipelines = count_shutdown q a.pipelines },
          record { left = qs; shutdown_error = first_of e.shutdown_error failed },
        )
  ]

-- `processEncryptedIOSAudioSession`; `clock` gives the readings for each message.
unfoldable pub process_encrypted_ios_audio_session :
    {S W E A I : Type 0} (env : Environment S W E A I)
    → (ℕ → ℕ × ℕ)
    → Bytes
    → List EncryptedMessage
    → App S W A I
    → App S W A I × Result (Stage × Failure E) ProcessResult
process_encrypted_ios_audio_session env clock id messages a =
    let machine = machine_of (lookup id a.ios_sessions) in
    let pipeline = Option.map env.as_pipeline (in_use_of a.pipelines a.built) in
    let (w, (after, r)) =
      process_encrypted env.aead env.json clock machine pipeline messages a.outside in
    (
      put_machine id after
          (record a { outside = w; pipelines = held_for_a_while machine a.pipelines }),
      r,
    )
