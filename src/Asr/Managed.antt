-- ===== src/Asr/Managed.antt =====
-- `ManagedSidecarProvider` of internal/asr/provider.go: the provider whose recogniser is a program
-- that a manager starts. The manager, and a client over a connection that it dials, are parameters;
-- `W` is what both change.
use talka.Prelude.{ℕ, ◌+◌, ◌/◌, Bool, false, Option, none, some, List, Result, err}
use talka.Prelude.Bytes.{Bytes}
use talka.Protocol.{AudioMetadata}
use talka.Asr.Client.{Config}
use talka.Asr.Provider.{AsrResult, runtime_config}

-- `SidecarRuntimeManager` with the methods that `Shutdown` and the two queries look for. A startup
-- timeout is in nanoseconds.
pub record Manager (W E : Type 0) : Type 0 where
  pub ensure_running : W → W × Option E
  pub url : W → Bytes
  pub stop : Option (W → W × Option E)
  pub startup_timeout : Option ℕ
  pub always_ephemeral : Option Bool

-- `HealthCheck` of `NewClient`, and `Transcribe` of `NewSidecarProvider`.
pub record Sidecar (W E : Type 0) : Type 0 where
  pub health_check : Config → W → W × Option E
  pub transcribe : Config → AudioMetadata → List Bytes → W → W × Result E AsrResult

pub record ManagedSidecarProvider (W E : Type 0) : Type 0 where
  pub manager : Option (Manager W E)
  pub client_config : Config

module _ {W E : Type 0} where
  abbrev url_of : Option (Manager W E) → W → Option Bytes
  url_of none w = none
  url_of (some m) w = some (m.url w)

  -- `runtimeConfig`.
  unfoldable pub current_config : ManagedSidecarProvider W E → W → Config
  current_config p w = runtime_config (url_of p.manager w) p.client_config

  abbrev started : Option (Manager W E) → W → W × Option E
  started none w = (w, none)
  started (some m) w = m.ensure_running w

  unfoldable pub manager_startup_timeout : ManagedSidecarProvider W E → ℕ
  manager_startup_timeout p = elim p.manager [
    | none ↦ 0
    | some m ↦ elim m.startup_timeout [ none ↦ 0 | some t ↦ (t + 500_000_000) / 1_000_000_000 ]
  ]

  unfoldable pub manager_always_ephemeral : ManagedSidecarProvider W E → Bool
  manager_always_ephemeral p = elim p.manager [
    | none ↦ false
    | some m ↦ elim m.always_ephemeral [ none ↦ false | some b ↦ b ]
  ]

  unfoldable pub shutdown : ManagedSidecarProvider W E → W → W × Option E
  shutdown p w = elim p.manager [
    | none ↦ (w, none)
    | some m ↦ elim m.stop [ none ↦ (w, none) | some stop ↦ stop w ]
  ]

module _ {W E : Type 0} (sidecar : Sidecar W E) where
  abbrev checked : ManagedSidecarProvider W E → W × Option E → W × Option E
  checked p (w, some e) = (w, some e)
  checked p (w, none) = sidecar.health_check (current_config p w) w

  -- `EnsureReady`, and `HealthCheck`, which calls it.
  unfoldable pub ensure_ready : ManagedSidecarProvider W E → W → W × Option E
  ensure_ready p w = checked p (started p.manager w)

  abbrev transcribed :
      ManagedSidecarProvider W E
      → AudioMetadata
      → List Bytes
      → W × Option E
      → W × Result E AsrResult
  transcribed p metadata frames (w, some e) = (w, err e)
  transcribed p metadata frames (w, none) =
      sidecar.transcribe (current_config p w) metadata frames w

  -- `Transcribe`.
  unfoldable pub transcribe :
      ManagedSidecarProvider W E → AudioMetadata → List Bytes → W → W × Result E AsrResult
  transcribe p metadata frames w = transcribed p metadata frames (ensure_ready p w)
