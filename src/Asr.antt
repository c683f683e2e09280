-- ===== src/Asr.antt =====
-- internal/asr: files of audio, the client of a recogniser, and what stands around them.
pub mod Wav
pub mod Websocket
pub mod Client
pub mod FakeRuntime
pub mod Provider
pub mod RuntimeSupport
pub mod Managed
pub mod Ports
pub mod Diagnostics
pub mod CrashRuntime
pub mod FakeCommand
pub mod Split
