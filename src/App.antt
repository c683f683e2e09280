-- ===== src/App.antt =====
-- internal/app: the service and its pipelines, the audio of a phone, its replies and its traces.
pub mod Pipelines
pub mod Websocket
pub mod Audio
pub mod Latency
pub mod Dictation
pub mod Build
pub mod Streaming
pub mod Buffering
pub mod Conversation
pub mod Replies
pub mod Service
