-- ===== src/Lib.antt =====
-- Talka: a desktop service that a phone pairs with, that receives the phone's speech over encrypted
-- WebSocket sessions, and that has it recognised. This library models the Go code of the service.
--
-- The parts, the files that model them, and how they work together:
-- * internal/protocol is Protocol: the messages (types.go) are the records of Protocol and its data
--   type `Message`, `Decode` and `ValidateAudioMetadata` (codec.go) are `decode` and
--   `validate_audio_metadata` of Protocol/Codec, the errors are Protocol/Errors.
-- * internal/session is Session: a `StateMachine` record and one function for each method
--   (`NewStateMachine`, `Encrypt`, `Decrypt`, `State`, `InvalidateTrust`). The map of seen sequence
--   numbers is a list. Session/Capture is audio_debug.go.
-- * internal/crypto is Crypto: the transcript, the confirmations and the session keys.
-- * internal/pairing is Pairing: `Start`, `Complete`, `Resume` and `ForgetDevice` of the manager are
--   functions of Pairing/Manager in a monad over the `World` (the store, the random source, the
--   pending pairing) that keeps the state on an error. They run over any `Store`; Pairing/FakeStore
--   is fake_store.go, Pairing/Keychain is store_darwin.go, and both fill the interface's laws. They
--   make the transcripts and keys of Crypto and start a session of Session.
-- * internal/app is App: App/Service is the service as a whole (app.go and ios_session.go), with a
--   record `App` for its state and a function for each endpoint: App/Service/Handlers, Settings
--   (`handleConfig` and `New`) and Phones (pairing, resuming), Connections (the connections and
--   `Shutdown`), and Serve, which is `Handler` and the service as a state machine over events.
--   App/Pipelines has the reference counts of app.go, App/Websocket the frames
--   of ios_websocket.go, App/Audio `decryptIOSAudioMessages` of ios_session.go, which runs the
--   session's `Decrypt` and the protocol's `Decode` on each message, App/Streaming
--   `handleIOSAudioStreamWithStreamingASR`, which does so message by message and hands the frames to a
--   stream of the recogniser, App/Buffering the loop for a recogniser that does not stream,
--   App/Conversation `handleIOSAudioStream`, which chooses among them and the key press on its own,
--   App/Replies the error codes that the phone is told, App/Dictation pipeline.go, App/Build
--   production_pipeline.go and App/Latency latency_trace.go.
-- * internal/inject is Inject: `Insert` of macos.go over a clipboard and a driver, and the drivers
--   that run scripts, ask a broker or post events. internal/llm is Llm: `Cleanup` of
--   ollama_provider.go, with the fake provider. internal/mdns is Mdns,
--   with the publisher as a step relation of the calls that interleave. internal/config is Config,
--   with `Load` and `Save` in Config/Files.
-- * internal/asr is Asr: Asr/Wav reads WAV files (wav.go), Asr/Split cuts their samples into frames
--   (`splitPCMFrames` of provider.go), Asr/Websocket has the frames of websocket.go, Asr/Client and
--   its Calls are client.go, Asr/Provider the provider on it, Asr/Managed the one
--   whose recogniser a manager starts, Asr/RuntimeSupport, Ports and Diagnostics the log, the port and
--   the errors of a runtime, Asr/FakeRuntime and CrashRuntime the sessions of fake_runtime.go and
--   crash_runtime.go. Asr/FakeCommand is cmd/talka-fake-asr.
-- * Prelude has what they share: byte strings, Go's integers, the functions of `strings` and of
--   `path/filepath` that the code calls, words in both byte orders, base64, the
--   mask of a frame and results that are a value or an error. Tests applies the theorems to
--   concrete data.
--
-- State is passed explicitly and a method is one step, since the code holds a mutex throughout it
-- (`Start` and the pipelines of app.go, `Shutdown`, whose loop runs beside other steps, and the
-- publisher of mdns excepted, where a step is one critical section or what follows it). The clock's
-- readings and the bytes of the random source are arguments; times and durations are nanoseconds.
-- Numbers are natural numbers, with the wrap of a word written out where the code can reach it: the
-- 64-bit sequence numbers and frame numbers, the 32-bit lengths of fields and of WAV files.
--
-- Parameters: the cipher (`Aead`), the primitives of crypto (`Primitives`) and encoding/json (`Json`
-- and the decoder of wire messages), each with the laws that are documented of it (`AeadLaws`,
-- `PrimitivesLaws`, `JsonLaws`), the device store (`Store`, `StoreLaws`), the recogniser that
-- `NewSherpaONNXProvider` makes or refuses with an error, the clipboard and the paste
-- driver (`ClipboardLaws`), files and YAML (`FilesLaws`), the keychain
-- (`KeychainLaws`), a stream of the recogniser (`StreamLaws`),
-- the HTTP call of the language model, what a server answers to the client of the recogniser
-- (`Peer`), and Go's conversion to lower case of strings that are not all ASCII.
--
-- Loops: the loop over the chunks of a WAV file runs on fuel, of which the file's length is enough
-- since a round consumes eight bytes or more; `splitPCMFrames` runs on the length of its data in
-- the same way, and the reading of a connection on the length of what it still holds, since a frame
-- takes two bytes or more; the other loops are structural. A source of randomness that ends is a read
-- that fails.
--
-- Not modelled: the WebSocket handshakes and the upgrade of the audio stream, the matching of paths by
-- the ServeMux, the durations and counts that the handlers of audio record, the recognition itself with
-- its native library (sherpa_onnx.go), the network of the mDNS daemon, the commands under cmd but for
-- talka-fake-asr, the smoke tools, and the apps in Swift. The insertion of the final text, which uses
-- a pipeline without counting, is no step of App/Pipelines. The logger, locks and deadlines are left
-- out.
pub mod Prelude
pub mod Protocol
pub mod Session
pub mod Crypto
pub mod Pairing
pub mod Asr
pub mod Inject
pub mod Llm
pub mod Mdns
pub mod Config
pub mod App
pub mod Tests
