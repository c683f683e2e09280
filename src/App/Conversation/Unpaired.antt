-- ===== src/App/Conversation/Unpaired.antt =====
-- What a conversation of internal/app/ios_websocket.go comes to for a phone without a session.
use talka.Prelude.{ℕ, ◌≡◌, refl, Bool, true, false, Option, none, [], ◌∷◌, Result, ok, err, length}
use talka.Prelude.Bytes.{Bytes, bytes_eq}
use talka.Protocol.Codec.{Json}
use talka.Protocol.Types
use talka.Session.{Aead, StateMachine, EncryptedMessage}
use talka.App.Audio.Wire.{WireError}
use talka.App.Dictation.{Pipeline}
use talka.App.Replies.{Reading}
use talka.App.Streaming.{
  Connection, StreamingProvider, Ending, ReadEnd, at_read_end, fail, read_messages,
}
use talka.App.Buffering.{Buffered, buffer_messages, process_encrypted}
use talka.App.Conversation.{
  Resources, Outcome, ended, processed, handle_ios_audio_stream, converse, after_first, buffered,
  ios_streaming_audio_resources, ios_key_press_resources, handle_ios_key_press_wire_message,
  read_initial_ios_audio_wire_message,
}

-- No key was pressed and no transcript was made.
abbrev pub NothingDone : {E : Type 0} → Outcome E → Type 0
NothingDone (ended Ending.key_pressed) = ⊥
NothingDone (ended (Ending.replied result)) = ⊥
NothingDone (processed (ok result)) = ⊥
NothingDone other = Unit {0}

abbrev pub unpaired :
    {W E S : Type 0} → Option (Pipeline W E) → Option (StreamingProvider W E S) → Resources W E S
unpaired pipe provider = record { session = none; pipeline = pipe; streaming = provider }

module _ {W E S : Type 0} where
  -- What holds of a conversation that a phone without a session has: the pipeline and the recogniser
  -- have no part in it, there is still no session, and nothing is done.
  abbrev pub Harmless :
      Option (Pipeline W E)
      → Option (StreamingProvider W E S)
      → (Resources W E S → W × (Option StateMachine × Outcome E))
      → Type 0
  Harmless pipe provider talk =
      (talk (unpaired pipe provider) ≡ talk (unpaired none none))
      × ((talk (unpaired pipe provider)).1.0 ≡ none)
      × NothingDone (talk (unpaired pipe provider)).1.1

module _ {W E : Type 0} (reading : Reading E) (connection : Connection W E) where
  at_read_end-NothingDone :
      (end : ReadEnd) (w : W) → NothingDone (ended (at_read_end reading connection end w).1)
  unfolding at_read_end fail
  at_read_end-NothingDone (ReadEnd.read_failed e) w = tt
  at_read_end-NothingDone (ReadEnd.undecodable e) w = tt
  at_read_end-NothingDone ReadEnd.close_frame w = tt

module _ {W E S : Type 0} (reading : Reading E) (connection : Connection W E) (aead : Aead)
    (json : Json) (clock : ℕ → ℕ × ℕ) (pipe : Option (Pipeline W E))
    (provider : Option (StreamingProvider W E S)) where
  buffered-Harmless :
      (b : Buffered) (w : W)
      → Harmless pipe provider (λ a. buffered reading connection aead json clock a b w)
  unfolding buffered process_encrypted
  buffered-Harmless (Buffered.complete ms) w = (refl, refl, tt)
  buffered-Harmless Buffered.limit_exceeded w = (refl, refl, tt)
  buffered-Harmless (Buffered.stopped_reading end) w =
      (refl, refl, at_read_end-NothingDone reading connection end w)

  module _ (decode_wire : Bytes → Result WireError EncryptedMessage) where
    after_first-Harmless :
        (m : EncryptedMessage) (rest : Bytes) (key_press : Bool) (w : W)
        → Harmless pipe provider
            (λ a. after_first reading connection aead json clock decode_wire a m rest key_press w)
    unfolding after_first ios_streaming_audio_resources ios_key_press_resources
        handle_ios_key_press_wire_message fail
    after_first-Harmless m rest true w = (refl, refl, tt)
    after_first-Harmless m rest false w =
        let (ms, end) = read_messages decode_wire (length rest) rest in
        buffered-Harmless (buffer_messages (m ∷ []) m ms end) w

    converse-Harmless :
        (first : Result ReadEnd (EncryptedMessage × Bytes)) (w : W)
        → Harmless pipe provider
            (λ a. converse reading connection aead json clock decode_wire a first w)
    unfolding converse
    converse-Harmless (err end) w = (refl, refl, at_read_end-NothingDone reading connection end w)
    converse-Harmless (ok (m, rest)) w =
        after_first-Harmless m rest (bytes_eq m.type Types.key_press) w

    -- Whatever a phone without a session sends, the pipeline and the recogniser have no part in the
    -- conversation, no key is pressed and no transcript made, and the phone has no session after it.
    pub handle_ios_audio_stream-unpaired :
        (src : Bytes) (w : W)
        → Harmless pipe provider
            (λ a. handle_ios_audio_stream reading connection aead json clock decode_wire a src w)
    unfolding handle_ios_audio_stream
    handle_ios_audio_stream-unpaired src w =
        converse-Harmless (read_initial_ios_audio_wire_message decode_wire src) w
