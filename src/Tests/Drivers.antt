-- ===== src/Tests/Drivers.antt =====
-- A key press that reaches the native driver, and a recording that goes through a stream.
use talka.Prelude.{ℕ, ◌≡◌, refl, true, false, none, some, List, [], ◌∷◌, ok, err}
use talka.Prelude.Bytes.{codes}
use talka.Protocol.{KeyPress}
use talka.Protocol.Types
use talka.Inject
use talka.Inject.{KeyModifier}
use talka.Inject.Drivers.{DriverError}
use talka.Inject.Brokers.{EventFlags, no_flags, Events, native_key_press}
use talka.App.Dictation.{
  AsrRequest, AsrResult, Pipeline, TextInjector, key_modifier, key_modifiers, handle_ios_key_press,
}
use talka.App.Dictation.KeyPresses.{with_names, handle_ios_key_press-native}
use talka.App.Streaming.Adapter.{accept_frames, transcribe, transcribe-given}
use talka.Tests.Dictations.{Heard, listener, listener_laws}
use talka.Tests.{envelope, metadata}

-- The world is the last keys that were posted.
abbrev events : Events (List EventFlags)
events = record {
  ax_trusted = λ w. true;
  post_command_v = λ w. w;
  post_key = λ key flags w. flags ∷ w;
}

abbrev key_injector : TextInjector (List EventFlags) (DriverError ℕ)
key_injector = record {
  insert = λ text w. (
    w,
    err (record {
      code = Inject.FailureCode.paste_failed;
      user_message = [];
      recovery = record {
        action = Inject.RecoveryAction.copy_failed_text;
        failed_text = [];
        volatile = false;
      };
      cause = DriverError.not_configured;
    }),
  );
  key_press = some (native_key_press events);
}

abbrev key_pipeline : Pipeline (List EventFlags) (DriverError ℕ)
key_pipeline = record { asr = none; llm = none; injector = some key_injector }

abbrev key_press : KeyPress
key_press = record {
  envelope = envelope Types.key_press;
  session_id = 7 ∷ [];
  key = codes "enter";
  modifiers = codes "cmd" ∷ codes "shift" ∷ [];
}

abbrev named : List KeyModifier
named = KeyModifier.command ∷ KeyModifier.shift ∷ []

are_named : key_modifiers {E = DriverError ℕ} (codes "cmd" ∷ codes "shift" ∷ []) ≡ ok named
unfolding key_modifiers key_modifier
are_named = refl

handle_ios_key_press-native_example :
    handle_ios_key_press key_pipeline key_press []
    ≡ (with_names (codes "cmd" ∷ codes "shift" ∷ []) no_flags ∷ [], none)
handle_ios_key_press-native_example =
    handle_ios_key_press-native events key_pipeline key_injector key_press named [] refl refl refl
      are_named

abbrev recording : AsrRequest
recording = record { metadata = metadata; frames = (5 ∷ []) ∷ (6 ∷ []) ∷ [] }

abbrev hi : AsrResult
hi = record { transcript = codes "hi" }

abbrev silence : Heard
silence = (metadata, [])

transcribes : (transcribe listener recording silence).1 ≡ ok hi
unfolding transcribe accept_frames
transcribes = refl

transcribe-given_example :
    (s : ℕ) × (v : Heard) × (v ≡ (metadata, (5 ∷ []) ∷ (6 ∷ []) ∷ []))
    × ((listener.finish s v).1 ≡ ok hi)
    × ((transcribe listener recording silence).0 ≡ listener.close s (listener.finish s v).0)
transcribe-given_example = transcribe-given listener listener_laws recording silence hi transcribes
