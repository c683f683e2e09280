-- ===== src/App/Dictation/KeyPresses.antt =====
-- A key press of the phone, from internal/app/pipeline.go to the driver of
-- internal/inject/paste_driver_darwin.go.
use talka.Prelude.{
  ◌≡◌, refl, Bool, true, false, ◌||◌, none, some, List, [], ◌∷◌, ok, arith, inl, inr, Bool-cases,
  Result-cases, if◌then◌else◌,
}
use talka.Prelude.Bytes.{Bytes, codes, bytes_eq, bytes_eq_iff}
use talka.Protocol.{KeyPress}
use talka.Inject.{KeyModifier}
use talka.Inject.Drivers.{DriverError}
use talka.Inject.Brokers.{EventFlags, no_flags, flags_of, Events, native_key_press}
use talka.App.Dictation
use talka.App.Dictation.{
  Pipeline, TextInjector, key_modifier, key_modifiers, press_key, handle_ios_key_press,
}

abbrev pub has : Bytes → List Bytes → Bool
has m [] = false
has m (x ∷ xs) = bytes_eq x m || has m xs

-- The flags, with those of the names in front.
abbrev pub with_names : List Bytes → EventFlags → EventFlags
with_names ms flags = record {
  command = flags.command || has (codes "cmd") ms;
  alternate = flags.alternate || has (codes "alt") ms;
  shift = flags.shift || has (codes "shift") ms;
}

-- The modifier that a name stands for sets its own flag.
flags_of-key_modifiers :
    {E X : Type 0} (ms : List Bytes) (ks : List KeyModifier) (flags : EventFlags)
    → key_modifiers {E = E} ms ≡ ok ks
    → flags_of {X = X} flags ks ≡ ok (with_names ms flags)
unfolding key_modifiers key_modifier flags_of
flags_of-key_modifiers {E} {X} [] ks flags e = ground (arith, e)
flags_of-key_modifiers {E} {X} (m ∷ ms) ks flags e =
    elim (Result-cases (key_modifiers {E = E} ms)) [
      | inl (failed, q) ↦ absurd (ground (arith, q, e))
      | inr (rest, q) ↦ elim (Bool-cases (bytes_eq m (codes "cmd"))) [
        | inl c ↦
            let ih =
              flags_of-key_modifiers {E = E} {X = X} ms rest (record flags { command = true }) q in
            ground (arith, q, e, c, ih, bytes_eq_iff m (codes "cmd"))
        | inr c ↦ elim (Bool-cases (bytes_eq m (codes "alt"))) [
          | inl d ↦
              let ih =
                flags_of-key_modifiers {E = E} {X = X} ms rest (record flags { alternate = true })
                  q in
              ground (arith, q, e, c, d, ih, bytes_eq_iff m (codes "alt"))
          | inr d ↦ elim (Bool-cases (bytes_eq m (codes "shift"))) [
            | inl f ↦
                let ih =
                  flags_of-key_modifiers {E = E} {X = X} ms rest (record flags { shift = true })
                    q in
                ground (arith, q, e, c, d, f, ih, bytes_eq_iff m (codes "shift"))
            | inr f ↦ absurd (ground (arith, q, e, c, d, f))
          ]
        ]
      ]
    ]

module _ {W X : Type 0} (events : Events W) (p : Pipeline W (DriverError X)) where
  -- With the native driver behind the pipeline: a key press of the phone that names only modifiers
  -- that the app knows is posted once, as the return key with the flags of exactly those modifiers,
  -- if the app is trusted, and is otherwise refused for want of the permission; the driver never
  -- finds it unsupported.
  pub handle_ios_key_press-native :
      (i : TextInjector W (DriverError X)) (message : KeyPress) (ks : List KeyModifier) (w : W)
      → p.injector ≡ some i
      → i.key_press ≡ some (native_key_press events)
      → message.key ≡ codes "enter"
      → key_modifiers {E = DriverError X} message.modifiers ≡ ok ks
      → handle_ios_key_press p message w ≡ (
          if events.ax_trusted w
          then (events.post_key 36 (with_names message.modifiers no_flags) w, none)
          else (
            w,
            some (Dictation.Error.provider_error (DriverError.accessibility_permission_denied [])),
          ))
  unfolding handle_ios_key_press press_key native_key_press
  handle_ios_key_press-native i message ks w is native enter named =
      let flags =
        flags_of-key_modifiers {E = DriverError X} {X = X} message.modifiers ks no_flags named in
      elim (Bool-cases (events.ax_trusted w)) [
        | inl q ↦ rw (enter, named, is, native, flags, q, handle_ios_key_press, press_key) refl
        | inr q ↦ rw (enter, named, is, native, flags, q, handle_ios_key_press, press_key) refl
      ]
