-- ===== src/Mdns/Announced.antt =====
-- What internal/mdns/mdns.go announces, and what it accepts.
use talka.Prelude.{◌≡◌, ◌↔◌, refl, ok, ◌++◌, arith, inl, inr, Result-cases}
use talka.Prelude.Bytes.{Bytes, codes}
use talka.Mdns.{
  Descriptor, PairingState, validate_device_name, validate_pairing_state, new_descriptor,
  txt_records, with_pairing, entry_value, validate_txt,
}

module _ (unicode : Bytes → Bytes) where
  abbrev pub Valid : Descriptor → Type 0
  Valid d =
      (validate_device_name unicode d.device_name ≡ ok tt)
      × (validate_pairing_state d.pairing ≡ ok tt)

  name_value :
      (name : Bytes) → entry_value 1 (codes "device_name") (codes "device_name=" ++ name) ≡ ok name
  unfolding entry_value
  name_value name = refl

  pairing_value : (p : Bytes) → entry_value 3 (codes "pairing") (codes "pairing=" ++ p) ≡ ok p
  unfolding entry_value
  pairing_value p = refl

  -- The entries of a descriptor are accepted exactly if its name and its state are.
  pub validate_txt-txt_records :
      (d : Descriptor) → (validate_txt unicode (txt_records d) ≡ ok tt) ↔ Valid d
  unfolding validate_txt txt_records entry_value
  validate_txt-txt_records d = elim (Result-cases (validate_device_name unicode d.device_name)) [
    | inl (e, q) ↦ ground (arith, q)
    | inr (x, q) ↦ ground (arith, q)
  ]

  -- The descriptors that the program makes.
  pub data Built : Descriptor → Type 0 where
    begins :
        (name : Bytes) (pairing : PairingState) (d : Descriptor)
        → new_descriptor unicode name pairing ≡ ok d
        → Built d
    changes :
        (pairing : PairingState) (d d' : Descriptor)
        → Built d
        → with_pairing pairing d ≡ ok d'
        → Built d'

  Built-Valid : (d : Descriptor) → Built d → Valid d
  unfolding new_descriptor with_pairing
  Built-Valid d (begins name pairing _ e) =
      elim (Result-cases (validate_device_name unicode name)) [
        | inl (f, q) ↦ absurd (ground (arith, q, e))
        | inr (x, q) ↦ elim (Result-cases (validate_pairing_state pairing)) [
          | inl (f, k) ↦ absurd (ground (arith, q, k, e))
          | inr (y, k) ↦ ground (arith, q, k, e)
        ]
      ]
  Built-Valid d (changes pairing before _ built e) =
      let (name, state) = Built-Valid before built in
      elim (Result-cases (validate_pairing_state pairing)) [
        | inl (f, k) ↦ absurd (ground (arith, k, e))
        | inr (y, k) ↦ ground (arith, name, k, e)
      ]

  -- Every descriptor that the program makes, by `NewDescriptor` and any changes of the pairing state,
  -- has entries that `ValidateTXT` accepts.
  pub validate_txt-Built : (d : Descriptor) → Built d → validate_txt unicode (txt_records d) ≡ ok tt
  validate_txt-Built d built = (validate_txt-txt_records d).1 (Built-Valid d built)
