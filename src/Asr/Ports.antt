-- ===== src/Asr/Ports.antt =====
-- The choice of a port in internal/asr/runtime_support.go. `net.Listen` on a host and a port, with the
-- port that it got and the closing of the listener, is a parameter; port 0 asks for any.
use talka.Prelude.{
  ℕ, zero, suc, ◌≡◌, Bool, true, false, not, ◌&&◌, ◌||◌, ◌==◌, ◌*◌, Option, none, some, List, [],
  ◌∷◌, Result, ok, err, arith, inl, inr, Bool-cases, Result-cases, if◌then◌else◌,
}
use talka.Prelude.Int.{ℤ, is_positive, pos_part}
use talka.Prelude.Bytes.{Bytes, codes}
use talka.Prelude.Text.{to_lower, contains}

-- `net_error` is the text of the error inside a `net.OpError`, for an error that is one.
pub record Sockets (W E : Type 0) : Type 0 where
  pub listen : Bytes → ℕ → W → W × Result E ℕ
  pub net_error : E → Option Bytes
  pub unicode : Bytes → Bytes

pub data PortError (E : Type 0) : Type 0 where
  listen_error : E → PortError E
  no_unused_port : ℕ → PortError E

abbrev pub max_dynamic_port_attempts : ℕ
max_dynamic_port_attempts = 5

abbrev pub was_attempted : ℕ → List ℕ → Bool
was_attempted p [] = false
was_attempted p (q ∷ qs) = q == p || was_attempted p qs

module _ {W E : Type 0} (net : Sockets W E) where
  abbrev is_taken : E → Bool
  is_taken e = elim (net.net_error e) [
    | none ↦ false
    | some text ↦ contains (to_lower net.unicode text) (codes "address already in use")
  ]

  abbrev availability : W × Result E ℕ → W × Result E Bool
  availability (w, ok port) = (w, ok true)
  availability (w, err e) = (w, if is_taken e then ok false else err e)

  unfoldable pub is_loopback_port_available : Bytes → ℕ → W → W × Result E Bool
  is_loopback_port_available host port w = availability (net.listen host port w)

  -- `reserveLoopbackPort`.
  unfoldable pub reserve_loopback_port : Bytes → W → W × Result E ℕ
  reserve_loopback_port host = net.listen host 0

  abbrev as_ephemeral : W × Result E ℕ → W × Result E (ℕ × Bool)
  as_ephemeral (w, err e) = (w, err e)
  as_ephemeral (w, ok port) = (w, ok (port, true))

  abbrev preferred_or_any : Bytes → ℕ → W × Result E Bool → W × Result E (ℕ × Bool)
  preferred_or_any host port (w, err e) = (w, err e)
  preferred_or_any host port (w, ok true) = (w, ok (port, false))
  preferred_or_any host port (w, ok false) = as_ephemeral (reserve_loopback_port host w)

  -- `firstAvailableLoopbackPort`: the port, and whether it is another than the preferred one.
  unfoldable pub first_available_loopback_port : Bytes → ℤ → W → W × Result E (ℕ × Bool)
  first_available_loopback_port host preferred w =
      if is_positive preferred
      then preferred_or_any host (pos_part preferred)
          (is_loopback_port_available host (pos_part preferred) w)
      else as_ephemeral (reserve_loopback_port host w)

  -- The loop of `nextAvailableLoopbackPort`, with the tries that are left.
  unfoldable pub reserve_unused : Bytes → List ℕ → ℕ → W → W × Result (PortError E) ℕ
  reserve_unused host attempted zero w =
      (w, err (PortError.no_unused_port (2 * max_dynamic_port_attempts)))
  reserve_unused host attempted (suc tries) w =
      let (w', r) = reserve_loopback_port host w in
      elim r [
        | err e ↦ (w', err (PortError.listen_error e))
        | ok port ↦ elim (was_attempted port attempted) [
          | true ↦ reserve_unused host attempted tries w'
          | false ↦ (w', ok port)
        ]
      ]

  abbrev preferred_or_unused : Bytes → ℕ → List ℕ → W × Result E Bool → W × Result (PortError E) ℕ
  preferred_or_unused host port attempted (w, err e) = (w, err (PortError.listen_error e))
  preferred_or_unused host port attempted (w, ok true) = (w, ok port)
  preferred_or_unused host port attempted (w, ok false) =
      reserve_unused host attempted (2 * max_dynamic_port_attempts) w

  unfoldable pub next_available_loopback_port : Bytes → ℤ → List ℕ → W → W × Result (PortError E) ℕ
  next_available_loopback_port host preferred attempted w =
      if is_positive preferred && not (was_attempted (pos_part preferred) attempted)
      then preferred_or_unused host (pos_part preferred) attempted
          (is_loopback_port_available host (pos_part preferred) w)
      else reserve_unused host attempted (2 * max_dynamic_port_attempts) w

  reserve_unused_fresh :
      (host : Bytes) (attempted : List ℕ) (tries : ℕ) (w : W) (port : ℕ)
      → (reserve_unused host attempted tries w).1 ≡ ok port
      → was_attempted port attempted ≡ false
  unfolding reserve_unused
  reserve_unused_fresh host attempted zero w port e = absurd (ground (arith, e))
  reserve_unused_fresh host attempted (suc tries) w port e =
      let reserved = reserve_loopback_port host w in
      elim (Result-cases reserved.1) [
        | inl (failed, q) ↦ absurd (ground (arith, q, e))
        | inr (got, q) ↦ elim (Bool-cases (was_attempted got attempted)) [
          | inl again ↦
              reserve_unused_fresh host attempted tries reserved.0 port
                (ground (arith, q, again, e))
          | inr unused ↦ ground (arith, q, unused, e)
        ]
      ]

  preferred_or_unused_fresh :
      (host : Bytes) (preferred : ℕ) (attempted : List ℕ) (q : W × Result E Bool) (port : ℕ)
      → was_attempted preferred attempted ≡ false
      → (preferred_or_unused host preferred attempted q).1 ≡ ok port
      → was_attempted port attempted ≡ false
  preferred_or_unused_fresh host preferred attempted (w, err failed) port new e =
      absurd (ground (arith, e))
  preferred_or_unused_fresh host preferred attempted (w, ok true) port new e =
      ground (arith, new, e)
  preferred_or_unused_fresh host preferred attempted (w, ok false) port new e =
      reserve_unused_fresh host attempted (2 * max_dynamic_port_attempts) w port e

  -- A port that is chosen for another attempt is none of those that were attempted before.
  pub next_available_loopback_port_fresh :
      (host : Bytes) (preferred : ℤ) (attempted : List ℕ) (w : W) (port : ℕ)
      → (next_available_loopback_port host preferred attempted w).1 ≡ ok port
      → was_attempted port attempted ≡ false
  unfolding next_available_loopback_port
  next_available_loopback_port_fresh host preferred attempted w port e =
      let p = pos_part preferred in
      elim (Bool-cases (is_positive preferred && not (was_attempted p attempted))) [
        | inl q ↦
            preferred_or_unused_fresh host p attempted (is_loopback_port_available host p w) port
              (ground (arith, q)) (ground (arith, q, e))
        | inr q ↦
            reserve_unused_fresh host attempted (2 * max_dynamic_port_attempts) w port
              (ground (arith, q, e))
      ]
