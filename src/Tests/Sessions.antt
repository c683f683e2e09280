-- ===== src/Tests/Sessions.antt =====
-- Runs of internal/session/session.go.
use talka.Prelude.{◌≡◌, ◌≢◌, refl, List, [], ◌∷◌, map, ok, arith}
use talka.Session.{State, StateMachine, expire_if_idle, open_message, decrypt}
use talka.Session.Replay.{Call, InOrder, SeenUpTo, step, accepts, run, accepted, accepted-InOrder}
use talka.Session.Peers.{InStep, deliver, deliver_in_full}
use talka.Session.Lifecycle.{over_for_good}
use talka.Tests.{toy_aead, toy_aead-AeadLaws, phone, server, first_message, recording}

-- The first message, the same again, and the second one.
abbrev calls : List Call
calls =
    Call.decrypts 1 1 first_message
    ∷ Call.decrypts 2 2 first_message
    ∷ Call.decrypts 3 3 (record first_message { seq = 2 })
    ∷ []

accepts_two : accepted toy_aead server calls ≡ 1 ∷ 2 ∷ []
unfolding accepted accepts decrypt expire_if_idle open_message step
accepts_two = refl

accepted-InOrder_example :
    InOrder server.last_remote_seq server.seen_remote_seq (accepted toy_aead server calls)
accepted-InOrder_example = accepted-InOrder toy_aead server calls

server-SeenUpTo : SeenUpTo server
server-SeenUpTo = record { covers = λ n. ground arith }

pub in_step : InStep phone server
in_step = record { keys = refl; ids = refl; next = refl; unseen = λ n h. refl }

deliver_in_full_example :
    deliver toy_aead phone server recording ≡ map (λ d. ok d.plaintext) recording
deliver_in_full_example =
    deliver_in_full toy_aead toy_aead-AeadLaws phone server recording in_step (omega arith) refl
      refl (refl, refl, refl, (refl, refl, refl, (refl, refl, refl, tt)))

abbrev expired_server : StateMachine
expired_server = record server { state = State.expired }

expired-IsOver : expired_server.state ≢ State.active
expired-IsOver e = cc

over_for_good_example :
    ((run toy_aead expired_server calls).state ≢ State.active)
    × (accepted toy_aead expired_server calls ≡ [])
over_for_good_example = over_for_good toy_aead expired_server calls expired-IsOver
