-- ===== src/Session/Peers.antt =====
-- Two ends of one session (internal/session/session.go): what one encrypts the other decrypts.
use talka.Prelude.{
  ℕ, ◌+◌, ◌-◌, ◌^◌, ◌<◌, ◌≡◌, refl, false, List, [], ◌∷◌, some, Result, ok, err, arith, length,
  take-append-drop, length-drop, length-take, take_all, drop_all, map,
}
use talka.Prelude.Int.{ℤ, sub_ℕ, ltb_ℤ}
use talka.Prelude.Bytes.{Bytes, bytes_eq_refl, read_full}
use talka.Protocol.{MessageType}
use talka.Session.{
  Aead, Error, State, StateMachine, EncryptedMessage, nonce_size, tag_size, seen, expire_if_idle,
  associated_data, seal_message, open_message, encrypt, decrypt,
}

-- What is documented of the cipher: it opens what it sealed under the same key, nonce and
-- associated data, and sealing adds a tag.
pub record AeadLaws (aead : Aead) : Type 0 where
  pub unseal-seal :
      (key nonce text data' : Bytes)
      → aead.unseal key nonce (aead.seal key nonce text data') data' ≡ some text
  pub length-seal :
      (key nonce text data' : Bytes)
      → length (aead.seal key nonce text data') ≡ length text + tag_size

-- `b` receives what `a` sends: the keys and the session agree, and the next number is the one that
-- `b` waits for.
pub record InStep (a b : StateMachine) : Type 0 where
  pub keys : a.send_key ≡ b.receive_key
  pub ids : a.session_id ≡ b.session_id
  pub next : a.next_local_seq ≡ b.last_remote_seq + 1
  pub unseen : (n : ℕ) → b.last_remote_seq < n → seen n b.seen_remote_seq ≡ false

-- Active, and not idle for too long at a reading of the clock.
abbrev pub Alive : ℕ → StateMachine → Type 0
Alive now s =
    (s.state ≡ State.active) × (ltb_ℤ s.inactivity_timeout (sub_ℕ now s.last_activity) ≡ false)

Alive-expire : (now : ℕ) (s : StateMachine) → Alive now s → expire_if_idle now s ≡ s
unfolding expire_if_idle
Alive-expire now s h = ground arith

module _ (aead : Aead) (laws : AeadLaws aead) where
  open_message-seal_message :
      (a b : StateMachine) (type : MessageType) (nonce plaintext : Bytes)
      → InStep a b
      → a.next_local_seq < 2 ^ 64
      → length nonce ≡ nonce_size
      → open_message aead b (seal_message aead a type nonce plaintext) ≡ ok plaintext
  unfolding open_message seal_message associated_data
  open_message-seal_message a b type nonce plaintext v bound size =
      let m : EncryptedMessage = seal_message aead a type nonce plaintext in
      let sealed : Bytes = aead.seal a.send_key nonce plaintext (associated_data m) in
      ground (
        arith,
        bytes_eq_refl b.session_id,
        take-append-drop (length sealed - tag_size) sealed,
        length-drop (length sealed - tag_size) sealed,
        laws.length-seal a.send_key nonce plaintext (associated_data m),
        laws.unseal-seal a.send_key nonce plaintext (associated_data m),
        v.unseen a.next_local_seq (omega arith),
      )

  seq-seal_message :
      (a : StateMachine) (type : MessageType) (nonce plaintext : Bytes)
      → (seal_message aead a type nonce plaintext).seq ≡ a.next_local_seq
  unfolding seal_message
  seq-seal_message a type nonce plaintext = refl

  length-read_full :
      (n : ℕ) (rand nonce rest : Bytes) → read_full n rand ≡ some (nonce, rest) → length nonce ≡ n
  unfolding read_full
  length-read_full n rand nonce rest e = ground (arith, length-take n rand)

  -- With a lawful cipher, what one end encrypts the other decrypts, if it is in step with it, both
  -- are active and not idle for too long, a nonce can be drawn and the counter does not wrap; and
  -- afterwards the two are in step again.
  pub decrypt-encrypt :
      (a b : StateMachine) (sent stamped received accepted : ℕ) (rand nonce rest : Bytes)
      (type : MessageType) (plaintext : Bytes)
      → InStep a b
      → a.next_local_seq + 1 < 2 ^ 64
      → Alive sent a
      → Alive received b
      → read_full nonce_size rand ≡ some (nonce, rest)
      → let m : EncryptedMessage = seal_message aead a type nonce plaintext in
        let a' : StateMachine = record a {
          last_activity = stamped;
          next_local_seq = a.next_local_seq + 1;
        } in
        let b' : StateMachine = record b {
          last_activity = accepted;
          last_remote_seq = a.next_local_seq;
          seen_remote_seq = a.next_local_seq ∷ b.seen_remote_seq;
        } in
        (encrypt aead sent stamped rand a type plaintext ≡ (a', rest, ok m))
        × (decrypt aead received accepted b m ≡ (b', ok plaintext))
        × InStep a' b'
  unfolding encrypt decrypt
  decrypt-encrypt a b sent stamped received accepted rand nonce rest type plaintext v bound la lb
        e =
      let m : EncryptedMessage = seal_message aead a type nonce plaintext in
      let opened =
        open_message-seal_message a b type nonce plaintext v (omega arith)
          (length-read_full nonce_size rand nonce rest e) in
      (
        ground (arith, Alive-expire sent a la),
        ground (arith, Alive-expire received b lb, opened, seq-seal_message a type nonce plaintext),
        record {
          keys = v.keys;
          ids = v.ids;
          next = refl;
          unseen = λ n h. ground (arith, v.unseen n);
        },
      )

-- One message on its way, with the readings of the two clocks and the nonce that is drawn.
pub record Delivery : Type 0 where
  pub type : MessageType
  pub plaintext : Bytes
  pub nonce : Bytes
  pub sent : ℕ
  pub received : ℕ

-- Neither end is idle for longer than its timeout, from its last activity on, and each nonce has
-- the size that is drawn.
abbrev pub Timely : ℤ → ℤ → ℕ → ℕ → List Delivery → Type 0
Timely timeout timeout' last last' [] = Unit {0}
Timely timeout timeout' last last' (d ∷ ds) =
    (ltb_ℤ timeout (sub_ℕ d.sent last) ≡ false)
    × (ltb_ℤ timeout' (sub_ℕ d.received last') ≡ false)
    × (length d.nonce ≡ nonce_size)
    × Timely timeout timeout' d.sent d.received ds

module _ (aead : Aead) where
  -- One end encrypts each message, and the other decrypts it at once; the results in order.
  pub deliver : StateMachine → StateMachine → List Delivery → List (Result Error Bytes)
  deliver a b [] = []
  deliver a b (d ∷ ds) =
      let (a', rest, r) = encrypt aead d.sent d.sent d.nonce a d.type d.plaintext in
      elim r [
        | err e ↦ err e ∷ []
        | ok m ↦
            let (b', opened) = decrypt aead d.received d.received b m in opened ∷ deliver a' b' ds
      ]

pub read_full-all : (n : ℕ) (xs : Bytes) → length xs ≡ n → read_full n xs ≡ some (xs, [])
unfolding read_full
read_full-all n xs h = ground (arith, take_all n xs h, drop_all n xs h)

module _ (aead : Aead) (laws : AeadLaws aead) where
  -- With a lawful cipher, any number of messages that one end sends in order are decrypted in
  -- order, each to its plaintext, if the ends are in step, are active and never idle for too long,
  -- every nonce has its size, and the counter does not wrap.
  pub deliver_in_full :
      (a b : StateMachine) (ds : List Delivery)
      → InStep a b
      → a.next_local_seq + length ds < 2 ^ 64
      → a.state ≡ State.active
      → b.state ≡ State.active
      → Timely a.inactivity_timeout b.inactivity_timeout a.last_activity b.last_activity ds
      → deliver aead a b ds ≡ map (λ d. ok d.plaintext) ds
  unfolding deliver
  deliver_in_full a b [] v bound la lb t = refl
  deliver_in_full a b (d ∷ ds) v bound la lb (ta, tb, n, t) =
      let (enc, dec, v') =
        decrypt-encrypt aead laws a b d.sent d.sent d.received d.received d.nonce d.nonce [] d.type
          d.plaintext v (omega arith) (la, ta) (lb, tb) (read_full-all nonce_size d.nonce n) in
      let rest =
        deliver_in_full (record a { last_activity = d.sent; next_local_seq = a.next_local_seq + 1 })
          (record b {
            last_activity = d.received;
            last_remote_seq = a.next_local_seq;
            seen_remote_seq = a.next_local_seq ∷ b.seen_remote_seq;
          })
          ds v' (omega arith) la lb t in
      ground (arith, enc, dec, rest)
