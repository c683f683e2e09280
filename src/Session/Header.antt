-- ===== src/Session/Header.antt =====
-- The associated data of internal/session/session.go binds every field of a message's header.
use talka.Prelude.{◌^◌, ◌<◌, ◌≡◌, arith, length}
use talka.Prelude.Words.{be64-append_injective, field_injective, last_field_injective}
use talka.Session.{EncryptedMessage, associated_data}

-- Two messages with the same associated data agree in version, sequence number, session id and
-- type, if the sequence numbers are uint64s and the texts are shorter than 4 GiB.
pub associated_data_injective :
    (m n : EncryptedMessage)
    → m.seq < 2 ^ 64
    → n.seq < 2 ^ 64
    → length m.session_id < 2 ^ 32
    → length n.session_id < 2 ^ 32
    → length m.type < 2 ^ 32
    → length n.type < 2 ^ 32
    → associated_data m ≡ associated_data n
    → (m.version ≡ n.version) × (m.seq ≡ n.seq) × (m.session_id ≡ n.session_id) × (m.type ≡ n.type)
unfolding associated_data
associated_data_injective m n hm hn im in' tm tn e =
    let v : m.version ≡ n.version = ground arith in
    let (s, rest) = be64-append_injective m.seq n.seq _ _ hm hn (ground arith) in
    let (i, rest') = field_injective m.session_id n.session_id _ _ im in' rest in
    (v, s, i, last_field_injective m.type n.type tm tn rest')
