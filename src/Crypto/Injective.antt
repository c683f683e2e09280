-- ===== src/Crypto/Injective.antt =====
-- The transcript and the joined secrets of internal/crypto/crypto.go are unambiguous.
use mathlib.Core.List.{append_assoc, append-nil}
use talka.Prelude.{◌^◌, ◌<◌, ◌≡◌, refl, sym, ◌∙◌, List, [], ◌∷◌, ◌++◌, length}
use talka.Prelude.Bytes.{Bytes}
use talka.Prelude.Words.{be32, u32, field_injective}
use talka.Crypto.{Transcript, write_bytes, marshal_transcript, join_from, join_secrets}

-- The fields one after another, each behind its length.
fields : List Bytes → Bytes
fields [] = []
fields (x ∷ xs) = be32 (u32 (length x)) ++ (x ++ fields xs)

-- Every field is shorter than 4 GiB.
abbrev pub Short : List Bytes → Type 0
Short [] = Unit {0}
Short (x ∷ xs) = (length x < 2 ^ 32) × Short xs

fields_injective : (xs ys : List Bytes) → Short xs → Short ys → fields xs ≡ fields ys → xs ≡ ys
unfolding fields
fields_injective [] [] hx hy e = refl
fields_injective [] (y ∷ ys) hx hy e = absurd (unfold be32 in cc)
fields_injective (x ∷ xs) [] hx hy e = absurd (unfold be32 in cc)
fields_injective (x ∷ xs) (y ∷ ys) (h, hx) (k, hy) e =
    let (first, rest) = field_injective x y (fields xs) (fields ys) h k e in
    let more = fields_injective xs ys hx hy rest in cc

join_from-fields : (buffer : Bytes) (xs : List Bytes) → join_from buffer xs ≡ buffer ++ fields xs
unfolding join_from fields write_bytes
join_from-fields buffer [] = sym (append-nil buffer)
join_from-fields buffer (x ∷ xs) = join_from-fields (write_bytes buffer x) xs ∙ simp append_assoc

-- Lists of secrets that join to the same bytes are the same, if every secret is shorter than 4 GiB:
-- no byte can be moved from one secret to the next.
pub join_secrets_injective :
    (xs ys : List Bytes) → Short xs → Short ys → join_secrets xs ≡ join_secrets ys → xs ≡ ys
unfolding join_secrets
join_secrets_injective xs ys hx hy e =
    fields_injective xs ys hx hy (sym (join_from-fields [] xs) ∙ e ∙ join_from-fields [] ys)

-- The fields in the order in which they are written.
abbrev pub transcript_fields : Transcript → List Bytes
transcript_fields t =
    t.version ∷ t.flow ∷ t.pairing_id ∷ t.client_device_id ∷ t.client_device_name
    ∷ t.server_device_id ∷ t.server_device_name ∷ t.client_ephemeral_public_key
    ∷ t.server_ephemeral_public_key ∷ t.client_identity_public_key ∷ t.server_identity_public_key
    ∷ []

marshal_transcript-fields :
    (t : Transcript) → marshal_transcript t ≡ join_secrets (transcript_fields t)
unfolding marshal_transcript join_secrets
marshal_transcript-fields t = refl

-- Transcripts whose fields are shorter than 4 GiB are equal if their bytes are: what is confirmed
-- and hashed determines every field, the flow included.
pub marshal_transcript_injective :
    (t u : Transcript)
    → Short (transcript_fields t)
    → Short (transcript_fields u)
    → marshal_transcript t ≡ marshal_transcript u
    → t ≡ u
marshal_transcript_injective t u ht hu e =
    let same =
      join_secrets_injective (transcript_fields t) (transcript_fields u) ht hu
        (sym (marshal_transcript-fields t) ∙ e ∙ marshal_transcript-fields u) in
    cc
