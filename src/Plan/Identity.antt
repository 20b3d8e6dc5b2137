-- ===== src/Plan/Identity.antt =====
-- Identifiers and identities of src/plan.rs. SHA-256 and serde_json are dependencies: the
-- parameters `sha256` and `Serializer`.
use Prim.Native.String.{◌++◌ as str_append}
use colloq.Prelude.{
  ℕ, String, ◌≡◌, refl, Option, none, some, List, [], ◌∷◌, Bool, true, false, ◌&&◌, ◌||◌, eqb, all,
  length, ◌<◌, ◌∙◌, ap, sym, some_inj, All, Result, ok, err, ◌>>=◌, ◌>>◌,
}
use colloq.Prelude.Hex.{is_hex, encode_hex, encode_hex-digits, encode_hex_inj}
use colloq.Prelude.Text.{codes, is_lower, is_digit, strip_prefix, codes-append, strip_prefix-append}
use colloq.Conversation.{Conversation}
use colloq.Validate.{validate}
use colloq.Validate.Reachability.{Diagnostic}
use colloq.Plan.Wire.{PlanError, invalid_conversation, codec}
use colloq.Codec.{Bytes, Serializer}

id_char : ℕ → Bool
id_char c = is_lower c || is_digit c || (eqb c b'_' || eqb c b'.' || eqb c b'-')

id_codes : List ℕ → Bool
unfolding id_char
id_codes [] = false
id_codes (first ∷ characters) = is_lower first && all id_char characters

unfoldable pub valid_id : String → Bool
unfolding id_codes
valid_id value = id_codes (codes value)

-- A text of hexadecimal digits has as many bytes as characters.
sha256_digest : Option (List ℕ) → Bool
sha256_digest none = false
sha256_digest (some digest) = eqb (length digest) 64 && all is_hex digest

unfoldable pub valid_sha256 : String → Bool
unfolding sha256_digest
valid_sha256 value = sha256_digest (strip_prefix (codes "sha256:") (codes value))

module _ (sha256 : Bytes → Bytes) where
  unfoldable pub sha256_identity : Bytes → String
  sha256_identity encoded = str_append "sha256:" (encode_hex (sha256 encoded))

-- The error of `serde_json::to_vec`.
unfoldable pub or_codec {ℓ} : {A : Type ℓ} → Option A → Result PlanError A
or_codec none = err codec
or_codec (some a) = ok a

-- `#[from] ValidationErrors`
unfoldable pub or_diagnostics : Result (List Diagnostic) (Unit {0}) → Result PlanError (Unit {0})
or_diagnostics (ok u) = ok u
or_diagnostics (err ds) = err (invalid_conversation ds)

module _ {ℓ} {V : Type ℓ} (json : Serializer (Conversation V)) (sha256 : Bytes → Bytes) where
  unfoldable pub conversation_identity_validated : Conversation V → Result PlanError String
  unfolding or_codec
  conversation_identity_validated c = do
    encoded ← or_codec (json.to_vec (record c { schema = none; annotations = [] }))
    ok (sha256_identity sha256 encoded)

  unfoldable pub conversation_identity : Conversation V → Result PlanError String
  unfolding or_diagnostics
  conversation_identity c = do or_diagnostics (validate c); conversation_identity_validated c

-- What SHA-256 promises: 32 bytes.
abbrev pub IsDigest : Bytes → Type 0
IsDigest digest = (length digest ≡ 32) × All (λ b. b < 256) digest

read :
    (digest : Bytes)
    → strip_prefix (codes "sha256:") (codes (str_append "sha256:" (encode_hex digest)))
      ≡ some (codes (encode_hex digest))
read digest =
    ap (strip_prefix (codes "sha256:")) (codes-append "sha256:" (encode_hex digest))
    ∙ strip_prefix-append (codes "sha256:") (codes (encode_hex digest))

-- The identity of any bytes is a valid one, since a digest has 32 bytes.
pub valid_sha256-sha256_identity :
    (sha256 : Bytes → Bytes)
    → ((b : Bytes) → IsDigest (sha256 b))
    → (encoded : Bytes) → valid_sha256 (sha256_identity sha256 encoded) ≡ true
unfolding valid_sha256 sha256_digest sha256_identity
valid_sha256-sha256_identity sha256 d encoded =
    let (n, h) = encode_hex-digits (sha256 encoded) in
    rw (read (sha256 encoded), n, (d encoded).0, h) refl

-- Two identities are the same only if the digests are.
pub sha256_identity_inj :
    (sha256 : Bytes → Bytes)
    → ((b : Bytes) → IsDigest (sha256 b))
    → (x y : Bytes) → sha256_identity sha256 x ≡ sha256_identity sha256 y
    → sha256 x ≡ sha256 y
unfolding sha256_identity
sha256_identity_inj sha256 d x y e = encode_hex_inj (sha256 x) (sha256 y) (d x).1 (d y).1 (
    some_inj (
      sym (read (sha256 x))
      ∙ (ap (λ t. strip_prefix (codes "sha256:") (codes t)) e ∙ read (sha256 y))))
