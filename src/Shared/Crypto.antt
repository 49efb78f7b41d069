-- ===== src/Shared/Crypto.antt =====
-- shared/crypto/hash.ts and shared/crypto/ed25519.ts. SHA-256, Ed25519 and the texts of dates come
-- from the platform: they are the fields of `Runtime`.
use razorpay_hackathon.Base.{ℕ, String, Bool, false, [], ◌∷◌, ◌++◌, length, nat_eq, if◌then◌else◌}
use razorpay_hackathon.Shared.Text.{Bytes, to_hex, utf8}
use razorpay_hackathon.Shared.Json.{JsonValue, canonical_bytes}
use razorpay_hackathon.Shared.Fault.{
  Result, ok, err, ◌>>=◌, or_throw, canonicalisation, bad_prev_hash, other,
}

-- A `Date` is its number of milliseconds since 1970.
abbrev pub Date : Type 0
Date = ℕ

pub record Runtime : Type 0 where
  -- node:crypto's SHA-256, of the concatenated parts
  pub sha256 : Bytes → Bytes
  -- node:crypto's `verify` for a raw 32-byte Ed25519 key, a message and a signature
  pub ed25519_verify : Bytes → Bytes → Bytes → Bool
  -- node:crypto's `sign` for a raw 32-byte Ed25519 key and a message
  pub ed25519_sign : Bytes → Bytes → Bytes
  -- `date.toISOString()` and `new Date(text)`
  pub iso_string : Date → String
  pub parse_date : String → Date
  -- PostgreSQL's `text::interval`, in milliseconds
  pub interval_ms : String → ℕ

-- `Buffer.alloc(32, 0)`.
abbrev pub genesis_prev_hash : Bytes
genesis_prev_hash =
    0 ∷ 0 ∷ 0 ∷ 0 ∷ 0 ∷ 0 ∷ 0 ∷ 0 ∷ 0 ∷ 0 ∷ 0 ∷ 0 ∷ 0 ∷ 0 ∷ 0 ∷ 0 ∷ 0 ∷ 0 ∷ 0 ∷ 0 ∷ 0 ∷ 0 ∷ 0 ∷ 0
    ∷ 0 ∷ 0 ∷ 0 ∷ 0 ∷ 0 ∷ 0 ∷ 0 ∷ 0 ∷ []

module _ (rt : Runtime) where
  -- SHA256(prev_hash || JCS(payload)).
  unfoldable pub chain_hash : Bytes → JsonValue → Result Bytes
  chain_hash prev payload =
      if nat_eq (length prev) 32
      then (do
        bytes ← or_throw (canonical_bytes payload) canonicalisation
        ok (rt.sha256 (prev ++ bytes)))
      else err bad_prev_hash

  unfoldable pub idempotency_key : String → String
  idempotency_key intent_id = to_hex (rt.sha256 (utf8 intent_id))

  -- A key of another length is refused with an error.
  unfoldable pub sign_bytes : Bytes → Bytes → Result Bytes
  sign_bytes private_key message =
      if nat_eq (length private_key) 32 then ok (rt.ed25519_sign private_key message) else err other

  unfoldable pub sign_payload : Bytes → JsonValue → Result Bytes
  unfolding sign_bytes
  sign_payload private_key payload = do
    bytes ← or_throw (canonical_bytes payload) canonicalisation
    sign_bytes private_key bytes

  -- A key of another length makes node:crypto throw, which is answered with false.
  unfoldable pub verify_bytes : Bytes → Bytes → Bytes → Bool
  verify_bytes public_key message signature =
      if nat_eq (length public_key) 32
      then rt.ed25519_verify public_key message signature
      else false

  unfoldable pub verify_payload : Bytes → JsonValue → Bytes → Result Bool
  unfolding verify_bytes
  verify_payload public_key payload signature = do
    bytes ← or_throw (canonical_bytes payload) canonicalisation
    ok (verify_bytes public_key bytes signature)
