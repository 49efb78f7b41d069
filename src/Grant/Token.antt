-- ===== src/Grant/Token.antt =====
-- modules/consent/authorization-token.ts: the merchant's statement of who approves, carried by the
-- shopper's browser. HMAC, base64 and JSON come from outside.
use Prim.Native.Char.{Char, code}
use Prim.Native.String
use razorpay_hackathon.Base.{
  ℕ, ◌+◌, ◌*◌, String, Bool, false, ◌||◌, not, Option, none, some, List, [], ◌∷◌, ◌==◌, is_some,
  ltb, nat_eq, if◌then◌else◌,
}
use razorpay_hackathon.Shared.Text.{Bytes, utf8}
use razorpay_hackathon.Shared.Crypto.{Date}
use razorpay_hackathon.Ledger.Entry.{bytes_eq}

pub record AuthorizationClaims : Type 0 where
  pub ref : String
  pub customer_ref : String
  pub fulfilment_ref : String
  pub display_name : String
  pub display_address : String
  pub expires_at : Date

-- The members of a JSON object that have the types of the claims.
pub record ClaimsJson : Type 0 where
  pub ref : Option String
  pub customer_ref : Option String
  pub fulfilment_ref : Option String
  pub display_name : Option String
  pub display_address : Option String
  pub expires_at : Option Date

pub data TokenOutcome : Type 0 where
  valid : ClaimsJson → TokenOutcome
  malformed bad_signature expired wrong_request : TokenOutcome

-- What `JSON.parse` makes of a text: it throws, or answers `null`, or a value with members.
pub data Parsed : Type 0 where
  unreadable null : Parsed
  members : ClaimsJson → Parsed

-- Node's HMAC-SHA-256 and buffers, and JSON.
pub record TokenRuntime : Type 0 where
  pub hmac_sha256 : String → String → Bytes
  pub to_base64 : Bytes → String
  pub from_base64url : Bytes → Bytes
  pub to_text : Bytes → String
  pub stringify : AuthorizationClaims → String
  pub parse : String → Parsed

-- `text.replaceAll(char, by)`.
unfoldable pub replace_all : ℕ → String → String → String
replace_all d by String.[] = ""
replace_all d by (String.◌∷◌ c s) =
    String.◌++◌ (if nat_eq (code c) d then by else String.◌∷◌ c String.[]) (replace_all d by s)

abbrev pub push_char : Char → List String → List String
push_char c [] = String.◌∷◌ c String.[] ∷ []
push_char c (part ∷ parts) = String.◌∷◌ c part ∷ parts

-- `text.split(char)`.
unfoldable pub split_text : ℕ → String → List String
split_text d String.[] = "" ∷ []
split_text d (String.◌∷◌ c s) =
    let rest = split_text d s in if nat_eq (code c) d then "" ∷ rest else push_char c rest

abbrev pub mint_ttl_ms : ℕ
mint_ttl_ms = 10 * 60 * 1000

module _ (rt : TokenRuntime) where
  unfoldable pub b64url : Bytes → String
  b64url input =
      replace_all b'=' "" (replace_all b'/' "_" (replace_all b'+' "-" (rt.to_base64 input)))

  abbrev pub sign_token : String → String → String
  sign_token secret payload = b64url (rt.hmac_sha256 secret payload)

  -- `mintAuthorizationToken` at the time `now`; the claims come without their end.
  unfoldable pub mint_authorization_token : String → AuthorizationClaims → ℕ → Date → String
  mint_authorization_token secret claims ttl_ms now =
      let payload = b64url (utf8 (rt.stringify (record claims { expires_at = now + ttl_ms }))) in
      String.◌++◌ payload (String.◌++◌ "." (sign_token secret payload))

  abbrev pub is_ref : Option String → String → Bool
  is_ref none expected = false
  is_ref (some ref) expected = ref == expected

  abbrev pub is_past : Option Date → Date → Bool
  is_past none now = false
  is_past (some end) now = ltb end now

  unfoldable pub check_claims : ClaimsJson → String → Date → TokenOutcome
  check_claims claims expected_ref now =
      if not (is_some claims.ref)
        || not (is_some claims.customer_ref)
        || not (is_some claims.fulfilment_ref)
        || not (is_some claims.expires_at)
      then malformed
      else if not (is_ref claims.ref expected_ref)
      then wrong_request
      else if is_past claims.expires_at now
      then expired
      else valid claims

  -- What the JSON of the payload says. The members of `null` cannot be read, which throws.
  abbrev pub read_claims : Parsed → String → Date → Option TokenOutcome
  read_claims unreadable expected_ref now = some malformed
  read_claims null expected_ref now = none
  read_claims (members claims) expected_ref now = some (check_claims claims expected_ref now)

  abbrev pub read_parts : String → List String → String → Date → Option TokenOutcome
  read_parts secret [] expected_ref now = some malformed
  read_parts secret (payload ∷ []) expected_ref now = some malformed
  read_parts secret (payload ∷ signature ∷ more) expected_ref now =
      if not (bytes_eq (utf8 (sign_token secret payload)) (utf8 signature))
      then some bad_signature
      else read_claims (rt.parse (rt.to_text (rt.from_base64url (utf8 payload)))) expected_ref now

  -- `verifyAuthorizationToken` at the time `now`.
  unfoldable pub verify_authorization_token : String → String → String → Date → Option TokenOutcome
  verify_authorization_token secret token expected_ref now =
      read_parts secret (split_text b'.' token) expected_ref now
