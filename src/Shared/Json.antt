-- ===== src/Shared/Json.antt =====
-- shared/crypto/jcs.ts: JSON values and their canonical text (RFC 8785).
use Prim.Native.Char.{code}
use Prim.Native.String
use razorpay_hackathon.Base.{
  ℕ, suc, ◌/◌, ◌%◌, String, Bool, Option, none, some, List, [], ◌∷◌, map, ltb, leb, nat_eq,
  if◌then◌else◌,
}
use razorpay_hackathon.Shared.Text.{Bytes, digit_text, to_decimal, bool_text, join, utf8, text_le}

-- A JavaScript number: an integer, or one that is not.
pub data JsNumber : Type 0 where
  nat : ℕ → JsNumber
  -- `neg n` is -(n + 1).
  neg : ℕ → JsNumber
  fractional non_finite : JsNumber

mutual
  pub data JsonValue : Type 0 where
    null : JsonValue
    bool : Bool → JsonValue
    number : JsNumber → JsonValue
    text : String → JsonValue
    array : JsonItems → JsonValue
    object : JsonMembers → JsonValue

  pub data JsonItems : Type 0 where
    nil : JsonItems
    cons : JsonValue → JsonItems → JsonItems

  -- The own keys of an object, in order of insertion, each once.
  pub data JsonMembers : Type 0 where
    end : JsonMembers
    member : String → JsonValue → JsonMembers → JsonMembers

-- `x ?? null` for texts.
unfoldable pub nullable : Option String → JsonValue
nullable none = null
nullable (some s) = text s

unfoldable pub texts : List String → JsonItems
texts [] = nil
texts (s ∷ ss) = cons (text s) (texts ss)

-- The escapes of `JSON.stringify`.
escape : ℕ → String → String
unfolding digit_text
escape c same =
    if nat_eq c 34
    then "\\\""
    else if nat_eq c 92
    then "\\\\"
    else if nat_eq c 8
    then "\\b"
    else if nat_eq c 12
    then "\\f"
    else if nat_eq c 10
    then "\\n"
    else if nat_eq c 13
    then "\\r"
    else if nat_eq c 9
    then "\\t"
    else if ltb c 32
    then String.◌++◌ "\\u00" (String.◌++◌ (digit_text (c / 16)) (digit_text (c % 16)))
    else same

escaped : String → String
unfolding escape
escaped String.[] = ""
escaped (String.◌∷◌ c s) = String.◌++◌ (escape (code c) (String.◌∷◌ c "")) (escaped s)

unfoldable pub canonicalise_string : String → String
unfolding escaped
canonicalise_string value = String.◌++◌ "\"" (String.◌++◌ (escaped value) "\"")

abbrev max_safe_integer : ℕ
max_safe_integer = 9007199254740991

-- `none` is a CanonicalisationError.
unfoldable pub canonicalise_number : JsNumber → Option String
unfolding to_decimal
canonicalise_number (nat n) = if leb n max_safe_integer then some (to_decimal n) else none
canonicalise_number (neg n) =
    if ltb n max_safe_integer then some (String.◌++◌ "-" (to_decimal (suc n))) else none
canonicalise_number fractional = none
canonicalise_number non_finite = none

-- `Object.keys(value).sort()`, each key with the canonical text of its member.
unfoldable pub insert_key : String × String → List (String × String) → List (String × String)
unfolding text_le
insert_key e [] = e ∷ []
insert_key e (f ∷ fs) = if text_le e.0 f.0 then e ∷ f ∷ fs else f ∷ insert_key e fs

unfoldable pub sort_keys : List (String × String) → List (String × String)
unfolding insert_key
sort_keys [] = []
sort_keys (e ∷ es) = insert_key e (sort_keys es)

unfoldable pub member_text : String × String → String
unfolding canonicalise_string
member_text (key, value) = String.◌++◌ (canonicalise_string key) (String.◌++◌ ":" value)

infixl 5 ◌>>=◌
abbrev ◌>>=◌ {ℓ κ} : {A : Type ℓ} {B : Type κ} → Option A → (A → Option B) → Option B
none >>= f = none
some a >>= f = f a

unfoldable mutual
  unfolding canonicalise_number canonicalise_string sort_keys member_text join bool_text

  pub canonicalise : JsonValue → Option String
  canonicalise null = some "null"
  canonicalise (bool value) = some (bool_text value)
  canonicalise (number value) = canonicalise_number value
  canonicalise (text value) = some (canonicalise_string value)
  canonicalise (array items) = do
    parts ← canonicalise_items items
    some (String.◌++◌ "[" (String.◌++◌ (join "," parts) "]"))
  canonicalise (object members) = do
    parts ← canonicalise_members members
    some (String.◌++◌ "{" (String.◌++◌ (join "," (map member_text (sort_keys parts))) "}"))

  pub canonicalise_items : JsonItems → Option (List String)
  canonicalise_items nil = some []
  canonicalise_items (cons item items) = do
    part ← canonicalise item
    parts ← canonicalise_items items
    some (part ∷ parts)

  pub canonicalise_members : JsonMembers → Option (List (String × String))
  canonicalise_members end = some []
  canonicalise_members (member key value members) = do
    part ← canonicalise value
    parts ← canonicalise_members members
    some ((key, part) ∷ parts)

unfoldable pub canonical_bytes : JsonValue → Option Bytes
unfolding canonicalise utf8
canonical_bytes value = do canonical ← canonicalise value; some (utf8 canonical)
