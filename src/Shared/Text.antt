-- ===== src/Shared/Text.antt =====
-- What the source uses of JavaScript's texts and buffers: decimal and hexadecimal digits, UTF-8 and
-- UTF-16, joining, and the order of texts by UTF-16 code unit.
use Prim.Native.Char.{code}
use Prim.Native.String
use razorpay_hackathon.Base.{
  ℕ, zero, suc, ◌+◌, ◌-◌, ◌*◌, ◌/◌, ◌%◌, String, Bool, true, false, ◌&&◌, ◌||◌, Option, none, some,
  List, [], ◌∷◌, ◌++◌, ltb, leb, nat_eq, if◌then◌else◌,
}

-- A buffer is the list of its bytes.
abbrev pub Bytes : Type 0
Bytes = List ℕ

-- A digit, in base ten or sixteen, in lower case.
unfoldable pub digit_text : ℕ → String
digit_text zero = "0"
digit_text (suc zero) = "1"
digit_text (suc (suc zero)) = "2"
digit_text (suc (suc (suc zero))) = "3"
digit_text (suc (suc (suc (suc zero)))) = "4"
digit_text (suc (suc (suc (suc (suc zero))))) = "5"
digit_text (suc (suc (suc (suc (suc (suc zero)))))) = "6"
digit_text (suc (suc (suc (suc (suc (suc (suc zero))))))) = "7"
digit_text (suc (suc (suc (suc (suc (suc (suc (suc zero)))))))) = "8"
digit_text (suc (suc (suc (suc (suc (suc (suc (suc (suc zero))))))))) = "9"
digit_text (suc (suc (suc (suc (suc (suc (suc (suc (suc (suc n)))))))))) =
    if nat_eq n 0
    then "a"
    else if nat_eq n 1
    then "b"
    else if nat_eq n 2
    then "c"
    else if nat_eq n 3
    then "d"
    else if nat_eq n 4
    then "e"
    else "f"

-- Decimal digits, most significant first. A number has no more digits than its value, so the
-- fuel `n` of `to_decimal` never runs out.
decimal_from : ℕ → ℕ → String
decimal_from zero n = ""
decimal_from (suc fuel) n =
    let shorter = String.◌++◌ (decimal_from fuel (n / 10)) (digit_text (n % 10)) in
    if ltb n 10 then digit_text n else shorter

-- `value.toString(10)`.
unfoldable pub to_decimal : ℕ → String
unfolding decimal_from digit_text
to_decimal n = decimal_from (suc n) n

-- `toString("hex")`.
unfoldable pub to_hex : Bytes → String
unfolding digit_text
to_hex [] = ""
to_hex (b ∷ bs) = String.◌++◌ (digit_text (b / 16)) (String.◌++◌ (digit_text (b % 16)) (to_hex bs))

unfoldable pub hex_value : ℕ → Option ℕ
hex_value c =
    if leb b'0' c && leb c b'9'
    then some (c - b'0')
    else if leb b'a' c && leb c b'f'
    then some (c - b'a' + 10)
    else if leb b'A' c && leb c b'F'
    then some (c - b'A' + 10)
    else none

-- `Buffer.from(text, "hex")` reads pairs of digits and stops at the first that is none.
unfoldable pub from_hex : String → Bytes
unfolding hex_value
from_hex String.[] = []
from_hex (String.◌∷◌ c String.[]) = []
from_hex (String.◌∷◌ c (String.◌∷◌ d s)) = elim (hex_value (code c)) [
  | none ↦ []
  | some high ↦ elim (hex_value (code d)) [ none ↦ [] | some low ↦ (high * 16 + low) ∷ from_hex s ]
]

utf8_char : ℕ → Bytes
utf8_char c =
    if ltb c 128
    then c ∷ []
    else if ltb c 2048
    then (192 + c / 64) ∷ (128 + c % 64) ∷ []
    else if ltb c 65536
    then (224 + c / 4096) ∷ (128 + c / 64 % 64) ∷ (128 + c % 64) ∷ []
    else (240 + c / 262144) ∷ (128 + c / 4096 % 64) ∷ (128 + c / 64 % 64) ∷ (128 + c % 64) ∷ []

-- `Buffer.from(text, "utf8")`.
unfoldable pub utf8 : String → Bytes
unfolding utf8_char
utf8 String.[] = []
utf8 (String.◌∷◌ c s) = utf8_char (code c) ++ utf8 s

-- `parts.join(separator)`.
unfoldable pub join : String → List String → String
join separator [] = ""
join separator (part ∷ []) = part
join separator (part ∷ next ∷ rest) =
    String.◌++◌ part (String.◌++◌ separator (join separator (next ∷ rest)))

unfoldable pub bool_text : Bool → String
bool_text true = "true"
bool_text false = "false"

utf16_char : ℕ → List ℕ
utf16_char c =
    if ltb c 65536 then c ∷ [] else (55296 + (c - 65536) / 1024) ∷ (56320 + (c - 65536) % 1024) ∷ []

unfoldable pub utf16 : String → List ℕ
unfolding utf16_char
utf16 String.[] = []
utf16 (String.◌∷◌ c s) = utf16_char (code c) ++ utf16 s

-- The order of two texts by code unit, which `<` and `sort()` use: is the first at most the second?
unfoldable pub units_le : List ℕ → List ℕ → Bool
units_le [] _ = true
units_le (a ∷ as') [] = false
units_le (a ∷ as') (b ∷ bs) = ltb a b || nat_eq a b && units_le as' bs

unfoldable pub text_le : String → String → Bool
unfolding units_le utf16
text_le s t = units_le (utf16 s) (utf16 t)
