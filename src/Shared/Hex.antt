-- ===== src/Shared/Hex.antt =====
-- Hexadecimal texts: what `toString("hex")` writes, `Buffer.from(text, "hex")` reads back.
use Prim.Native.Char.{Char, code}
use Prim.Native.String
use Prim.Native.String.append.{nil, cons}
use razorpay_hackathon.Base.{
  ℕ, zero, suc, ◌+◌, ◌*◌, ◌/◌, ◌%◌, ◌<◌, String, ◌≡◌, refl, ap, ◌∙◌, some, [], ◌∷◌, All, arith,
}
use razorpay_hackathon.Shared.Text.{Bytes, digit_text, hex_value, to_hex, from_hex}

-- The character of a digit, and its value.
record HexDigit (d : ℕ) : Type 0 where
  char : Char
  written : digit_text d ≡ String.◌∷◌ char String.[]
  read : hex_value (code char) ≡ some d

too_large :
    (d : ℕ)
    → suc
        (suc (suc (suc (suc (suc (suc (suc (suc (suc (suc (suc (suc (suc (suc (suc d)))))))))))))))
      < 16
    → ⊥
too_large d h = omega (arith, h)

digit-HexDigit : (d : ℕ) → d < 16 → HexDigit d
unfolding digit_text hex_value
digit-HexDigit zero h = record { char = "0"; written = refl; read = refl }
digit-HexDigit (suc zero) h = record { char = "1"; written = refl; read = refl }
digit-HexDigit (suc (suc zero)) h = record { char = "2"; written = refl; read = refl }
digit-HexDigit (suc (suc (suc zero))) h = record { char = "3"; written = refl; read = refl }
digit-HexDigit (suc (suc (suc (suc zero)))) h = record { char = "4"; written = refl; read = refl }
digit-HexDigit (suc (suc (suc (suc (suc zero))))) h = record {
  char = "5";
  written = refl;
  read = refl;
}
digit-HexDigit (suc (suc (suc (suc (suc (suc zero)))))) h = record {
  char = "6";
  written = refl;
  read = refl;
}
digit-HexDigit (suc (suc (suc (suc (suc (suc (suc zero))))))) h = record {
  char = "7";
  written = refl;
  read = refl;
}
digit-HexDigit (suc (suc (suc (suc (suc (suc (suc (suc zero)))))))) h = record {
  char = "8";
  written = refl;
  read = refl;
}
digit-HexDigit (suc (suc (suc (suc (suc (suc (suc (suc (suc zero))))))))) h = record {
  char = "9";
  written = refl;
  read = refl;
}
digit-HexDigit (suc (suc (suc (suc (suc (suc (suc (suc (suc (suc zero)))))))))) h = record {
  char = "a";
  written = refl;
  read = refl;
}
digit-HexDigit (suc (suc (suc (suc (suc (suc (suc (suc (suc (suc (suc zero))))))))))) h = record {
  char = "b";
  written = refl;
  read = refl;
}
digit-HexDigit (suc (suc (suc (suc (suc (suc (suc (suc (suc (suc (suc (suc zero)))))))))))) h =
    record { char = "c"; written = refl; read = refl }
digit-HexDigit (suc (suc (suc (suc (suc (suc (suc (suc (suc (suc (suc (suc (suc zero)))))))))))))
      h =
    record { char = "d"; written = refl; read = refl }
digit-HexDigit
      (suc (suc (suc (suc (suc (suc (suc (suc (suc (suc (suc (suc (suc (suc zero)))))))))))))) h =
    record { char = "e"; written = refl; read = refl }
digit-HexDigit
      (suc (suc (suc (suc (suc (suc (suc (suc (suc (suc (suc (suc (suc (suc (suc zero)))))))))))))))
      h =
    record { char = "f"; written = refl; read = refl }
digit-HexDigit
      (suc
        (suc (suc (suc (suc (suc (suc (suc (suc (suc (suc (suc (suc (suc (suc (suc d))))))))))))))))
      h =
    elim (too_large d h) [ ]

char-append : (c : Char) (t : String) → String.◌++◌ (String.◌∷◌ c String.[]) t ≡ String.◌∷◌ c t
char-append c t = (λ i. cons c String.[] t i) ∙ ap (String.◌∷◌ c) (λ i. nil t i)

from_hex-pair :
    (high low : ℕ) (bs : Bytes)
    → HexDigit high
    → HexDigit low
    → from_hex (String.◌++◌ (digit_text high) (String.◌++◌ (digit_text low) (to_hex bs)))
      ≡ (high * 16 + low) ∷ from_hex (to_hex bs)
unfolding from_hex
from_hex-pair high low bs h l =
    rw
      (
        h.written,
        l.written,
        char-append l.char (to_hex bs),
        char-append h.char (String.◌∷◌ l.char (to_hex bs)),
      )
      (rw (h.read, l.read, from_hex) refl)

-- What is written of a buffer, whose elements are bytes, is read back.
pub from_hex-to_hex : (bs : Bytes) → All (λ b. b < 256) bs → from_hex (to_hex bs) ≡ bs
unfolding to_hex from_hex
from_hex-to_hex [] h = refl
from_hex-to_hex (b ∷ bs) (here, rest) =
    from_hex-pair (b / 16) (b % 16) bs (digit-HexDigit (b / 16) (omega (arith, here)))
      (digit-HexDigit (b % 16) (omega arith))
    ∙ rw (from_hex-to_hex bs rest) (ap (λ n. n ∷ bs) (omega arith))
