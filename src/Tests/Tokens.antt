-- ===== src/Tests/Tokens.antt =====
-- An authorisation token that is minted and read back.
use Prim.Native.String
use razorpay_hackathon.Base.{
  ℕ, zero, suc, ◌+◌, ◌*◌, ◌/◌, ◌%◌, false, ◌≡◌, refl, none, some, [], ◌∷◌, ◌==◌, nat_eq,
  if◌then◌else◌, inl, inr, Bool-cases,
}
use razorpay_hackathon.Shared.Text.{Bytes, digit_text, hex_value, to_hex, utf8}
use razorpay_hackathon.Ledger.Entry.{bytes_eq}
use razorpay_hackathon.Grant.Token.{
  AuthorizationClaims, valid, unreadable, members, TokenRuntime, mint_ttl_ms,
  mint_authorization_token, verify_authorization_token,
}
use razorpay_hackathon.Grant.Encoded.{has_char, has_char-append, url_form}
use razorpay_hackathon.Grant.Minted.{
  claims_json, IsReadBack, verify_authorization_token-mint_authorization_token,
}

abbrev claims : AuthorizationClaims
claims = record {
  ref = "r";
  customer_ref = "cust";
  fulfilment_ref = "ful";
  display_name = "A";
  display_address = "B";
  expires_at = 0;
}

abbrev dated : AuthorizationClaims
dated = record claims { expires_at = 10 + mint_ttl_ms }

-- A base64 that writes hexadecimal digits.
abbrev unhex : Bytes → Bytes
unhex [] = []
unhex (c ∷ []) = []
unhex (c ∷ d ∷ rest) = elim (hex_value c) [
  | none ↦ []
  | some high ↦ elim (hex_value d) [ none ↦ [] | some low ↦ (high * 16 + low) ∷ unhex rest ]
]

abbrev node : TokenRuntime
node = record {
  hmac_sha256 = λ secret payload. utf8 secret;
  to_base64 = to_hex;
  from_base64url = unhex;
  to_text = λ bytes. if bytes_eq bytes (utf8 "{claims}") then "{claims}" else "";
  stringify = λ given. "{claims}";
  parse = λ text. if text == "{claims}" then members (claims_json dated) else unreadable;
}

digit-no_dot : (d : ℕ) → has_char b'.' (digit_text d) ≡ false
unfolding digit_text
digit-no_dot zero = refl
digit-no_dot (suc zero) = refl
digit-no_dot (suc (suc zero)) = refl
digit-no_dot (suc (suc (suc zero))) = refl
digit-no_dot (suc (suc (suc (suc zero)))) = refl
digit-no_dot (suc (suc (suc (suc (suc zero))))) = refl
digit-no_dot (suc (suc (suc (suc (suc (suc zero)))))) = refl
digit-no_dot (suc (suc (suc (suc (suc (suc (suc zero))))))) = refl
digit-no_dot (suc (suc (suc (suc (suc (suc (suc (suc zero)))))))) = refl
digit-no_dot (suc (suc (suc (suc (suc (suc (suc (suc (suc zero))))))))) = refl
digit-no_dot (suc (suc (suc (suc (suc (suc (suc (suc (suc (suc n)))))))))) =
    elim (Bool-cases (nat_eq n 0)) [
      | inl e ↦ rw (e, if◌then◌else◌) refl
      | inr e ↦
          rw (e, if◌then◌else◌)
            (elim (Bool-cases (nat_eq n 1)) [
              | inl e ↦ rw (e, if◌then◌else◌) refl
              | inr e ↦
                  rw (e, if◌then◌else◌)
                    (elim (Bool-cases (nat_eq n 2)) [
                      | inl e ↦ rw (e, if◌then◌else◌) refl
                      | inr e ↦
                          rw (e, if◌then◌else◌)
                            (elim (Bool-cases (nat_eq n 3)) [
                              | inl e ↦ rw (e, if◌then◌else◌) refl
                              | inr e ↦
                                  rw (e, if◌then◌else◌)
                                    (elim (Bool-cases (nat_eq n 4)) [
                                      | inl e ↦ rw (e, if◌then◌else◌) refl
                                      | inr e ↦ rw (e, if◌then◌else◌) refl
                                    ])
                            ])
                    ])
            ])
    ]

to_hex-no_dot : (input : Bytes) → has_char b'.' (to_hex input) ≡ false
unfolding to_hex
to_hex-no_dot [] = refl
to_hex-no_dot (b ∷ bs) =
    let low = digit-no_dot (b % 16) in
    has_char-append b'.' (digit_text (b / 16)) (String.◌++◌ (digit_text (b % 16)) (to_hex bs))
      (digit-no_dot (b / 16))
      (has_char-append b'.' (digit_text (b % 16)) (to_hex bs) low (to_hex-no_dot bs))

node-IsReadBack : IsReadBack node dated
unfolding utf8 url_form to_hex digit_text hex_value
node-IsReadBack = record {
  base64_alphabet = to_hex-no_dot;
  base64_read = refl;
  utf8_read = refl;
  json_read = refl;
}

verify_authorization_token-mint_authorization_token_example :
    verify_authorization_token node "s"
      (mint_authorization_token node "s" claims mint_ttl_ms 10)
      "r"
      20
    ≡ some (valid (claims_json dated))
verify_authorization_token-mint_authorization_token_example =
    verify_authorization_token-mint_authorization_token node "s" claims mint_ttl_ms 10 "r" 20
      node-IsReadBack
