-- ===== src/Grant/Encoded.antt =====
-- The texts of authorisation tokens: their parts and their base64url.
use Prim.Native.Char.{Char, code}
use Prim.Native.String
use Prim.Native.String.append.{nil, cons}
use razorpay_hackathon.Base.{
  ℕ, String, Bool, false, ◌||◌, ◌≡◌, refl, ap, ◌∙◌, inl, inr, List, [], ◌∷◌, nat_eq, true,
  if◌then◌else◌, Bool-cases, arith,
}
use razorpay_hackathon.Shared.Text.{Bytes}
use razorpay_hackathon.Grant.Token.{TokenRuntime, replace_all, push_char, split_text, b64url}

-- Does the text have the character?
abbrev pub has_char : ℕ → String → Bool
has_char d String.[] = false
has_char d (String.◌∷◌ c s) = nat_eq (code c) d || has_char d s

pub has_char-append :
    (d : ℕ) (s t : String)
    → has_char d s ≡ false
    → has_char d t ≡ false
    → has_char d (String.◌++◌ s t) ≡ false
has_char-append d String.[] t h k = rw (nil t) k
has_char-append d (String.◌∷◌ c s) t h k = rw (cons c s t) (elim (Bool-cases (nat_eq (code c) d)) [
  | inl own ↦ ground (arith, own, h)
  | inr other ↦ rw other (has_char-append d s t (rw other at h) k)
])

has_char-replace_all :
    (d e : ℕ) (by s : String)
    → has_char d by ≡ false
    → has_char d s ≡ false
    → has_char d (replace_all e by s) ≡ false
unfolding replace_all
has_char-replace_all d e by String.[] k h = refl
has_char-replace_all d e by (String.◌∷◌ c s) k h = elim (Bool-cases (nat_eq (code c) d)) [
  | inl own ↦ ground (arith, own, h)
  | inr other ↦
      let rest = has_char-replace_all d e by s k (rw other at h) in
      elim (Bool-cases (nat_eq (code c) e)) [
        | inl replaced ↦ rw (replaced, if◌then◌else◌) (has_char-append d by _ k rest)
        | inr stays ↦
            rw (stays, if◌then◌else◌)
              (has_char-append d (String.◌∷◌ c String.[]) _ (rw other refl) rest)
      ]
]

split_text-none : (d : ℕ) (s : String) → has_char d s ≡ false → split_text d s ≡ s ∷ []
unfolding split_text
split_text-none d String.[] h = refl
split_text-none d (String.◌∷◌ c s) h = elim (Bool-cases (nat_eq (code c) d)) [
  | inl own ↦ ground (arith, own, h)
  | inr other ↦ rw (other, if◌then◌else◌) (ap (push_char c) (split_text-none d s (rw other at h)))
]

pub split_text-dot :
    (s t : String)
    → has_char b'.' s ≡ false
    → has_char b'.' t ≡ false
    → split_text b'.' (String.◌++◌ s (String.◌++◌ "." t)) ≡ s ∷ t ∷ []
unfolding split_text
split_text-dot String.[] t h k =
    rw (nil (String.◌++◌ "." t), cons "." "" t, nil t)
      (ap (λ (parts : List String). "" ∷ parts) (split_text-none b'.' t k))
split_text-dot (String.◌∷◌ c s) t h k =
    rw (cons c s (String.◌++◌ "." t)) (elim (Bool-cases (nat_eq (code c) b'.')) [
      | inl own ↦ ground (arith, own, h)
      | inr other ↦
          rw (other, if◌then◌else◌) (ap (push_char c) (split_text-dot s t (rw other at h) k))
    ])

replace_all-other :
    (d : ℕ) (by : String) (c : Char) (s : String)
    → nat_eq (code c) d ≡ false
    → replace_all d by (String.◌∷◌ c s) ≡ String.◌∷◌ c (replace_all d by s)
unfolding replace_all
replace_all-other d by c s other =
    rw (other, if◌then◌else◌)
      (cons c "" (replace_all d by s) ∙ ap (String.◌∷◌ c) (nil (replace_all d by s)))

replace_all-char :
    (d : ℕ) (by c : Char) (s : String)
    → nat_eq (code c) d ≡ true
    → replace_all d (String.◌∷◌ by "") (String.◌∷◌ c s)
      ≡ String.◌∷◌ by (replace_all d (String.◌∷◌ by "") s)
unfolding replace_all
replace_all-char d by c s own =
    rw (own, if◌then◌else◌)
      (cons by "" (replace_all d (String.◌∷◌ by "") s)
        ∙ ap (String.◌∷◌ by) (nil (replace_all d (String.◌∷◌ by "") s)))

replace_all-drop :
    (d : ℕ) (c : Char) (s : String)
    → nat_eq (code c) d ≡ true
    → replace_all d "" (String.◌∷◌ c s) ≡ replace_all d "" s
unfolding replace_all
replace_all-drop d c s own = rw (own, if◌then◌else◌) (nil (replace_all d "" s))

replace_all-empty : (d : ℕ) (by : String) → replace_all d by "" ≡ ""
unfolding replace_all
replace_all-empty d by = refl

-- The base64url form of a base64 text, without padding: `-` for `+`, `_` for `/`, and no `=`.
unfoldable pub url_form : String → String
url_form String.[] = ""
url_form (String.◌∷◌ c s) =
    if nat_eq (code c) b'+'
    then String.◌∷◌ "-" (url_form s)
    else if nat_eq (code c) b'/'
    then String.◌∷◌ "_" (url_form s)
    else if nat_eq (code c) b'='
    then url_form s
    else String.◌∷◌ c (url_form s)

replace_all-url_form :
    (s : String) → replace_all b'=' "" (replace_all b'/' "_" (replace_all b'+' "-" s)) ≡ url_form s
unfolding url_form
replace_all-url_form String.[] =
    ap (λ t. replace_all b'=' "" (replace_all b'/' "_" t)) (replace_all-empty b'+' "-")
    ∙ ap (replace_all b'=' "") (replace_all-empty b'/' "_")
    ∙ replace_all-empty b'=' ""
replace_all-url_form (String.◌∷◌ c s) =
    let rest = replace_all-url_form s in
    elim (Bool-cases (nat_eq (code c) b'+')) [
      | inl plus ↦
          rw (plus, if◌then◌else◌)
            (ap (λ t. replace_all b'=' "" (replace_all b'/' "_" t))
                (replace_all-char b'+' "-" c s plus)
              ∙ ap (replace_all b'=' "")
                  (replace_all-other b'/' "_" "-" (replace_all b'+' "-" s) refl)
              ∙ replace_all-other b'=' "" "-" (replace_all b'/' "_" (replace_all b'+' "-" s)) refl
              ∙ ap (String.◌∷◌ "-") rest)
      | inr no_plus ↦
          rw (no_plus, if◌then◌else◌)
            (ap (λ t. replace_all b'=' "" (replace_all b'/' "_" t))
                (replace_all-other b'+' "-" c s no_plus)
              ∙ elim (Bool-cases (nat_eq (code c) b'/')) [
                | inl slash ↦
                    rw (slash, if◌then◌else◌)
                      (ap (replace_all b'=' "")
                          (replace_all-char b'/' "_" c (replace_all b'+' "-" s) slash)
                        ∙ replace_all-other b'=' "" "_"
                            (replace_all b'/' "_" (replace_all b'+' "-" s)) refl
                        ∙ ap (String.◌∷◌ "_") rest)
                | inr no_slash ↦
                    rw (no_slash, if◌then◌else◌)
                      (ap (replace_all b'=' "")
                          (replace_all-other b'/' "_" c (replace_all b'+' "-" s) no_slash)
                        ∙ elim (Bool-cases (nat_eq (code c) b'=')) [
                          | inl pad ↦
                              rw (pad, if◌then◌else◌)
                                (replace_all-drop b'=' c
                                    (replace_all b'/' "_" (replace_all b'+' "-" s)) pad
                                  ∙ rest)
                          | inr plain ↦
                              rw (plain, if◌then◌else◌)
                                (replace_all-other b'=' "" c
                                    (replace_all b'/' "_" (replace_all b'+' "-" s)) plain
                                  ∙ ap (String.◌∷◌ c) rest)
                        ])
              ])
    ]

module _ (rt : TokenRuntime) where
  pub b64url-no_dot :
      ((input : Bytes) → has_char b'.' (rt.to_base64 input) ≡ false)
      → (input : Bytes) → has_char b'.' (b64url rt input) ≡ false
  unfolding b64url
  b64url-no_dot alphabet input = has_char-replace_all b'.' b'=' "" _ refl (
      has_char-replace_all b'.' b'/' "_" _ refl
        (has_char-replace_all b'.' b'+' "-" _ refl (alphabet input)))

  pub b64url-url_form : (input : Bytes) → b64url rt input ≡ url_form (rt.to_base64 input)
  unfolding b64url
  b64url-url_form input = replace_all-url_form (rt.to_base64 input)
