-- ===== src/Grant/Guesses.antt =====
-- How many wrong codes a consent request answers before the next code is sent.
use razorpay_hackathon.Base.{
  ℕ, ◌+◌, ◌-◌, ◌≤◌, String, ◌≡◌, refl, ap, inl, inr, not, ◌||◌, Option, none, some, List, [], ◌∷◌,
  arith, find_holds, ◌==◌, ==_iff, Bool-cases, Option-cases, leb, leb_iff,
}
use razorpay_hackathon.Shared.Text.{Bytes}
use razorpay_hackathon.Shared.Crypto.{Runtime, Date}
use razorpay_hackathon.Ledger.Entry.{bytes_eq}
use razorpay_hackathon.Store.Updated.{find-update_where}
use razorpay_hackathon.Grant.Consent.{
  ConsentState, ConsentRow, ConsentDb, ConsentOptions, update_request, GrantOutcome, Checked,
  answered, find_request, is_request, is_otp_sent, otp_hash_of, check_code, check_row,
}

-- The attempts that are left to a request.
abbrev pub left_of : Option ConsentRow → ℕ
left_of none = 0
left_of (some row) = 5 - row.otp_attempts

abbrev is_wrong : Checked → ℕ
is_wrong (answered (GrantOutcome.wrong_code left)) = 1
is_wrong _ = 0

module _ (rt : Runtime) (options : ConsentOptions) (request_ref : String) where
  -- Codes that are submitted one after the other: how many are answered as wrong.
  pub wrong_codes : List (Date × String) → ConsentDb → ℕ
  wrong_codes [] db = 0
  wrong_codes ((clock, code) ∷ tries) db =
      is_wrong (check_code rt options clock request_ref code db).0
      + wrong_codes tries (check_code rt options clock request_ref code db).1

  pub find-update_request :
      (row : ConsentRow) (db : ConsentDb) (f : ConsentRow → ConsentRow)
      → ((y : ConsentRow) → (f y).request_ref ≡ y.request_ref)
      → row.request_ref ≡ request_ref
      → find_request db request_ref ≡ some row
      → find_request (update_request (is_request row.request_ref) f db) request_ref ≡ some (f row)
  find-update_request row db f keeps own found =
      find-update_where (is_request request_ref) (is_request row.request_ref) f db.requests
        {x = row} (λ y. ap (λ n. n == request_ref) (keeps y)) (λ y h. rw own h) found

  check_row-left :
      (clock : Date) (row : ConsentRow) (hash : Bytes) (expires_at : Date) (code : String)
      (db : ConsentDb)
      → find_request db request_ref ≡ some row
      → is_wrong (check_row rt options clock row hash expires_at code db).0
          + left_of
              (find_request (check_row rt options clock row hash expires_at code db).1 request_ref)
        ≡ left_of (some row)
  unfolding check_row
  check_row-left clock row hash expires_at code db found =
      let own : row.request_ref ≡ request_ref =
        (==_iff row.request_ref request_ref).0
          (find_holds (is_request request_ref) db.requests row found) in
      elim (Bool-cases
        (not (is_otp_sent row.state) || (leb expires_at clock || leb 5 row.otp_attempts))) [
          | inl over ↦
              let expired =
                find-update_request row db
                  (λ r. record r { state = ConsentState.expired; resolved_at = some db.store.now })
                  (λ y. refl) own found in
              rw over (rw expired (omega arith))
          | inr open_still ↦
              elim (Bool-cases
                (bytes_eq (otp_hash_of rt options clock row.request_ref code) hash)) [
                  | inl right ↦ rw (open_still, right) (rw found (omega arith))
                  | inr wrong ↦
                      let counted =
                        find-update_request row db
                          (λ r. record r { otp_attempts = row.otp_attempts + 1 }) (λ y. refl) own
                          found in
                      let few : row.otp_attempts + 1 ≤ 5 =
                        ground (arith, open_still, leb_iff 5 row.otp_attempts) in
                      rw (open_still, wrong) (rw counted (omega (arith, few)))
                ]
        ]

  check_code-left :
      (clock : Date) (code : String) (db : ConsentDb)
      → is_wrong (check_code rt options clock request_ref code db).0
          + left_of (find_request (check_code rt options clock request_ref code db).1 request_ref)
        ≡ left_of (find_request db request_ref)
  unfolding check_code
  check_code-left clock code db = elim (Option-cases (find_request db request_ref)) [
    | inl missing ↦ rw (missing, check_code) (rw missing (omega arith))
    | inr (r, found) ↦ elim (Option-cases r.otp_hash) [
      | inl missing ↦ rw (found, missing, check_code) (rw found (omega arith))
      | inr (hash, eh) ↦ elim (Option-cases r.otp_expires_at) [
        | inl missing ↦ rw (found, eh, missing, check_code) (rw found (omega arith))
        | inr (expires_at, ee) ↦
            rw (found, eh, ee, check_code) (check_row-left clock r hash expires_at code db found)
      ]
    ]
  ]

  -- However many codes are submitted for a request, one after the other and at whatever times, as
  -- long as no new code is sent: no more of them are answered as wrong than five less the attempts
  -- that the store counted before, and none where the store has no such request.
  pub wrong_codes-le :
      (tries : List (Date × String)) (db : ConsentDb)
      → wrong_codes tries db ≤ left_of (find_request db request_ref)
  unfolding wrong_codes
  wrong_codes-le [] db = omega arith
  wrong_codes-le ((clock, code) ∷ tries) db = omega (
    arith,
    check_code-left clock code db,
    wrong_codes-le tries (check_code rt options clock request_ref code db).1,
  )
