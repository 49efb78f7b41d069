-- ===== src/Pricing/Rotated.antt =====
-- Rotating a signing key: one key is active afterwards, and what was signed before still verifies.
use razorpay_hackathon.Base.{
  String, ◌≡◌, refl, ap, ◌∙◌, inl, inr, true, false, Option, some, List, [], ◌∷◌, ◌++◌, arith, any,
  find, ◌==◌, ==_refl, if◌then◌else◌, Bool-cases, Option-cases, All, All-append,
}
use razorpay_hackathon.Shared.Crypto.{Runtime}
use razorpay_hackathon.Shared.Fault.{ok}
use razorpay_hackathon.Store.Rows.{VerificationKey, KeyState, Db}
use razorpay_hackathon.Store.Reads.{find_verification_key}
use razorpay_hackathon.Store.Writes.{update_where}
use razorpay_hackathon.Store.Updated.{find-append_new, find-append_kept}
use razorpay_hackathon.Authorization.Request.{SignedQuote}
use razorpay_hackathon.Grant.Identity.{
  RawKeyPair, is_active_for, find_active_key, insert_key_row, rotate_signing_key,
}
use razorpay_hackathon.Pricing.Quote.{verify_signature}

abbrev retire : VerificationKey → VerificationKey
retire k = record k { state = KeyState.retired }

All-inactive :
    (purpose kid : String) (keys : List VerificationKey)
    → any (is_active_for purpose) keys ≡ false
    → All (λ (k : VerificationKey). is_active_for purpose k ≡ true → k.kid ≡ kid) keys
All-inactive purpose kid [] e = tt
All-inactive purpose kid (k ∷ keys) e =
    (λ active. ground (arith, active), All-inactive purpose kid keys (ground arith))

-- No key stays active for the purpose.
any-retired :
    (purpose : String) (keys : List VerificationKey)
    → any (is_active_for purpose) (update_where (is_active_for purpose) retire keys) ≡ false
any-retired purpose [] = refl
any-retired purpose (k ∷ keys) = elim (Bool-cases (is_active_for purpose k)) [
  | inl active ↦ rw (active, if◌then◌else◌) (ground (arith, any-retired purpose keys))
  | inr other ↦ rw (other, if◌then◌else◌) (rw other (any-retired purpose keys))
]

-- A key that is retired, or not, is still found for verification.
find-retired :
    (purpose kid : String) (keys : List VerificationKey) {k : VerificationKey}
    → find (λ (x : VerificationKey). x.kid == kid) keys ≡ some k
    → (later : VerificationKey) × (find
          (λ (x : VerificationKey). x.kid == kid)
          (update_where (is_active_for purpose) retire keys)
        ≡ some later)
      × (later.purpose ≡ k.purpose)
      × (later.public_key ≡ k.public_key)
find-retired purpose kid [] e = cc
find-retired purpose kid (x ∷ keys) {k = k} e = elim (Bool-cases (x.kid == kid)) [
  | inl own ↦
      let same : x ≡ k = ground (arith, own) in
      elim (Bool-cases (is_active_for purpose x)) [
        | inl active ↦ (
          retire x,
          rw (active, if◌then◌else◌) (rw (own, if◌then◌else◌) refl),
          ap (λ (y : VerificationKey). y.purpose) same,
          ap (λ (y : VerificationKey). y.public_key) same,
        )
        | inr left ↦ (
          x,
          rw (left, if◌then◌else◌) (rw (own, if◌then◌else◌) refl),
          ap (λ (y : VerificationKey). y.purpose) same,
          ap (λ (y : VerificationKey). y.public_key) same,
        )
      ]
  | inr other ↦
      let (later, found, p, q) = find-retired purpose kid keys {k = k} (rw other at e) in
      elim (Bool-cases (is_active_for purpose x)) [
        | inl active ↦ (later, rw (active, if◌then◌else◌) (rw (other, if◌then◌else◌) found), p, q)
        | inr left ↦ (later, rw (left, if◌then◌else◌) (rw (other, if◌then◌else◌) found), p, q)
      ]
]

module _ (kid : String) (pair : RawKeyPair) (purpose : String) (db : Db) where
  abbrev new_key : VerificationKey
  new_key = record {
    kid = kid;
    purpose = purpose;
    state = KeyState.active;
    public_key = pair.public_key;
    private_key = some pair.private_key;
  }

  rotate_signing_key-keys :
      {retired : Option String} {db' : Db}
      → rotate_signing_key kid pair purpose db ≡ ok (retired, db')
      → db'.keys ≡ update_where (is_active_for purpose) retire db.keys ++ new_key ∷ []
  unfolding rotate_signing_key insert_key_row
  rotate_signing_key-keys e = ground arith

  -- After a rotation the new key is the active one of its purpose, and every key of the store that
  -- is active for the purpose has its `kid`.
  pub rotate_signing_key-active :
      {retired : Option String} {db' : Db}
      → rotate_signing_key kid pair purpose db ≡ ok (retired, db')
      → (find_active_key db' purpose ≡ some new_key)
        × All (λ (k : VerificationKey). is_active_for purpose k ≡ true → k.kid ≡ kid) db'.keys
  rotate_signing_key-active {db' = db'} e =
      let keys = rotate_signing_key-keys e in
      let none_active = any-retired purpose db.keys in
      rw keys (
        find-append_new (is_active_for purpose)
            (update_where (is_active_for purpose) retire db.keys) new_key none_active
            (rw (==_refl purpose) refl),
        All-append (λ (k : VerificationKey). is_active_for purpose k ≡ true → k.kid ≡ kid)
            (update_where (is_active_for purpose) retire db.keys) (new_key ∷ [])
            (All-inactive purpose kid _ none_active) (λ active. refl, tt),
      )

  -- A signed quote that verifies still verifies after a rotation, of whatever purpose: a key that is
  -- retired is kept for verification.
  pub rotate_signing_key-verify_signature :
      (rt : Runtime) (signed : SignedQuote) {retired : Option String} {db' : Db}
      → rotate_signing_key kid pair purpose db ≡ ok (retired, db')
      → verify_signature rt signed db ≡ ok true
      → verify_signature rt signed db' ≡ ok true
  unfolding verify_signature
  rotate_signing_key-verify_signature rt signed {db' = db'} e valid =
      elim (Option-cases (find_verification_key db signed.kid)) [
        | inl missing ↦ ground (arith, rw (missing, verify_signature) at valid)
        | inr (k, found) ↦
            let (later, there, same_purpose, same_key) =
              find-retired purpose signed.kid db.keys {k = k} found in
            let found' : find_verification_key db' signed.kid ≡ some later =
              ap (find (λ (x : VerificationKey). x.kid == signed.kid)) (rotate_signing_key-keys e)
              ∙ find-append_kept (λ (x : VerificationKey). x.kid == signed.kid) _ new_key there in
            rw (found', same_purpose, same_key, verify_signature)
              (rw (found, verify_signature) at valid)
      ]
