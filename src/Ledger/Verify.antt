-- ===== src/Ledger/Verify.antt =====
-- The loop of verification against well-formed chains.
use razorpay_hackathon.Base.{
  ℕ, suc, String, ◌≡◌, refl, ◌↔◌, inl, inr, true, none, List, [], ◌∷◌, arith, length,
}
use razorpay_hackathon.Shared.Text.{Bytes}
use razorpay_hackathon.Shared.Crypto.{Runtime, chain_hash, genesis_prev_hash}
use razorpay_hackathon.Shared.Fault.{ok, Result-cases}
use razorpay_hackathon.Ledger.Entry.{
  StoredEntry, bytes_eq, read_chain, first_broken, verify_chain, ChainVerification,
}
use razorpay_hackathon.Ledger.Chain.{IsChain, HasChain}

pub bytes_eq_sound : (a b : Bytes) → bytes_eq a b ≡ true → a ≡ b
bytes_eq_sound [] [] h = refl
bytes_eq_sound [] (y ∷ b) h = cc
bytes_eq_sound (x ∷ a) [] h = cc
bytes_eq_sound (x ∷ a) (y ∷ b) h = ground (arith, bytes_eq_sound a b)

pub bytes_eq_refl : (a : Bytes) → bytes_eq a a ≡ true
bytes_eq_refl [] = refl
bytes_eq_refl (x ∷ a) = ground (arith, bytes_eq_refl a)

pub bytes_eq_iff : (a b : Bytes) → (bytes_eq a b ≡ true) ↔ (a ≡ b)
bytes_eq_iff a b = (bytes_eq_sound a b, λ e. rw e (bytes_eq_refl b))

-- The report on a chain in which nothing is broken.
abbrev pub valid_report : List StoredEntry → String → ChainVerification
valid_report ledger id = record {
  chain_id = id;
  entries = length (read_chain ledger id);
  valid = true;
  broken_at = none;
}

module _ (rt : Runtime) where
  first_broken_sound :
      (es : List StoredEntry) (i : ℕ) (prev : Bytes)
      → first_broken rt i prev es ≡ ok none
      → IsChain rt i prev es
  unfolding first_broken
  first_broken_sound [] i prev h = tt
  first_broken_sound (e ∷ es) i prev h =
      elim (Result-cases (chain_hash rt prev e.payload_redacted)) [
        | inr (fault, thrown) ↦ ground arith
        | inl (hash, hashed) ↦ ground (
          arith,
          bytes_eq_iff e.prev_hash prev,
          bytes_eq_iff hash e.hash,
          first_broken_sound es (suc i) e.hash,
        )
      ]

  first_broken_complete :
      (es : List StoredEntry) (i : ℕ) (prev : Bytes)
      → IsChain rt i prev es
      → first_broken rt i prev es ≡ ok none
  unfolding first_broken
  first_broken_complete [] i prev h = refl
  first_broken_complete (e ∷ es) i prev (s, p, c, h) = ground (
    arith,
    bytes_eq_iff e.prev_hash prev,
    bytes_eq_refl e.hash,
    first_broken_complete es (suc i) e.hash h,
  )

  -- Verification reports a chain as valid, with the number of its entries and nothing broken, exactly
  -- when the chain is well formed: numbered from 0, each entry holding the hash of the one before it
  -- and the recomputed hash of its own payload.
  pub verify_chain-valid_iff :
      (ledger : List StoredEntry) (id : String)
      → (verify_chain rt ledger id ≡ ok (valid_report ledger id)) ↔ HasChain rt ledger id
  unfolding verify_chain
  verify_chain-valid_iff ledger id =
      let entries = read_chain ledger id in
      (
        λ e. first_broken_sound entries 0 genesis_prev_hash (ground arith),
        λ h. rw (first_broken_complete entries 0 genesis_prev_hash h),
      )
