-- ===== src/Ledger/Tamper.antt =====
-- What the hash of a head binds.
use razorpay_hackathon.Base.{
  ℕ, suc, ◌≡◌, refl, ◌≢◌, ◌⊎◌, inl, inr, some, List, [], ◌∷◌, ◌++◌, arith, length, map, Bool-cases,
  Option-cases, Option, sym, ◌∙◌,
}
use razorpay_hackathon.Shared.Text.{Bytes}
use razorpay_hackathon.Shared.Json.{JsonValue, canonical_bytes}
use razorpay_hackathon.Shared.Crypto.{Runtime, chain_hash}
use razorpay_hackathon.Shared.Fault.{ok}
use razorpay_hackathon.Ledger.Entry.{StoredEntry, bytes_eq}
use razorpay_hackathon.Ledger.Chain.{IsChain, last_hash}
use razorpay_hackathon.Ledger.Verify.{bytes_eq_iff}

-- Two different inputs with one SHA-256.
pub record Collision (rt : Runtime) : Type 0 where
  pub first : Bytes
  pub second : Bytes
  pub differ : first ≢ second
  pub same : rt.sha256 first ≡ rt.sha256 second

abbrev pub canonical_payloads : List StoredEntry → List (Option Bytes)
canonical_payloads = map (λ (e : StoredEntry). canonical_bytes e.payload_redacted)

append_injective : (a b c d : Bytes) → length a ≡ length b → a ++ c ≡ b ++ d → (a ≡ b) × (c ≡ d)
append_injective [] [] c d h e = (refl, e)
append_injective [] (y ∷ b) c d h e = absurd (omega arith)
append_injective (x ∷ a) [] c d h e = absurd (omega arith)
append_injective (x ∷ a) (y ∷ b) c d h e =
    let tails : a ++ c ≡ b ++ d = cc in
    let (p, q) = append_injective a b c d (omega arith) tails in (cc, q)

module _ (rt : Runtime) where
  -- A hash that was computed is that of the 32 bytes before it and of some canonical bytes.
  hashed_bytes :
      (prev hash : Bytes) (payload : JsonValue)
      → chain_hash rt prev payload ≡ ok hash
      → (bytes : Bytes) × (canonical_bytes payload ≡ some bytes)
        × (rt.sha256 (prev ++ bytes) ≡ hash)
        × (length prev ≡ 32)
  unfolding chain_hash
  hashed_bytes prev hash payload h = elim (Option-cases (canonical_bytes payload)) [
    | inl thrown ↦ ground arith
    | inr (bytes, canonical) ↦ (bytes, canonical, ground arith, ground arith)
  ]

  hash_binds :
      (p q h : Bytes) (a b : JsonValue)
      → chain_hash rt p a ≡ ok h
      → chain_hash rt q b ≡ ok h
      → ((p ≡ q) × (canonical_bytes a ≡ canonical_bytes b)) ⊎ Collision rt
  hash_binds p q h a b ha hb =
      let (x, ex, sx, lx) = hashed_bytes p h a ha in
      let (y, ey, sy, ly) = hashed_bytes q h b hb in
      elim (Bool-cases (bytes_eq (p ++ x) (q ++ y))) [
        | inl same ↦
            let (e, f) = append_injective p q x y (omega arith) ((bytes_eq_iff _ _).0 same) in
            inl (e, cc)
        | inr other ↦ inr (record {
          first = p ++ x;
          second = q ++ y;
          differ = λ e. absurd (grind (arith, (bytes_eq_iff (p ++ x) (q ++ y)).1 e));
          same = sx ∙ sym sy;
        })
      ]

  chains_bind :
      (es fs : List StoredEntry) (i j : ℕ) (p q : Bytes)
      → IsChain rt i p es
      → IsChain rt j q fs
      → length es ≡ length fs
      → last_hash p es ≡ last_hash q fs
      → ((p ≡ q) × (canonical_payloads es ≡ canonical_payloads fs)) ⊎ Collision rt
  chains_bind [] [] i j p q hp hq l e = inl (e, refl)
  chains_bind [] (f ∷ fs) i j p q hp hq l e = absurd (omega arith)
  chains_bind (e ∷ es) [] i j p q hp hq l h = absurd (omega arith)
  chains_bind (e ∷ es) (f ∷ fs) i j p q (_, _, he, hes) (_, _, hf, hfs) l h =
      elim (chains_bind es fs (suc i) (suc j) e.hash f.hash hes hfs (omega arith) h) [
        | inr c ↦ inr c
        | inl (same, rest) ↦
            elim (hash_binds p q f.hash e.payload_redacted f.payload_redacted (rw same at he) hf) [
              | inr c ↦ inr c
              | inl (prevs, heads) ↦ inl (prevs, cc)
            ]
      ]

  -- Two well-formed chains with as many entries and one head hash hold the same canonical payloads,
  -- entry for entry, or a collision of SHA-256 is at hand.
  pub IsChain-tamper_evident :
      (es fs : List StoredEntry) (p : Bytes)
      → IsChain rt 0 p es
      → IsChain rt 0 p fs
      → length es ≡ length fs
      → last_hash p es ≡ last_hash p fs
      → (canonical_payloads es ≡ canonical_payloads fs) ⊎ Collision rt
  IsChain-tamper_evident es fs p he hf l h = elim (chains_bind es fs 0 0 p p he hf l h) [
    | inl (_, same) ↦ inl same
    | inr c ↦ inr c
  ]
