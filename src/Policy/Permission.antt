-- ===== src/Policy/Permission.antt =====
-- When the policy engine allows, steps up or denies, in terms of the facts alone.
use razorpay_hackathon.Base.{
  ◌+◌, ◌≤◌, ◌<◌, String, ◌≡◌, refl, ◌≢◌, ◌↔◌, ◌⊎◌, inl, inr, true, false, none, some, List, [], ◌∷◌,
  sym, ◌∙◌, arith, All, IsIn, includes_iff, ==_iff, Option-cases, is_none,
}
use razorpay_hackathon.Shared.Reason.{Verdict, ReasonCode, verdict_for_reason, int_001}
use razorpay_hackathon.Shared.Crypto.{Date}
use razorpay_hackathon.Policy.Facts.{PolicyFacts, VerifierOutcome, MandateState}
use razorpay_hackathon.Policy.Engine.{fold, checks, evaluate, is_subset, failure_or}
use razorpay_hackathon.Policy.Trace.{HasPassed, Denies, passed_of_not_deny, fold-verdict_drop, take}

-- The verifier raised no objection, and its absence is tolerated below the silent threshold only.
abbrev pub Tolerates : VerifierOutcome → Type 0 → Type 0
Tolerates VerifierOutcome.proceed Silent = Unit
Tolerates (VerifierOutcome.deny _) Silent = ⊥
Tolerates (VerifierOutcome.unavailable _) Silent = Silent

-- What the mandate permits, whether or not a human has to look.
pub record IsAdmissible (f : PolicyFacts) : Type 0 where
  pub stateless : f.stateless_failure ≡ none
  pub untainted : f.intent.taint_reached_decision_field ≡ false
  pub registered : f.agent_registered ≡ true
  pub verified : Tolerates f.verifier (f.intent.amount_paise ≤ f.mandate.silent_threshold_paise)
  pub binds_agent : f.mandate.agent_id ≡ f.intent.agent_id
  pub auth_event : f.mandate.has_auth_event ≡ true
  pub live : f.mandate.state ≡ MandateState.live
  pub begun : f.mandate.not_before ≤ f.now
  pub not_over : f.now < f.mandate.not_after
  pub merchant : IsIn f.intent.merchant_id f.mandate.allowed_merchants
  pub categories : All (λ c. IsIn c f.mandate.allowed_categories) f.quote.categories
  pub fresh_nonce : f.nonce_already_spent ≡ false
  pub fresh_quote : f.quote_already_consumed ≡ false
  pub quote_current : f.now < f.quote.expires_at
  pub per_transaction : f.intent.amount_paise ≤ f.mandate.per_transaction_paise
  pub cumulative :
      f.reserved_and_captured_paise + f.intent.amount_paise ≤ f.mandate.cumulative_paise
  pub velocity : f.reservations_last_hour < f.mandate.velocity_per_hour

-- No human has to look: a small amount, at a merchant where the mandate has settled before.
abbrev pub IsSilent : PolicyFacts → Type 0
IsSilent f =
    (f.intent.amount_paise ≤ f.mandate.silent_threshold_paise)
    × (f.seen_this_merchant_before ≡ true)

-- Stateless validation reports only codes that deny.
abbrev pub HasDenyingFailure : PolicyFacts → Type 0
HasDenyingFailure f =
    (code : ReasonCode) → f.stateless_failure ≡ some code → verdict_for_reason code ≡ Verdict.deny

is_subset_iff :
    (vs allowed : List String) → (is_subset vs allowed ≡ true) ↔ All (λ v. IsIn v allowed) vs
is_subset_iff [] allowed = ground arith
is_subset_iff (v ∷ vs) allowed = ground (arith, includes_iff v allowed, is_subset_iff vs allowed)

pub is_deny-cases : (v : Verdict) → (v ≡ Verdict.deny) ⊎ (v ≢ Verdict.deny)
is_deny-cases Verdict.deny = inl refl
is_deny-cases Verdict.allow = inr (cc)
is_deny-cases Verdict.step_up = inr (cc)

-- A stateless failure is answered with its own code.
stateless_denies :
    (f : PolicyFacts)
    → HasDenyingFailure f
    → is_none f.stateless_failure ≡ false
    → verdict_for_reason (failure_or int_001 f.stateless_failure) ≡ Verdict.deny
stateless_denies f h e = elim (Option-cases f.stateless_failure) [
  | inl nothing ↦ cc
  | inr (code, failed) ↦ rw failed (h code failed)
]

module _ (iso : Date → String) (f : PolicyFacts) where
  checks-Denies : HasDenyingFailure f → All Denies (take 17 (checks iso f))
  unfolding checks
  checks-Denies h = ground (arith, stateless_denies f h)

  passed-IsAdmissible : All HasPassed (take 17 (checks iso f)) → IsAdmissible f
  unfolding checks
  passed-IsAdmissible h = ground (
    arith,
    includes_iff f.intent.merchant_id f.mandate.allowed_merchants,
    is_subset_iff f.quote.categories f.mandate.allowed_categories,
    ==_iff f.mandate.agent_id f.intent.agent_id,
  )

  IsAdmissible-passed : IsAdmissible f → All HasPassed (take 17 (checks iso f))
  unfolding checks
  IsAdmissible-passed h = ground (
    arith,
    includes_iff f.intent.merchant_id f.mandate.allowed_merchants,
    is_subset_iff f.quote.categories f.mandate.allowed_categories,
    ==_iff f.mandate.agent_id f.intent.agent_id,
  )

  -- The two checks that are left ask for a human.
  fold-steps :
      All HasPassed (take 17 (checks iso f))
      → ((evaluate iso f).verdict ≡ Verdict.allow) × IsSilent f
        ⊎ ((evaluate iso f).verdict ≡ Verdict.step_up) × ¬ IsSilent f
  unfolding evaluate
  fold-steps h = rw (fold-verdict_drop 17 (checks iso f) h) (unfold checks fold in ground arith)

  -- An admissible request is allowed or stepped up; any other is denied.
  outcome_cases :
      HasDenyingFailure f
      → IsAdmissible f
          × (((evaluate iso f).verdict ≡ Verdict.allow) × IsSilent f
              ⊎ ((evaluate iso f).verdict ≡ Verdict.step_up) × ¬ IsSilent f)
        ⊎ ((evaluate iso f).verdict ≡ Verdict.deny) × ¬ IsAdmissible f
  outcome_cases d = elim (is_deny-cases (evaluate iso f).verdict) [
    | inl denied ↦ inr (denied, λ a. grind (arith, fold-steps (IsAdmissible-passed a)))
    | inr other ↦
        let passed =
          passed_of_not_deny 17 (checks iso f) (checks-Denies d) (unfold evaluate in other) in
        inl (passed-IsAdmissible passed, fold-steps passed)
  ]

  -- With no stateless failure but one that denies, the answer is
  -- ALLOW exactly when the request is admissible and no human has to look;
  -- STEP_UP exactly when it is admissible and a human has to look;
  -- DENY exactly when it is not admissible.
  pub evaluate-verdict_iff :
      HasDenyingFailure f
      → (((evaluate iso f).verdict ≡ Verdict.allow) ↔ (IsAdmissible f × IsSilent f))
        × (((evaluate iso f).verdict ≡ Verdict.step_up) ↔ (IsAdmissible f × ¬ IsSilent f))
        × (((evaluate iso f).verdict ≡ Verdict.deny) ↔ ¬ IsAdmissible f)
  evaluate-verdict_iff d = ground (arith, outcome_cases d)

-- The verifier only subtracts: with no stateless failure but one that denies, where the answer
-- with some verifier outcome is not DENY, it has the verdict that no objection at all would have
-- had.
pub evaluate-verifier_subtracts :
    (iso : Date → String) (f : PolicyFacts)
    → HasDenyingFailure f
    → (evaluate iso f).verdict ≢ Verdict.deny
    → (evaluate iso (record f { verifier = VerifierOutcome.proceed })).verdict
      ≡ (evaluate iso f).verdict
evaluate-verifier_subtracts iso f d h =
    let g : PolicyFacts = record f { verifier = VerifierOutcome.proceed } in
    elim (outcome_cases iso f d) [
      | inr (denied, _) ↦ absurd (h denied)
      | inl (a, answer) ↦
          let b : IsAdmissible g = ground (arith, a) in
          elim (fold-steps iso g (IsAdmissible-passed iso g b)) [
            | inl (allowed, silent) ↦ elim answer [
              | inl (same, _) ↦ allowed ∙ sym same
              | inr (_, loud) ↦ absurd (loud silent)
            ]
            | inr (stepped, loud) ↦ elim answer [
              | inl (_, silent) ↦ absurd (loud silent)
              | inr (same, _) ↦ stepped ∙ sym same
            ]
          ]
    ]

-- Whatever is not denied is admissible.
pub not_denied-IsAdmissible :
    (iso : Date → String) (f : PolicyFacts)
    → HasDenyingFailure f
    → (evaluate iso f).verdict ≢ Verdict.deny
    → IsAdmissible f
not_denied-IsAdmissible iso f d h = elim (outcome_cases iso f d) [
  | inl (a, _) ↦ a
  | inr (denied, _) ↦ absurd (h denied)
]
