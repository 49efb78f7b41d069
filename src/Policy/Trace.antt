-- ===== src/Policy/Trace.antt =====
-- The fold over any list of checks: what its verdict says of them, and the trace that it leaves.
use razorpay_hackathon.Base.{
  ℕ, zero, suc, ◌≡◌, refl, ◌≢◌, ◌⊎◌, inl, inr, true, false, List, [], ◌∷◌, ◌++◌, map, arith, All,
  Bool-cases,
}
use razorpay_hackathon.Shared.Reason.{Verdict, verdict_for_reason, ok_000}
use razorpay_hackathon.Policy.Facts.{PolicyOutcome}
use razorpay_hackathon.Policy.Engine.{Check, evaluated_rule, fold}

abbrev pub HasPassed : Check → Type 0
HasPassed check = check.passed ≡ true

abbrev pub outcome_of_pass : List Check → PolicyOutcome
outcome_of_pass cs = record {
  verdict = Verdict.allow;
  reason_code = ok_000;
  evaluated = map evaluated_rule cs;
}

-- The first check that failed, with what stands before and after it.
pub record FirstFailure (cs : List Check) : Type 0 where
  pub before : List Check
  pub check : Check
  pub after : List Check
  pub place : cs ≡ before ++ check ∷ after
  pub earlier : All HasPassed before
  pub failed : check.passed ≡ false

abbrev pub outcome_of_failure : List Check → Check → PolicyOutcome
outcome_of_failure before check = record {
  verdict = verdict_for_reason check.reason_code;
  reason_code = check.reason_code;
  evaluated = map evaluated_rule (before ++ check ∷ []);
}

-- Either every check passed, and the fold answers ALLOW, OK-000 and a trace of all the checks; or
-- there is a first check that failed, and the fold answers that check's reason, the verdict of that
-- reason, and a trace of the checks up to and with it.
pub fold-FirstFailure :
    (cs : List Check)
    → (All HasPassed cs × (fold cs ≡ outcome_of_pass cs))
      ⊎ ((f : FirstFailure cs) × (fold cs ≡ outcome_of_failure f.before f.check))
unfolding fold
fold-FirstFailure [] = inl (tt, refl)
fold-FirstFailure (c ∷ cs) = elim (Bool-cases c.passed) [
  | inr failed ↦ inr (
    record { before = []; check = c; after = cs; place = refl; earlier = tt; failed = failed },
    ground arith,
  )
  | inl passed ↦ elim (fold-FirstFailure cs) [
    | inl (all, e) ↦ inl ((passed, all), ground arith)
    | inr (f, e) ↦ inr (
      record {
        before = c ∷ f.before;
        check = f.check;
        after = f.after;
        place = ground arith;
        earlier = (passed, f.earlier);
        failed = f.failed;
      },
      ground arith,
    )
  ]
]

abbrev pub take {ℓ} : {A : Type ℓ} → ℕ → List A → List A
take zero xs = []
take (suc n) [] = []
take (suc n) (x ∷ xs) = x ∷ take n xs

abbrev pub drop {ℓ} : {A : Type ℓ} → ℕ → List A → List A
drop zero xs = xs
drop (suc n) [] = []
drop (suc n) (x ∷ xs) = drop n xs

-- A failure of such a check would be answered with DENY.
abbrev pub Denies : Check → Type 0
Denies check = check.passed ≡ false → verdict_for_reason check.reason_code ≡ Verdict.deny

pub passed_of_not_deny :
    (n : ℕ) (cs : List Check)
    → All Denies (take n cs)
    → (fold cs).verdict ≢ Verdict.deny
    → All HasPassed (take n cs)
unfolding fold
passed_of_not_deny zero cs d h = tt
passed_of_not_deny (suc n) [] d h = tt
passed_of_not_deny (suc n) (c ∷ cs) (d, ds) h = elim (Bool-cases c.passed) [
  | inl passed ↦ (passed, passed_of_not_deny n cs ds (ground arith))
  | inr failed ↦ absurd (h (rw failed (d failed)))
]

-- Checks that passed leave the verdict to the rest.
pub fold-verdict_drop :
    (n : ℕ) (cs : List Check)
    → All HasPassed (take n cs)
    → (fold cs).verdict ≡ (fold (drop n cs)).verdict
unfolding fold
fold-verdict_drop zero cs h = refl
fold-verdict_drop (suc n) [] h = refl
fold-verdict_drop (suc n) (c ∷ cs) (passed, h) = rw passed (fold-verdict_drop n cs h)
