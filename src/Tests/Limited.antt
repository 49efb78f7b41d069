-- ===== src/Tests/Limited.antt =====
-- The rate limiter at concrete requests: four for one consent source, and one of another source.
use razorpay_hackathon.Base.{ℕ, ◌*◌, ◌+◌, ◌/◌, ◌-◌, ◌≤◌, refl, inl, inr, [], ◌∷◌, arith}
use razorpay_hackathon.Edge.RateLimit.{bucket_of, full}
use razorpay_hackathon.Edge.Admission.{Asked, admitted, admitted-cost_le}

abbrev ceil : ℕ → ℕ
ceil ms = (ms + 999) / 1000

abbrev ask : Asked
ask = record { at = 5; kind = "consent"; subject = "s" }

abbrev elsewhere : Asked
elsewhere = record { at = 5; kind = "agent"; subject = "s" }

admitted-cost_le_example :
    admitted ceil "consent" "s" (ask ∷ ask ∷ elsewhere ∷ ask ∷ ask ∷ []) []
      * (bucket_of "consent").ms_per_token
    ≤ full (bucket_of "consent") + (9 - 0)
admitted-cost_le_example =
    admitted-cost_le ceil "consent" "s" (ask ∷ ask ∷ elsewhere ∷ ask ∷ ask ∷ []) [] 0 9
      (
        inl (refl, refl),
        (inl (refl, refl), (inr (λ e. cc), (inl (refl, refl), (inl (refl, refl), tt)))),
      )
      (omega arith, (omega arith, (omega arith, (omega arith, (omega arith, omega arith)))))
