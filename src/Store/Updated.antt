-- ===== src/Store/Updated.antt =====
-- What a query finds after an insert or an update.
use mathlib.Core.Path.{subst}
use razorpay_hackathon.Base.{
  ◌∙◌, ◌≡◌, refl, inl, inr, Bool, true, false, some, List, [], ◌∷◌, ◌++◌, arith, find, is_some, any,
  Bool-cases, if◌then◌else◌,
}
use razorpay_hackathon.Store.Writes.{update_where}

module _ {ℓ} {A : Type ℓ} where
  -- An update that keeps the keys leaves the updated row where the row was.
  pub find-update_where :
      (p q : A → Bool) (f : A → A) (xs : List A) {x : A}
      → ((y : A) → p (f y) ≡ p y)
      → ((y : A) → p y ≡ true → q y ≡ true)
      → find p xs ≡ some x
      → find p (update_where q f xs) ≡ some (f x)
  find-update_where p q f [] keeps covers e = cc
  find-update_where p q f (y ∷ xs) {x = x} keeps covers e = elim (Bool-cases (p y)) [
    | inl here ↦ let same = keeps y in let covered = covers y here in ground arith
    | inr later ↦
        let rest = find-update_where p q f xs {x = x} keeps covers (rw later at e) in
        let same = keeps y in
        elim (Bool-cases (q y)) [
          | inl updated ↦ rw (updated, if◌then◌else◌) (rw (same, later) rest)
          | inr left ↦ rw (left, if◌then◌else◌) (rw later rest)
        ]
  ]

  -- An update of rows that a query does not ask for leaves its answer.
  pub find-update_where_apart :
      (p q : A → Bool) (f : A → A) (xs : List A)
      → ((y : A) → p (f y) ≡ p y)
      → ((y : A) → q y ≡ true → p y ≡ false)
      → find p (update_where q f xs) ≡ find p xs
  find-update_where_apart p q f [] keeps apart = refl
  find-update_where_apart p q f (y ∷ xs) keeps apart =
      let rest = find-update_where_apart p q f xs keeps apart in
      let same = keeps y in
      elim (Bool-cases (q y)) [
        | inl updated ↦
            let left_out = apart y updated in
            rw (updated, if◌then◌else◌) (rw (same, left_out, if◌then◌else◌) rest)
        | inr left ↦ rw (left, if◌then◌else◌) (rw rest refl)
      ]

  pub find-update_keys :
      (p q : A → Bool) (f : A → A) (xs : List A)
      → ((y : A) → p (f y) ≡ p y)
      → is_some (find p (update_where q f xs)) ≡ is_some (find p xs)
  find-update_keys p q f [] keeps = refl
  find-update_keys p q f (y ∷ xs) keeps =
      let same = keeps y in
      let rest = find-update_keys p q f xs keeps in
      elim (Bool-cases (q y)) [
        | inl updated ↦ rw (updated, if◌then◌else◌) (ground (arith, same, rest))
        | inr left ↦ rw (left, if◌then◌else◌) (ground (arith, rest))
      ]

  -- A row that is inserted is found where none was, and no other query finds it.
  pub find-append_new :
      (p : A → Bool) (xs : List A) (x : A)
      → any p xs ≡ false
      → p x ≡ true
      → find p (xs ++ x ∷ []) ≡ some x
  find-append_new p [] x new own = ground arith
  find-append_new p (y ∷ xs) x new own = ground (arith, find-append_new p xs x)

  pub find-append_kept :
      (p : A → Bool) (xs : List A) (new : A) {x : A}
      → find p xs ≡ some x
      → find p (xs ++ new ∷ []) ≡ some x
  find-append_kept p [] new e = cc
  find-append_kept p (y ∷ xs) new {x = x} e = elim (Bool-cases (p y)) [
    | inl here ↦ rw (here, if◌then◌else◌) (rw (here, if◌then◌else◌) at e)
    | inr later ↦
        rw (later, if◌then◌else◌)
          (find-append_kept p xs new {x = x} (rw (later, if◌then◌else◌) at e))
  ]

  pub find-append_other :
      (p : A → Bool) (xs : List A) (x : A) → p x ≡ false → find p (xs ++ x ∷ []) ≡ find p xs
  find-append_other p [] x other = ground arith
  find-append_other p (y ∷ xs) x other = ground (arith, find-append_other p xs x other)

  pub any-find : (p : A → Bool) (xs : List A) → any p xs ≡ is_some (find p xs)
  any-find p [] = refl
  any-find p (y ∷ xs) = ground (arith, any-find p xs)

  -- No row of a test's is any of a narrower test's.
  pub any-narrower :
      (p q : A → Bool) (xs : List A)
      → ((y : A) → p y ≡ true → q y ≡ true)
      → any q xs ≡ false
      → any p xs ≡ false
  any-narrower p q [] narrow none_of = refl
  any-narrower p q (y ∷ xs) narrow none_of = ground (arith, any-narrower p q xs narrow, narrow y)

-- What a query finds after an update that keeps its key is what it found before, or the updated form
-- of it: either way it is related to it, if every updated row is.
pub find-update_related {ℓ κ} :
    {A : Type ℓ} (R : A → A → Type κ) (p q : A → Bool) (f : A → A) (xs : List A) {x : A}
    → ((y : A) → R y y)
    → ((y : A) → q y ≡ true → (p (f y) ≡ p y) × R y (f y))
    → find p xs ≡ some x
    → (later : A) × (find p (update_where q f xs) ≡ some later) × R x later
find-update_related R p q f [] stays moves e = cc
find-update_related R p q f (y ∷ xs) {x = x} stays moves e = elim (Bool-cases (q y)) [
  | inl updated ↦
      let (keeps, moved) = moves y updated in
      elim (Bool-cases (p y)) [
        | inl own ↦
            let same : y ≡ x = ground (arith, own) in
            (
              f y,
              rw (updated, if◌then◌else◌) (rw (keeps ∙ own, if◌then◌else◌) refl),
              subst (λ z. R z (f y)) same moved,
            )
        | inr other ↦
            let (later, found, rest) =
              find-update_related R p q f xs {x = x} stays moves (rw other at e) in
            (later, rw (updated, if◌then◌else◌) (rw (keeps ∙ other, if◌then◌else◌) found), rest)
      ]
  | inr left ↦ elim (Bool-cases (p y)) [
    | inl own ↦
        let same : y ≡ x = ground (arith, own) in
        (
          y,
          rw (left, if◌then◌else◌) (rw (own, if◌then◌else◌) refl),
          subst (λ z. R z y) same (stays y),
        )
    | inr other ↦
        let (later, found, rest) =
          find-update_related R p q f xs {x = x} stays moves (rw other at e) in
        (later, rw (left, if◌then◌else◌) (rw (other, if◌then◌else◌) found), rest)
  ]
]
