-- ===== src/Shared/Order.antt =====
-- Sorting: an insertion sort's answer does not depend on the order of its input, where the order of the
-- sort tells the elements apart; and the order of texts by code unit.
use mathlib.Core.Path.{subst}
use mathlib.Core.List.{Permᴰ}
use razorpay_hackathon.Base.{
  ℕ, String, ◌≡◌, refl, sym, ap, ◌∙◌, ◌≢◌, ◌⊎◌, inl, inr, Bool, true, false, List, [], ◌∷◌, arith,
  if◌then◌else◌, All, Bool-cases,
}
use razorpay_hackathon.Shared.Text.{units_le, utf16, text_le}

module _ {ℓ} {A : Type ℓ} (le : A → A → Bool) where
  abbrev pub insert_by : A → List A → List A
  insert_by e [] = e ∷ []
  insert_by e (f ∷ fs) = if le e f then e ∷ f ∷ fs else f ∷ insert_by e fs

  abbrev pub sort_by : List A → List A
  sort_by [] = []
  sort_by (e ∷ es) = insert_by e (sort_by es)

  -- The test decides a linear order, up to elements that it does not tell apart.
  pub record IsLinear : Type ℓ where
    pub total : (a b : A) → le a b ≡ false → le b a ≡ true
    pub transitive : (a b c : A) → le a b ≡ true → le b c ≡ true → le a c ≡ true

  abbrev pub IsApart : A → A → Type 0
  IsApart e f = (le e f ≡ false) ⊎ (le f e ≡ false)

  -- The order tells every element from the later ones.
  abbrev pub IsDistinct : List A → Type 0
  IsDistinct [] = Unit
  IsDistinct (e ∷ es) = All (IsApart e) es × IsDistinct es

  module _ (linear : IsLinear) where
    insert_by_comm_le :
        (a b : A) (es : List A)
        → le b a ≡ false
        → insert_by a (insert_by b es) ≡ insert_by b (insert_by a es)
    insert_by_comm_le a b [] apart = let below = linear.total b a apart in rw (apart, below) refl
    insert_by_comm_le a b (f ∷ fs) apart =
        let below = linear.total b a apart in
        let rest = insert_by_comm_le a b fs apart in
        elim (Bool-cases (le a f)) [
          | inl af ↦ elim (Bool-cases (le b f)) [
            | inl bf ↦ rw (af, bf, if◌then◌else◌) (rw (af, apart, below, if◌then◌else◌) refl)
            | inr bf ↦ rw (af, bf, if◌then◌else◌) (rw (af, apart, if◌then◌else◌) refl)
          ]
          | inr af ↦ elim (Bool-cases (le b f)) [
            | inl bf ↦ let af' = linear.transitive a b f below bf in ground arith
            | inr bf ↦ rw (af, bf, if◌then◌else◌) (rw (af, if◌then◌else◌) (ap (λ r. f ∷ r) rest))
          ]
        ]

    insert_by_comm :
        (a b : A) (es : List A)
        → IsApart a b
        → insert_by a (insert_by b es) ≡ insert_by b (insert_by a es)
    insert_by_comm a b es (inl apart) = sym (insert_by_comm_le b a es apart)
    insert_by_comm a b es (inr apart) = insert_by_comm_le a b es apart

    IsApart-sym : (a b : A) → IsApart a b → IsApart b a
    IsApart-sym a b (inl apart) = inr apart
    IsApart-sym a b (inr apart) = inl apart

    All-perm {κ} : {es fs : List A} (P : A → Type κ) → Permᴰ es fs → All P es → All P fs
    All-perm P Permᴰ.nil all = all
    All-perm P (Permᴰ.cons same rest) (here, all) = (subst P same here, All-perm P rest all)
    All-perm P (Permᴰ.swap first second) (here, (next, all)) =
        (subst P second next, (subst P first here, all))
    All-perm P (Permᴰ.trans front back) all = All-perm P back (All-perm P front all)

    IsDistinct-perm : {es fs : List A} → Permᴰ es fs → IsDistinct es → IsDistinct fs
    IsDistinct-perm Permᴰ.nil distinct = distinct
    IsDistinct-perm (Permᴰ.cons {a = a} {b = b} {l₂ = fs} same rest) (apart, distinct) = (
      subst (λ x. All (IsApart x) fs) same (All-perm (IsApart a) rest apart),
      IsDistinct-perm rest distinct,
    )
    IsDistinct-perm (Permᴰ.swap {a = a} {b = b} {b' = b'} {l = l} first second)
          ((apart, all), (all', distinct)) =
        subst (λ x. IsDistinct (x ∷ b' ∷ l)) second
          (subst (λ x. IsDistinct (b ∷ x ∷ l)) first
            ((IsApart-sym a b apart, all'), (all, distinct)))
    IsDistinct-perm (Permᴰ.trans front back) distinct =
        IsDistinct-perm back (IsDistinct-perm front distinct)

    -- Elements that the order tells apart are sorted in one way, however they are listed.
    pub sort_by-perm : {es fs : List A} → Permᴰ es fs → IsDistinct es → sort_by es ≡ sort_by fs
    sort_by-perm Permᴰ.nil distinct = refl
    sort_by-perm (Permᴰ.cons same rest) (apart, distinct) =
        rw (same, sort_by-perm rest distinct) refl
    sort_by-perm (Permᴰ.swap {a = a} {b = b} {l = l} first second) ((apart, apart'), distinct) =
        insert_by_comm a b (sort_by l) apart ∙ rw (first, second) refl
    sort_by-perm (Permᴰ.trans front back) distinct =
        sort_by-perm front distinct ∙ sort_by-perm back (IsDistinct-perm front distinct)

units_le-total : (a b : List ℕ) → units_le a b ≡ false → units_le b a ≡ true
unfolding units_le
units_le-total [] b above = cc
units_le-total (x ∷ a) [] above = refl
units_le-total (x ∷ a) (y ∷ b) above = ground (arith, units_le-total a b)

units_le-transitive :
    (a b c : List ℕ) → units_le a b ≡ true → units_le b c ≡ true → units_le a c ≡ true
unfolding units_le
units_le-transitive [] b c below below' = refl
units_le-transitive (x ∷ a) [] c below below' = cc
units_le-transitive (x ∷ a) (y ∷ b) [] below below' = cc
units_le-transitive (x ∷ a) (y ∷ b) (z ∷ c) below below' = ground (arith, units_le-transitive a b c)

units_le-antisym : (a b : List ℕ) → units_le a b ≡ true → units_le b a ≡ true → a ≡ b
unfolding units_le
units_le-antisym [] [] below below' = refl
units_le-antisym [] (y ∷ b) below below' = cc
units_le-antisym (x ∷ a) [] below below' = cc
units_le-antisym (x ∷ a) (y ∷ b) below below' = ground (arith, units_le-antisym a b)

-- Texts with other code units are apart in the order of texts.
pub text_le-apart :
    (s t : String) → utf16 s ≢ utf16 t → (text_le s t ≡ false) ⊎ (text_le t s ≡ false)
unfolding text_le
text_le-apart s t other = elim (Bool-cases (units_le (utf16 s) (utf16 t))) [
  | inr above ↦ inl above
  | inl below ↦ elim (Bool-cases (units_le (utf16 t) (utf16 s))) [
    | inr above ↦ inr above
    | inl below' ↦ elim (other (units_le-antisym (utf16 s) (utf16 t) below below')) [ ]
  ]
]

-- The order by the texts of some key is linear.
pub text_le-IsLinear {ℓ} :
    {A : Type ℓ} (key : A → String) → IsLinear (λ a b. text_le (key a) (key b))
unfolding text_le
text_le-IsLinear key = record {
  total = λ a b. units_le-total (utf16 (key a)) (utf16 (key b));
  transitive = λ a b c. units_le-transitive (utf16 (key a)) (utf16 (key b)) (utf16 (key c));
}
