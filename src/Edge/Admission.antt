-- ===== src/Edge/Admission.antt =====
-- How many requests the rate limiter lets through.
use native.Mathlib.Nat.{add-mul}
use razorpay_hackathon.Base.{
  ℕ, ◌+◌, ◌-◌, ◌*◌, ◌≤◌, String, ◌≡◌, refl, sym, ◌≢◌, ◌∙◌, ap, ◌⊎◌, inl, inr, Bool, true, false,
  Option, none, some, List, [], ◌∷◌, arith, leb, leb_iff, any, ◌==◌, ==_iff, ==_refl, ==_ne,
  Bool-cases, Option-cases, is_some, All, ◌&&◌, if◌then◌else◌,
}
use razorpay_hackathon.Shared.Crypto.{Date}
use razorpay_hackathon.Store.Updated.{
  find-update_where, find-update_where_apart, find-append_new, find-append_other, any-find,
}
use razorpay_hackathon.Edge.RateLimit.{
  Bucket, BucketRow, bucket_of, key_of, full, least, insert_bucket, find_bucket, available_of,
  set_bucket, result_of, consume_token,
}

abbrev worth : Bucket → Date → Option BucketRow → ℕ
worth bucket now none = full bucket
worth bucket now (some row) = available_of bucket now (some row)

-- What a request costs: a token where it is admitted, and nothing where it is refused.
abbrev cost : ℕ → Bool → ℕ
cost c allowed = if allowed then c else 0

price-cost : (c : ℕ) (allowed : Bool) → (if allowed then 1 else 0) * c ≡ cost c allowed
price-cost c true = omega arith
price-cost c false = omega arith

-- What the bucket of a key is worth at a time: a bucket that was never touched is full.
abbrev level : Bucket → String → Date → List BucketRow → ℕ
level bucket key now rows = worth bucket now (find_bucket key rows)

least_le : (a b : ℕ) → least a b ≤ b
least_le a b = ground (arith, leb_iff a b)

le-least : (c a b : ℕ) → c ≤ a → c ≤ b → c ≤ least a b
le-least c a b below above = ground (arith, leb_iff a b)

least_later :
    (tokens refilled now later top : ℕ)
    → now ≤ later
    → least (tokens + later - refilled) top ≤ least (tokens + now - refilled) top + (later - now)
least_later tokens refilled now later top h =
    ground (arith, leb_iff (tokens + later - refilled) top, leb_iff (tokens + now - refilled) top)

least_kept : (a c b : ℕ) → least (a + c - c) b ≤ a
least_kept a c b = ground (arith, leb_iff (a + c - c) b)

least_same : (a c : ℕ) → least (a + c - c) a ≡ a
least_same a c = ground (arith, leb_iff (a + c - c) a)

find_bucket-insert_own :
    (key : String) (bucket : Bucket) (now : Date) (rows : List BucketRow)
    → (row : BucketRow) × (find_bucket key (insert_bucket key bucket now rows) ≡ some row)
      × (available_of bucket now (some row) ≡ level bucket key now rows)
find_bucket-insert_own key bucket now rows = elim (Option-cases (find_bucket key rows)) [
  | inl none_yet ↦
      let new : any (λ (r : BucketRow). r.bucket_key == key) rows ≡ false =
        any-find (λ (r : BucketRow). r.bucket_key == key) rows ∙ ap is_some none_yet in
      let fresh : BucketRow = record {
        bucket_key = key;
        tokens = full bucket;
        refilled_at = now;
      } in
      (
        fresh,
        rw (new, if◌then◌else◌)
            (find-append_new (λ (r : BucketRow). r.bucket_key == key) rows fresh new (==_refl key)),
        rw (none_yet, level) (least_same (full bucket) now),
      )
  | inr (row, there) ↦
      let old : any (λ (r : BucketRow). r.bucket_key == key) rows ≡ true =
        any-find (λ (r : BucketRow). r.bucket_key == key) rows ∙ ap is_some there in
      (row, rw (old, if◌then◌else◌) there, rw (there, level) refl)
]

find_bucket-insert_other :
    (key other : String) (bucket : Bucket) (now : Date) (rows : List BucketRow)
    → other ≢ key
    → find_bucket key (insert_bucket other bucket now rows) ≡ find_bucket key rows
find_bucket-insert_other key other bucket now rows ne =
    elim (Bool-cases (any (λ (r : BucketRow). r.bucket_key == other) rows)) [
      | inl there ↦ rw (there, if◌then◌else◌) refl
      | inr new ↦
          rw (new, if◌then◌else◌)
            (find-append_other (λ (r : BucketRow). r.bucket_key == key) rows _ (==_ne other key ne))
    ]

find_bucket-set_other :
    (key other : String) (tokens : ℕ) (now : Date) (rows : List BucketRow)
    → other ≢ key
    → find_bucket key (set_bucket other tokens now rows) ≡ find_bucket key rows
find_bucket-set_other key other tokens now rows ne =
    find-update_where_apart (λ (r : BucketRow). r.bucket_key == key) (λ r. r.bucket_key == other) _
      rows (λ y. refl)
      (λ y h. ==_ne y.bucket_key key (λ e. ne (sym ((==_iff y.bucket_key other).0 h) ∙ e)))

find_bucket-set_own :
    (key : String) (tokens : ℕ) (now : Date) (rows : List BucketRow) {row : BucketRow}
    → find_bucket key rows ≡ some row
    → find_bucket key (set_bucket key tokens now rows)
      ≡ some (record row { tokens = tokens; refilled_at = now })
find_bucket-set_own key tokens now rows {row = row} e =
    find-update_where (λ (r : BucketRow). r.bucket_key == key) (λ r. r.bucket_key == key) _ rows
      {x = row} (λ y. refl) (λ y h. h) e

-- What a bucket is worth grows by the time that passes, at most.
level_later :
    (bucket : Bucket) (key : String) (now later : Date) (rows : List BucketRow)
    → now ≤ later
    → level bucket key later rows ≤ level bucket key now rows + (later - now)
level_later bucket key now later rows h = elim (Option-cases (find_bucket key rows)) [
  | inl none_yet ↦ rw (none_yet, level) (omega arith)
  | inr (row, there) ↦
      rw (there, level) (least_later row.tokens row.refilled_at now later (full bucket) h)
]

level_le :
    (bucket : Bucket) (key : String) (now : Date) (rows : List BucketRow)
    → level bucket key now rows ≤ full bucket
level_le bucket key now rows = elim (Option-cases (find_bucket key rows)) [
  | inl none_yet ↦ rw (none_yet, level) (omega arith)
  | inr (row, there) ↦
      rw (there, level) (least_le (row.tokens + now - row.refilled_at) (full bucket))
]

module _ (ceil : ℕ → ℕ) (now : Date) (kind subject : String) (rows : List BucketRow) where
  abbrev before : ℕ
  before = level (bucket_of kind) (key_of kind subject) now rows

  abbrev left : ℕ
  left =
      if leb (bucket_of kind).ms_per_token before
      then before - (bucket_of kind).ms_per_token
      else before

  consume_token-own :
      (row : BucketRow) × (find_bucket
          (key_of kind subject)
          (consume_token ceil now kind subject rows).1
        ≡ some (record row { tokens = left; refilled_at = now }))
      × ((consume_token ceil now kind subject rows).0 ≡ result_of ceil (bucket_of kind) before)
  unfolding consume_token
  consume_token-own =
      let (row, found, worth) =
        find_bucket-insert_own (key_of kind subject) (bucket_of kind) now rows in
      (
        row,
        rw found (
            rw worth (
              find_bucket-set_own (key_of kind subject) left now
                (insert_bucket (key_of kind subject) (bucket_of kind) now rows) {row = row} found)),
        rw found (rw worth refl),
      )

  spent :
      cost (bucket_of kind).ms_per_token (result_of ceil (bucket_of kind) before).allowed + left
      ≡ before
  spent = elim (Bool-cases (leb (bucket_of kind).ms_per_token before)) [
    | inl admitted ↦
        let enough = (leb_iff (bucket_of kind).ms_per_token before).0 admitted in
        rw (admitted, if◌then◌else◌) (omega (arith, enough))
    | inr refused ↦ rw (refused, if◌then◌else◌) (omega arith)
  ]

  -- A request takes what it costs out of its own bucket.
  level-consume_own :
      cost (bucket_of kind).ms_per_token (consume_token ceil now kind subject rows).0.allowed
        + level
            (bucket_of kind)
            (key_of kind subject)
            now
            (consume_token ceil now kind subject rows).1
      ≤ before
  level-consume_own =
      let (row, found, answer) = consume_token-own in
      let top = least_le (left + now - now) (full (bucket_of kind)) in
      let kept = least_kept left now (full (bucket_of kind)) in
      rw (answer, found, level) (omega (arith, spent, kept))

  -- A request of another key leaves the bucket.
  level-consume_other :
      (bucket : Bucket) (key : String) (at : Date)
      → key_of kind subject ≢ key
      → level bucket key at (consume_token ceil now kind subject rows).1 ≡ level bucket key at rows
  unfolding consume_token
  level-consume_other bucket key at ne = ap (worth bucket at) (
      find_bucket-set_other key (key_of kind subject) _ now _ ne
      ∙ find_bucket-insert_other key (key_of kind subject) (bucket_of kind) now rows ne)

-- A request that the limiter is asked about.
pub record Asked : Type 0 where
  pub at : Date
  pub kind : String
  pub subject : String

-- Whether a request is the caller's own and admitted, as a number.
abbrev admission : (ℕ → ℕ) → String → String → Asked → List BucketRow → ℕ
admission ceil kind subject a rows =
    if (a.kind == kind && a.subject == subject)
      && (consume_token ceil a.at a.kind a.subject rows).0.allowed
    then 1
    else 0

-- The requests in order: how many of the caller's own are admitted.
pub admitted : (ℕ → ℕ) → String → String → List Asked → List BucketRow → ℕ
admitted ceil kind subject [] rows = 0
admitted ceil kind subject (a ∷ asked) rows =
    admission ceil kind subject a rows
    + admitted ceil kind subject asked (consume_token ceil a.at a.kind a.subject rows).1

-- The requests come one after the other, none before the first time and none after the last.
abbrev Ordered : Date → Date → List Asked → Type 0
Ordered first last [] = first ≤ last
Ordered first last (a ∷ asked) = (first ≤ a.at) × Ordered a.at last asked

Ordered-le : (first last : Date) (asked : List Asked) → Ordered first last asked → first ≤ last
Ordered-le first last [] order = order
Ordered-le first last (a ∷ asked) (after, order) =
    omega (arith, after, Ordered-le a.at last asked order)

-- Other requests are kept under another key.
abbrev Apart : String → String → Asked → Type 0
Apart kind subject a =
    ((a.kind ≡ kind) × (a.subject ≡ subject)) ⊎ (key_of a.kind a.subject ≢ key_of kind subject)

key_of-same :
    {kind subject : String} (k s : String)
    → k ≡ kind
    → s ≡ subject
    → key_of k s ≡ key_of kind subject
key_of-same k s same_kind same_subject = rw (same_kind, same_subject) refl

module _ (ceil : ℕ → ℕ) (kind subject : String) where
  abbrev own_level : Date → List BucketRow → ℕ
  own_level = level (bucket_of kind) (key_of kind subject)

  abbrev price : ℕ
  price = (bucket_of kind).ms_per_token

  admission-level :
      (a : Asked) (rows : List BucketRow)
      → Apart kind subject a
      → admission ceil kind subject a rows * price
          + own_level a.at (consume_token ceil a.at a.kind a.subject rows).1
        ≤ own_level a.at rows
  admission-level a rows (inl (same_kind, same_subject)) =
      rw (same_kind, same_subject, ==_refl kind, ==_refl subject)
        (rw (price-cost price (consume_token ceil a.at kind subject rows).0.allowed)
          (level-consume_own ceil a.at kind subject rows))
  admission-level a rows (inr other) = elim (Bool-cases (a.kind == kind && a.subject == subject)) [
    | inl both ↦
        let k = (==_iff a.kind kind).0 in
        let s = (==_iff a.subject subject).0 in
        elim (other (key_of-same a.kind a.subject (ground arith) (ground arith))) [ ]
    | inr apart ↦
        rw
          (
            apart,
            level-consume_other ceil a.at a.kind a.subject rows (bucket_of kind)
                (key_of kind subject) a.at other,
          )
          (omega arith)
  ]

  admitted-level :
      (asked : List Asked) (rows : List BucketRow) (first last : Date)
      → All (Apart kind subject) asked
      → Ordered first last asked
      → admitted ceil kind subject asked rows * price ≤ own_level first rows + (last - first)
  unfolding admitted
  admitted-level [] rows first last apart order = omega arith
  admitted-level (a ∷ asked) rows first last (own, apart) (after, order) =
      let rows' = (consume_token ceil a.at a.kind a.subject rows).1 in
      let rest = admitted-level asked rows' a.at last apart order in
      let earned = level_later (bucket_of kind) (key_of kind subject) first a.at rows after in
      let step = admission-level a rows own in
      let sum =
        add-mul (admission ceil kind subject a rows) (admitted ceil kind subject asked rows')
          price in
      rw sum (omega (arith, rest, earned, step, Ordered-le a.at last asked order))

  -- Over requests that are served in the order of their times, between a first time and a
  -- last, of which every one either is of the caller's kind and subject or is kept under another
  -- key: whatever the buckets held before, the requests of the caller that are admitted cost
  -- no more than a full bucket and what is earned from the first time to the last.
  pub admitted-cost_le :
      (asked : List Asked) (rows : List BucketRow) (first last : Date)
      → All (Apart kind subject) asked
      → Ordered first last asked
      → admitted ceil kind subject asked rows * price ≤ full (bucket_of kind) + (last - first)
  admitted-cost_le asked rows first last apart order =
      let spent_at_most = admitted-level asked rows first last apart order in
      let at_first = level_le (bucket_of kind) (key_of kind subject) first rows in
      omega (arith, spent_at_most, at_first)
