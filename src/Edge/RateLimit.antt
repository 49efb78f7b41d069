-- ===== src/Edge/RateLimit.antt =====
-- modules/ratelimit/ratelimit.service.ts: the token bucket before any lock. Tokens are counted in the
-- milliseconds that earn them, so a bucket gains one unit in each millisecond and a request costs
-- `ms_per_token` of them: 1000 / refillPerSecond, which is whole for every bucket of the source. The
-- source adds in NUMERIC and in JavaScript's numbers, with refillPerSecond rounded: at a time at which a
-- bucket holds a whole number of tokens exactly, its sum can fall just short of that number.
use Prim.Native.String
use razorpay_hackathon.Base.{
  ℕ, ◌+◌, ◌-◌, ◌*◌, ◌/◌, String, Bool, true, false, Option, none, some, List, [], ◌∷◌, ◌++◌, leb,
  any, find, ◌==◌, if◌then◌else◌,
}
use razorpay_hackathon.Shared.Crypto.{Date}
use razorpay_hackathon.Shared.Fault.{Fault, Result, ok, err}
use razorpay_hackathon.Store.Writes.{update_where}

pub record Bucket : Type 0 where
  pub capacity : ℕ
  pub ms_per_token : ℕ

-- `BUCKETS[kind] ?? BUCKETS.agent`
unfoldable pub bucket_of : String → Bucket
bucket_of kind =
    if kind == "mandate"
    then record { capacity = 10; ms_per_token = 6000 }
    else if kind == "session"
    then record { capacity = 10; ms_per_token = 60000 }
    else if kind == "consent"
    then record { capacity = 3; ms_per_token = 1200000 }
    else if kind == "quote"
    then record { capacity = 60; ms_per_token = 1000 }
    else record { capacity = 30; ms_per_token = 2000 }

pub record BucketRow : Type 0 where
  pub bucket_key : String
  pub tokens : ℕ
  pub refilled_at : Date

pub record RateLimitResult : Type 0 where
  pub allowed : Bool
  pub remaining : ℕ
  -- seconds
  pub retry_after : ℕ

abbrev pub key_of : String → String → String
key_of kind subject = String.◌++◌ kind (String.◌++◌ ":" subject)

-- The units of a full bucket.
abbrev pub full : Bucket → ℕ
full bucket = bucket.capacity * bucket.ms_per_token

-- LEAST(a, b)
abbrev pub least : ℕ → ℕ → ℕ
least a b = if leb a b then a else b

-- ON CONFLICT (bucket_key) DO NOTHING
abbrev pub insert_bucket : String → Bucket → Date → List BucketRow → List BucketRow
insert_bucket key bucket now rows =
    if any (λ (r : BucketRow). r.bucket_key == key) rows
    then rows
    else rows ++ record { bucket_key = key; tokens = full bucket; refilled_at = now } ∷ []

abbrev pub find_bucket : String → List BucketRow → Option BucketRow
find_bucket key rows = find (λ r. r.bucket_key == key) rows

-- What a row is worth at a time, and nothing where there is no row.
abbrev pub available_of : Bucket → Date → Option BucketRow → ℕ
available_of bucket now none = 0
available_of bucket now (some row) = least (row.tokens + now - row.refilled_at) (full bucket)

abbrev pub set_bucket : String → ℕ → Date → List BucketRow → List BucketRow
set_bucket key tokens now =
    update_where (λ r. r.bucket_key == key) (λ r. record r { tokens = tokens; refilled_at = now })

-- `Math.max(1, n)`
abbrev pub at_least_one : ℕ → ℕ
at_least_one n = if leb 1 n then n else 1

-- `ceil` is `Math.ceil((1 - available) / refillPerSecond)` as JavaScript's numbers round it, from the
-- units that are missing.
abbrev pub result_of : (ℕ → ℕ) → Bucket → ℕ → RateLimitResult
result_of ceil bucket available =
    if leb bucket.ms_per_token available
    then record {
      allowed = true;
      remaining = (available - bucket.ms_per_token) / bucket.ms_per_token;
      retry_after = 0;
    }
    else record {
      allowed = false;
      remaining = available / bucket.ms_per_token;
      retry_after = at_least_one (ceil (bucket.ms_per_token - available));
    }

-- The transaction.
unfoldable pub consume_token :
    (ℕ → ℕ) → Date → String → String → List BucketRow → RateLimitResult × List BucketRow
consume_token ceil now kind subject rows =
    let bucket = bucket_of kind in
    let key = key_of kind subject in
    let rows' = insert_bucket key bucket now rows in
    let available = available_of bucket now (find_bucket key rows') in
    (
      result_of ceil bucket available,
      set_bucket key
          (if leb bucket.ms_per_token available then available - bucket.ms_per_token else available)
          now rows',
    )

-- With the error that the database raises, if any: the limiter fails closed.
unfoldable pub consume :
    (ℕ → ℕ)
    → Option Fault
    → Date
    → String
    → String
    → List BucketRow
    → Result RateLimitResult × List BucketRow
unfolding consume_token
consume ceil none now kind subject rows =
    let (result, rows') = consume_token ceil now kind subject rows in (ok result, rows')
consume ceil (some fault) now kind subject rows = (err fault, rows)
