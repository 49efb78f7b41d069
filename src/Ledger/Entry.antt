-- ===== src/Ledger/Entry.antt =====
-- ledger.validation.ts, ledger.repository.ts, ledger.service.ts: rows of the ledger table, appending
-- to a chain and verifying one. The table is the list of its rows in the order of insertion; the
-- constraints ledger_pk and ledger_no_fork are those of migrations/001_ledger.sql.
use razorpay_hackathon.Base.{
  ℕ, suc, ◌+◌, String, Bool, true, false, not, ◌&&◌, ◌||◌, Option, none, some, List, [], ◌∷◌, ◌++◌,
  length, leb, nat_eq, ◌==◌, if◌then◌else◌, any, select,
}
use razorpay_hackathon.Shared.Text.{Bytes}
use razorpay_hackathon.Shared.Json.{JsonValue, text, number, object, member, end, nullable, nat}
use razorpay_hackathon.Shared.Crypto.{Runtime, chain_hash, genesis_prev_hash}
use razorpay_hackathon.Shared.Fault.{Result, ok, err, ◌>>=◌, unique_violation}

pub data LedgerKind : Type 0 where
  mandate_issued intent decision reservation api_call webhook execution_result : LedgerKind
  release reconcile refund anchor : LedgerKind

unfoldable pub kind_text : LedgerKind → String
kind_text mandate_issued = "MANDATE_ISSUED"
kind_text intent = "INTENT"
kind_text decision = "DECISION"
kind_text reservation = "RESERVATION"
kind_text api_call = "API_CALL"
kind_text webhook = "WEBHOOK"
kind_text execution_result = "EXECUTION_RESULT"
kind_text release = "RELEASE"
kind_text reconcile = "RECONCILE"
kind_text refund = "REFUND"
kind_text anchor = "ANCHOR"

pub record LedgerAppend : Type 0 where
  pub chain_id : String
  pub kind : LedgerKind
  pub merchant_id : String
  pub ref : Option String
  pub payload_redacted : JsonValue

pub record StoredEntry : Type 0 where
  pub chain_id : String
  pub seq : ℕ
  pub prev_hash : Bytes
  pub hash : Bytes
  pub kind : LedgerKind
  pub merchant_id : String
  pub ref : Option String
  pub payload_redacted : JsonValue

-- `a.equals(b)`.
abbrev pub bytes_eq : Bytes → Bytes → Bool
bytes_eq [] [] = true
bytes_eq (a ∷ as') (b ∷ bs) = nat_eq a b && bytes_eq as' bs
bytes_eq _ _ = false

-- ORDER BY seq.
unfoldable pub insert_seq : StoredEntry → List StoredEntry → List StoredEntry
insert_seq e [] = e ∷ []
insert_seq e (f ∷ fs) = if leb e.seq f.seq then e ∷ f ∷ fs else f ∷ insert_seq e fs

unfoldable pub sort_seq : List StoredEntry → List StoredEntry
unfolding insert_seq
sort_seq [] = []
sort_seq (e ∷ es) = insert_seq e (sort_seq es)

unfoldable pub read_chain : List StoredEntry → String → List StoredEntry
unfolding sort_seq
read_chain ledger chain_id = sort_seq (select (λ e. e.chain_id == chain_id) ledger)

abbrev pub last {ℓ} : {A : Type ℓ} → List A → Option A
last [] = none
last (x ∷ []) = some x
last (x ∷ y ∷ ys) = last (y ∷ ys)

-- ORDER BY ledger.seq DESC LIMIT 1.
unfoldable pub read_head : List StoredEntry → String → Option StoredEntry
unfolding read_chain
read_head ledger chain_id = last (read_chain ledger chain_id)

-- The row that would break the primary key, or fork the chain.
abbrev pub collides : StoredEntry → StoredEntry → Bool
collides e f = f.chain_id == e.chain_id && (nat_eq f.seq e.seq || bytes_eq f.prev_hash e.prev_hash)

unfoldable pub insert_entry : List StoredEntry → StoredEntry → Result (List StoredEntry)
insert_entry ledger entry =
    if any (collides entry) ledger
    then err (unique_violation "ledger")
    else ok (ledger ++ entry ∷ [])

-- The value that is hashed and stored.
unfoldable pub chain_payload : LedgerAppend → ℕ → JsonValue
unfolding kind_text
chain_payload entry seq = object (
    member "chain_id" (text entry.chain_id) (
      member "kind" (text (kind_text entry.kind)) (
        member "merchant_id" (text entry.merchant_id) (
          member "payload" entry.payload_redacted
            (member "ref" (nullable entry.ref) (member "seq" (number (nat seq)) end))))))

abbrev pub next_seq : Option StoredEntry → ℕ
next_seq none = 0
next_seq (some head) = head.seq + 1

abbrev pub next_prev_hash : Option StoredEntry → Bytes
next_prev_hash none = genesis_prev_hash
next_prev_hash (some head) = head.hash

pub record ChainVerification : Type 0 where
  pub chain_id : String
  pub entries : ℕ
  pub valid : Bool
  pub broken_at : Option ℕ

module _ (rt : Runtime) where
  -- The row that was written, and the table with it.
  unfoldable pub append : List StoredEntry → LedgerAppend → Result (StoredEntry × List StoredEntry)
  append ledger entry = do
    let head = read_head ledger entry.chain_id
    let seq = next_seq head
    let payload = chain_payload entry seq
    hash ← chain_hash rt (next_prev_hash head) payload
    let row : StoredEntry = record {
      chain_id = entry.chain_id;
      seq = seq;
      prev_hash = next_prev_hash head;
      hash = hash;
      kind = entry.kind;
      merchant_id = entry.merchant_id;
      ref = entry.ref;
      payload_redacted = payload;
    }
    ledger' ← insert_entry ledger row
    ok (row, ledger')

  -- The loop of `verifyChain` from an index and the hash expected there: the sequence number of the
  -- first entry that fails.
  unfoldable pub first_broken : ℕ → Bytes → List StoredEntry → Result (Option ℕ)
  first_broken index expected_prev [] = ok none
  first_broken index expected_prev (entry ∷ entries) =
      let rest = first_broken (suc index) entry.hash entries in
      if not (nat_eq entry.seq index)
      then ok (some entry.seq)
      else if not (bytes_eq entry.prev_hash expected_prev)
      then ok (some entry.seq)
      else (do
        recomputed ← chain_hash rt expected_prev entry.payload_redacted
        if not (bytes_eq recomputed entry.hash) then ok (some entry.seq) else rest)

  unfoldable pub verify_chain : List StoredEntry → String → Result ChainVerification
  verify_chain ledger chain_id = do
    let entries = read_chain ledger chain_id
    broken ← first_broken 0 genesis_prev_hash entries
    ok (record {
      chain_id = chain_id;
      entries = length entries;
      valid = elim broken [ none ↦ true | some _ ↦ false ];
      broken_at = broken;
    })
