-- ===== src/Ledger/Chain.antt =====
-- A well-formed chain, and that appending keeps every chain well formed.
use razorpay_hackathon.Base.{
  ℕ, suc, ◌+◌, ◌≤◌, String, ◌≡◌, refl, sym, ◌∙◌, ◌≢◌, inl, inr, List, [], ◌∷◌, ◌++◌, arith, length,
  All, ◌==◌, ==_iff, ==_ne, select, select-append, leb, Bool-cases,
}
use mathlib.Core.List.{append-nil}
use razorpay_hackathon.Shared.Text.{Bytes}
use razorpay_hackathon.Shared.Crypto.{Runtime, chain_hash, genesis_prev_hash}
use razorpay_hackathon.Shared.Fault.{ok}
use razorpay_hackathon.Ledger.Entry.{
  StoredEntry, LedgerAppend, insert_seq, sort_seq, read_chain, last, read_head, insert_entry,
  append, next_seq, next_prev_hash, chain_payload,
}

-- Entries numbered from `index`, each holding the hash before it and the hash of its own payload.
abbrev pub IsChain : Runtime → ℕ → Bytes → List StoredEntry → Type 0
IsChain rt index prev [] = Unit
IsChain rt index prev (e ∷ es) =
    (e.seq ≡ index)
    × (e.prev_hash ≡ prev)
    × (chain_hash rt prev e.payload_redacted ≡ ok e.hash)
    × IsChain rt (suc index) e.hash es

-- The chain of an id in a ledger table.
abbrev pub HasChain : Runtime → List StoredEntry → String → Type 0
HasChain rt ledger id = IsChain rt 0 genesis_prev_hash (read_chain ledger id)

abbrev pub last_hash : Bytes → List StoredEntry → Bytes
last_hash prev [] = prev
last_hash prev (e ∷ es) = last_hash e.hash es

abbrev AtMost : ℕ → StoredEntry → Type 0
AtMost n e = e.seq ≤ n

insert_seq-append :
    (x e : StoredEntry) (ys : List StoredEntry)
    → x.seq ≤ e.seq
    → insert_seq x (ys ++ e ∷ []) ≡ insert_seq x ys ++ e ∷ []
unfolding insert_seq
insert_seq-append x e [] h = ground arith
insert_seq-append x e (y ∷ ys) h = ground (arith, insert_seq-append x e ys h)

sort_seq-append :
    (xs : List StoredEntry) (e : StoredEntry)
    → All (AtMost e.seq) xs
    → sort_seq (xs ++ e ∷ []) ≡ sort_seq xs ++ e ∷ []
unfolding sort_seq
sort_seq-append [] e h = refl
sort_seq-append (x ∷ xs) e (h, hs) =
    rw (sort_seq-append xs e hs) (insert_seq-append x e (sort_seq xs) h)

All-insert_seq :
    (P : StoredEntry → Type 0) (x : StoredEntry) (ys : List StoredEntry)
    → All P (insert_seq x ys)
    → P x × All P ys
unfolding insert_seq
All-insert_seq P x [] h = h
All-insert_seq P x (y ∷ ys) h = elim (Bool-cases (leb x.seq y.seq)) [
  | inl le ↦ rw le at h
  | inr gt ↦
      let h' : P y × All P (insert_seq x ys) = rw gt at h in
      let (px, pys) = All-insert_seq P x ys h'.1 in (px, (h'.0, pys))
]

All-sort_seq : (P : StoredEntry → Type 0) (xs : List StoredEntry) → All P (sort_seq xs) → All P xs
unfolding sort_seq
All-sort_seq P [] h = tt
All-sort_seq P (x ∷ xs) h =
    let (px, rest) = All-insert_seq P x (sort_seq xs) h in (px, All-sort_seq P xs rest)

-- An entry of another chain is not read with this one.
read_chain_other :
    (ledger : List StoredEntry) (row : StoredEntry) (id : String)
    → row.chain_id ≢ id
    → read_chain (ledger ++ row ∷ []) id ≡ read_chain ledger id
unfolding read_chain
read_chain_other ledger row id h =
    rw
      (select-append (λ e. e.chain_id == id) ledger (row ∷ []), ==_ne row.chain_id id h, append-nil)

-- An entry with the largest number of its chain is read last.
read_chain_own :
    (ledger : List StoredEntry) (row : StoredEntry) (id : String)
    → row.chain_id ≡ id
    → All (AtMost row.seq) (read_chain ledger id)
    → read_chain (ledger ++ row ∷ []) id ≡ read_chain ledger id ++ row ∷ []
unfolding read_chain
read_chain_own ledger row id h bound =
    let rows = select (λ (e : StoredEntry). e.chain_id == id) ledger in
    rw (select-append (λ e. e.chain_id == id) ledger (row ∷ []), (==_iff row.chain_id id).1 h)
      (sort_seq-append rows row (All-sort_seq (AtMost row.seq) rows bound))

module _ (rt : Runtime) where
  IsChain-AtMost :
      (es : List StoredEntry) (i n : ℕ) (prev : Bytes)
      → IsChain rt i prev es
      → i + length es ≤ n
      → All (AtMost n) es
  IsChain-AtMost [] i n prev h le = tt
  IsChain-AtMost (e ∷ es) i n prev (s, p, c, h) le =
      (omega arith, IsChain-AtMost es (suc i) n e.hash h (omega arith))

  IsChain-append :
      (es : List StoredEntry) (i : ℕ) (prev : Bytes) (e : StoredEntry)
      → IsChain rt i prev es
      → e.seq ≡ i + length es
      → e.prev_hash ≡ last_hash prev es
      → chain_hash rt (last_hash prev es) e.payload_redacted ≡ ok e.hash
      → IsChain rt i prev (es ++ e ∷ [])
  IsChain-append [] i prev e h s p c = (omega arith, p, c, tt)
  IsChain-append (x ∷ es) i prev e (s', p', c', h) s p c =
      (s', p', c', IsChain-append es (suc i) x.hash e h (omega arith) p c)

  next_of_entry :
      (x : StoredEntry) (es : List StoredEntry) (i : ℕ) (prev : Bytes)
      → IsChain rt i prev (x ∷ es)
      → (next_seq (last (x ∷ es)) ≡ i + length (x ∷ es))
        × (next_prev_hash (last (x ∷ es)) ≡ last_hash prev (x ∷ es))
  next_of_entry x [] i prev h = ground arith
  next_of_entry x (y ∷ ys) i prev h = ground (arith, next_of_entry y ys (suc i) x.hash h.3)

  next_of_chain :
      (es : List StoredEntry)
      → IsChain rt 0 genesis_prev_hash es
      → (next_seq (last es) ≡ length es)
        × (next_prev_hash (last es) ≡ last_hash genesis_prev_hash es)
  next_of_chain [] h = (refl, refl)
  next_of_chain (x ∷ es) h =
      let (seq, prev) = next_of_entry x es 0 genesis_prev_hash h in (omega (arith, seq), prev)

  -- What a successful append writes.
  pub record IsAppended (ledger : List StoredEntry) (entry : LedgerAppend) (row : StoredEntry)
      (ledger' : List StoredEntry) : Type 0 where
    pub table : ledger' ≡ ledger ++ row ∷ []
    pub chain_id : row.chain_id ≡ entry.chain_id
    pub seq : row.seq ≡ next_seq (read_head ledger entry.chain_id)
    pub prev_hash : row.prev_hash ≡ next_prev_hash (read_head ledger entry.chain_id)
    pub hashed :
        chain_hash rt (next_prev_hash (read_head ledger entry.chain_id)) row.payload_redacted
        ≡ ok row.hash
    pub payload : row.payload_redacted ≡ chain_payload entry row.seq
    pub kind : row.kind ≡ entry.kind
    pub ref : row.ref ≡ entry.ref

  pub append_row :
      (ledger : List StoredEntry) (entry : LedgerAppend) {row : StoredEntry}
      {ledger' : List StoredEntry}
      → append rt ledger entry ≡ ok (row, ledger')
      → IsAppended ledger entry row ledger'
  unfolding append insert_entry
  append_row ledger entry e = ground arith

  module _ (ledger : List StoredEntry) (entry : LedgerAppend) {row : StoredEntry}
      {ledger' : List StoredEntry} (done : append rt ledger entry ≡ ok (row, ledger')) where
    -- An append that succeeds leaves every other chain as it was.
    pub append-read_chain_other :
        (id : String) → entry.chain_id ≢ id → read_chain ledger' id ≡ read_chain ledger id
    append-read_chain_other id ne =
        let a = append_row ledger entry done in
        rw a.table (read_chain_other ledger row id (λ e. ne (sym a.chain_id ∙ e)))

    -- An append that succeeds on a well-formed chain puts the new entry at its end, numbered
    -- by the length of the chain so far, and the chain is well formed again.
    pub append-HasChain :
        HasChain rt ledger entry.chain_id
        → HasChain rt ledger' entry.chain_id
          × (read_chain ledger' entry.chain_id ≡ read_chain ledger entry.chain_id ++ row ∷ [])
          × (row.seq ≡ length (read_chain ledger entry.chain_id))
    append-HasChain h =
        let a = append_row ledger entry done in
        let es = read_chain ledger entry.chain_id in
        let (seq, prev) = next_of_chain es h in
        let numbered : row.seq ≡ length es = a.seq ∙ unfold read_head in seq in
        let prev' : row.prev_hash ≡ last_hash genesis_prev_hash es =
          a.prev_hash ∙ unfold read_head in prev in
        let hashed : chain_hash rt (last_hash genesis_prev_hash es) row.payload_redacted
            ≡ ok row.hash =
          rw prev' at (rw (← a.prev_hash) at a.hashed) in
        let own : read_chain ledger' entry.chain_id ≡ es ++ row ∷ [] = rw a.table (
          read_chain_own ledger row entry.chain_id a.chain_id
            (IsChain-AtMost es 0 row.seq genesis_prev_hash h (omega arith))) in
        (
          rw own (IsChain-append es 0 genesis_prev_hash row h (omega arith) prev' hashed),
          own,
          numbered,
        )
