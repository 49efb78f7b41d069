-- ===== src/Grant/Unmoved.antt =====
-- What stays of a consent request over every run of the consent flow.
use razorpay_hackathon.Base.{String, ◌≡◌, ap, ◌∙◌, some, List, [], ◌∷◌, ◌++◌, arith, find}
use razorpay_hackathon.Shared.Crypto.{Runtime, Date}
use razorpay_hackathon.Shared.Fault.{ok}
use razorpay_hackathon.Store.Rows.{Db}
use razorpay_hackathon.Store.Updated.{find-append_kept}
use razorpay_hackathon.Grant.Consent.{
  RequestConsentInput, ConsentRow, ConsentDb, ConsentOptions, find_request, is_request, request_row,
  request_consent, send_otp, check_code, finish_request, bind_consent_refs,
}
use razorpay_hackathon.Grant.Refs.{
  Keeps, KeepsIn, Keeps-refl, Keeps-trans, send_otp-Keeps, finish_request-Keeps,
  bind_consent_refs-Keeps, check_code-Keeps,
}

request_consent-stores :
    (options : ConsentOptions) (other : String) (input : RequestConsentInput) (db : ConsentDb)
    {answer : String} {db' : ConsentDb}
    → request_consent options other input db ≡ ok (answer, db')
    → db' ≡ record db { requests = db.requests ++ request_row options other input ∷ [] }
unfolding request_consent
request_consent-stores options other input db e = ground arith

module _ (rt : Runtime) (options : ConsentOptions) where
  -- The transactions of the consent flow, in whatever order and at whatever times they commit, and what
  -- anything else does to the rest of the store.
  pub data Step : ConsentDb → ConsentDb → Type 0 where
    requests :
        (request_ref : String) (input : RequestConsentInput) (db : ConsentDb) {answer : String}
        {db' : ConsentDb}
        → request_consent options request_ref input db ≡ ok (answer, db')
        → Step db db'
    sends :
        (clock : Date) (request_ref code : String) (db : ConsentDb)
        → Step db (send_otp rt options clock request_ref code db).1
    checks :
        (clock : Date) (request_ref code : String) (db : ConsentDb)
        → Step db (check_code rt options clock request_ref code db).1
    finishes :
        (request_ref mandate_id : String) (db : ConsentDb)
        → Step db (finish_request request_ref mandate_id db)
    binds :
        (request_ref customer_ref fulfilment_ref : String) (db : ConsentDb)
        → Step db (bind_consent_refs request_ref customer_ref fulfilment_ref db).1
    elsewhere :
        (db : ConsentDb) (store : Db) (pseudonyms : List (String × String))
        → Step db (record db { store = store; pseudonym_map = pseudonyms })

  pub data Steps : ConsentDb → ConsentDb → Type 0 where
    stay : (db : ConsentDb) → Steps db db
    after : {db db' db'' : ConsentDb} → Step db db' → Steps db' db'' → Steps db db''

  request_consent-Keeps :
      (other : String) (input : RequestConsentInput) (db : ConsentDb) (request_ref : String)
      (row : ConsentRow) {answer : String} {db' : ConsentDb}
      → request_consent options other input db ≡ ok (answer, db')
      → find_request db request_ref ≡ some row
      → KeepsIn request_ref row db'
  unfolding request_consent
  request_consent-Keeps other input db request_ref row {db' = db'} e found =
      let stored = request_consent-stores options other input db e in
      (
        row,
        ap (λ (d : ConsentDb). find (is_request request_ref) d.requests) stored
            ∙ find-append_kept (is_request request_ref) db.requests
                (request_row options other input) found,
        Keeps-refl row,
      )

  Step-Keeps :
      (request_ref : String) (row : ConsentRow) {db db' : ConsentDb}
      → Step db db'
      → find_request db request_ref ≡ some row
      → KeepsIn request_ref row db'
  Step-Keeps request_ref row (requests other input db e) found =
      request_consent-Keeps other input db request_ref row e found
  Step-Keeps request_ref row (sends clock other code db) found =
      send_otp-Keeps rt options request_ref row clock other code db found
  Step-Keeps request_ref row (checks clock other code db) found =
      check_code-Keeps rt options request_ref row clock other code db found
  Step-Keeps request_ref row (finishes other mandate_id db) found =
      finish_request-Keeps rt options request_ref row other mandate_id db found
  Step-Keeps request_ref row (binds other customer fulfilment db) found =
      bind_consent_refs-Keeps rt options request_ref row other customer fulfilment db found
  Step-Keeps request_ref row (elsewhere db store pseudonyms) found = (row, found, Keeps-refl row)

  -- Over every run of the consent flow's transactions, in whatever order and at whatever times, and
  -- whatever happens to the rest of the store: a request that the store holds stays, for the same
  -- agent, contact, scope and limits; once a shopper is bound to it, the shopper and the address
  -- never change; and its attempts stay within five.
  pub Steps-Keeps :
      (request_ref : String) (row : ConsentRow) {db db' : ConsentDb}
      → Steps db db'
      → find_request db request_ref ≡ some row
      → (later : ConsentRow) × (find_request db' request_ref ≡ some later) × Keeps row later
  Steps-Keeps request_ref row (stay db) found = (row, found, Keeps-refl row)
  Steps-Keeps request_ref row (after step steps) found =
      let (next, there, kept) = Step-Keeps request_ref row step found in
      let (later, found', rest) = Steps-Keeps request_ref next steps there in
      (later, found', Keeps-trans kept rest)
