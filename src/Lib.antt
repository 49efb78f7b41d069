-- ===== src/Lib.antt =====
-- AgentKit, a purchase authorisation kernel: an agent presents a signed intent against a signed quote,
-- and the kernel decides, under the lock of the user's mandate, whether the purchase may be made. The
-- decision is written to a hash chain, the amount is held against the mandate's limits, the executor
-- calls the payment rail, and webhooks and jobs settle what the rail did with the order.
--
-- The modules, and the files that they are about:
--   Base            tests and lists that every module shares
--   Shared.*        src/shared: reason-codes.ts (Reason), money.ts (Money), crypto/jcs.ts (Json, Text),
--                   crypto/hash.ts and crypto/ed25519.ts (Crypto), and the errors as values (Fault);
--                   Hex and Order reason about buffers in hexadecimal and about sorting
--   Policy.*        src/modules/policy and verifier.validation.ts: Facts has the records, Engine has `fold`,
--                   `checks` and `evaluate`, Trace and Permission what they answer
--   Ledger.*        src/modules/ledger: Entry has `append` and `verify_chain`, Chain, Verify and Tamper
--                   their properties
--   Store.*         the tables (Rows), the queries (Reads) and the statements (Writes) of the repositories,
--                   and src/shared/db/transaction.ts (Transaction); Updated has what queries find
--                   after inserts and updates
--   Authorization.* src/modules/authorization: Request (the signed values), Stateless, Entries and Locked
--                   (`runLocked`), StepUp (`approveStepUp`), Operations (ledger.operations.ts) and
--                   Service (`authorize`);
--                   Authentic, Run, Recorded, Reserved, Cap, Safety, Chained, Replay, Approval,
--                   Decided, Paid and Budget reason about them
--   Settlement.*    what follows: Rail and Executor and Refund (src/modules/executor), Reconciler
--                   (src/modules/reconciler), Jobs and Ambiguous (src/modules/jobs), Revocation
--                   (src/modules/mandate), and Once, Halted, Durable, Spending, Approved, Settled,
--                   Effects, Charged, Steps and Reached,
--                   which reason about them
--   Edge.*          src/modules/ratelimit: RateLimit has `consume`, Admission what it lets through
--   Grant.*         what gives an agent its authority: Identity (src/modules/identity), Mandate (`issue`
--                   of src/modules/mandate), Consent (consent.service.ts of src/modules/consent)
--                   and Token (authorization-token.ts); Opened, Refs, Unmoved, Guesses, Granted,
--                   Encoded and Minted reason about them
--   Pricing.*       src/modules/quote: Amount (the signed sums) and Quote (`priceBasket`,
--                   `verifySignature`); Lines, Issued, Promised, Basket and Rotated reason about them
--   Tests.*         concrete data
--
-- A transaction's body is a function of the store that answers a result and the next store; an
-- error leaves the store as it was. Bodies run one after another. The lock on the mandate's row
-- gives this for authorisations and revocations; an approval reads its challenge before it has the
-- lock, so `approve_locked` takes the store of that read apart from the store under the lock; the
-- executor, the reconciler and the jobs take no lock on the mandate, and their model holds where
-- nothing else commits between their statements. `with_authorization_transaction` adds the retries.
-- The tables hold the rows that row level security shows to the deployment's merchant; the time of
-- a statement is `now` of the store. Dates are milliseconds, amounts natural numbers of paise (the
-- schema refuses a negative one), `bigint` sums are exact, and texts are compared as `===` compares
-- them. A rolling window is its length in milliseconds. The JSONB round trip of a payload is the
-- identity.
--
-- The rate limiter counts a bucket in the milliseconds that earn its tokens, exactly, where the
-- source adds in NUMERIC and double, whose rounding is less than one unit but can put a sum just
-- below a whole token; what `Math.ceil` makes of the missing part is a parameter. The quantities of
-- a basket are JavaScript numbers, and its total an integer of either sign until it is stored,
-- where a negative one is refused. `verifyAndGrant` is one function for each of its transactions,
-- and one for the whole, in which `new Date()` answers one time.
--
-- Parameters, since their code is elsewhere: SHA-256, Ed25519, the texts of dates and PostgreSQL's
-- reading of an interval (`Runtime`), generated key pairs, fresh identifiers, contention and
-- outages of the database, the verifier's answer, what the rail answers, the HMAC and the parsed
-- body of a webhook, and Node's base64 and JSON (`TokenRuntime`). The only fuel is in `to_decimal`,
-- where a number has no more digits than its value.
--
-- Not modelled: logging, counters, back-off sleeps and the egress guard; `callerKey`, which reads
-- request headers; `readConsentRequest` and the pages, which render; the payment instrument of
-- consent; orders, fulfilment, the audit, the catalogue's synchronisation, the MCP server,
-- consoles, the dashboard, the services' entry points, and the storefront, adapter and packages
-- around the kernel.
pub mod Base
pub mod Shared
pub mod Ledger
pub mod Store
pub mod Policy
pub mod Authorization
pub mod Settlement
pub mod Edge
pub mod Grant
pub mod Pricing
pub mod Tests
