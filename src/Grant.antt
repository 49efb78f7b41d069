-- ===== src/Grant.antt =====
-- What gives an agent its authority: identities and keys, the issuing of mandates, and consent.
pub mod Identity
pub mod Mandate
pub mod Consent
pub mod Opened
pub mod Refs
pub mod Unmoved
pub mod Guesses
pub mod Granted
pub mod Token
pub mod Encoded
pub mod Minted
