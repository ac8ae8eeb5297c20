-- ===== src/Server/ApiKeys.antt =====
-- src/harness/server-api-keys.ts: the routes that create, rotate and revoke the API keys of a tenant.
-- What the platform computes is an argument: the digest of a token, `Date.parse`, and `Number` where it
-- gives a whole number from 0 up. Tokens and ids that the server makes up come with the request.
pub mod Fields
pub mod Store
pub mod Plans
pub mod Handlers
pub mod Made
pub mod Secrets
pub mod Revoked
pub mod Answers
pub mod Replaced
pub mod Rotation
mod Tests
