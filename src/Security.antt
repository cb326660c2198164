-- ===== src/Security.antt =====
-- packages/platform-core/src/platform_core/security: who calls, what they may do.
pub mod Principal
pub mod Rbac
pub mod Acl
pub mod ServiceAuth
pub mod Policy
pub mod Tools
pub mod Token
pub mod Crypto
pub mod Idempotency
pub mod RateLimit
