-- ===== src/Tokens.antt =====
-- vault/internal/tokens: roles, tokens, the rate limiter, the store and its files.
pub mod Errors
pub mod Role
pub mod RateLimiter
pub mod Token
pub mod Persister
pub mod Store
pub mod Files
