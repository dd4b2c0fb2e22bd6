-- ===== src/Connection.antt =====
-- src/krakked/connection: the nonce generator and the rate limiter of the REST client.
pub mod Nonce
pub mod RateLimiter
