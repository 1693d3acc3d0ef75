-- ===== src/Auth.antt =====
-- The authentication of a request: src/api_manager/check_auth.cc with the caches that it shares
-- between requests, src/api_manager/auth/{certs,jwt_cache}.h, and the key uris of
-- src/api_manager/config.cc. The JWT validator, the serialiser of user information and the LRU cache
-- of the service control client are parameters.
pub mod Keys
pub mod Cache
pub mod State
pub mod Checker
pub mod Sound
pub mod Entry
pub mod Flight
pub mod Answered
pub mod Examples
