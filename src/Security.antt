-- ===== src/Security.antt =====
-- security/: the keys that tokens are signed with, the middleware that admits requests, and the scope
-- of a tenant.
pub mod Jwt
pub mod Reference
pub mod Rotation
pub mod Window
pub mod Request
pub mod Middleware
pub mod Access
pub mod Expiry
pub mod Tenant
