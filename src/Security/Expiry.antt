-- ===== src/Security/Expiry.antt =====
-- security/middleware.py and security/jwt.py: requests with a token of a key that was rotated out.
use preceptual_ai_5g_dynamic.Prelude.Outcome.{Outcome}
use preceptual_ai_5g_dynamic.Security.Request.{Request}
