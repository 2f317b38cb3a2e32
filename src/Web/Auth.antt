-- ===== src/Web/Auth.antt =====
-- Sign-in on the web: the request gate websites/src/proxy.ts and the session cookies,
-- websites/src/lib/auth/session.server.ts with the routes under websites/src/app/api/auth.
pub mod Cookies
pub mod Session
pub mod Proxy
