-- ===== src/Web.antt =====
-- The web application: web/src.
pub mod Latest
pub mod Requests
pub mod Tail
pub mod Sso
pub mod Url
pub mod Time
pub mod Json
pub mod Proxy
pub mod Query
pub mod Dashboards
pub mod Keyboard
pub mod Rows
