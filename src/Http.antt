-- ===== src/Http.antt =====
-- The HTTP handlers of chapter9, chapter13/wide.go and the Caddy module of
-- caddy/caddy-restrict-prefix, over one model of an exchange.
pub mod Exchange
pub mod Escape
pub mod Handlers
pub mod Methods
pub mod Middleware
pub mod Mux
pub mod Push
pub mod Wide
