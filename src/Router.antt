-- ===== src/Router.antt =====
-- internal/router: the rules of a source.
pub mod Cache
pub mod Uncached
mod Examples
