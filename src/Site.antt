-- ===== src/Site.antt =====
-- extension/lib/site-scope.js: which site a URL stands for, and which hosts are local.
pub mod Numbers
pub mod Local
pub mod Addresses
pub mod Depth
pub mod Scope
mod Tests
