-- ===== src/Landing.antt =====
-- apps/landing: the demo site's own logic, on the client side.
pub mod Vault
pub mod Page
pub mod Status
pub mod Registry
