-- ===== src/Adminauth.antt =====
-- Package internal/adminauth: the admin login's lockout and its sessions.
pub mod Lockout
pub mod Sessions
pub mod Factor
