-- ===== src/Helper.antt =====
-- The package helper.
pub mod Strings
pub mod Unicode
pub mod CommaList
pub mod RealIp
