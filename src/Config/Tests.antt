-- ===== src/Config/Tests.antt =====
-- The configuration on concrete inputs, and the theorems applied to them.
mod Caddyfile
mod Setups
