-- ===== src/Shared.antt =====
-- The modules that every part of the program shares (src/shared).
pub mod IdempotencyKey
