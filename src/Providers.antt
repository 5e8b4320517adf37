-- ===== src/Providers.antt =====
-- internal/providers: what the plans and their rates say.
pub mod Peak
