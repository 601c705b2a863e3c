-- ===== src/Time.antt =====
-- include/time.
pub mod ScopeTimer
