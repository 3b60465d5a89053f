-- ===== src/Cache.antt =====
-- internal/cache: the set of call sids that are known today.
pub mod Dedup
pub mod Once
