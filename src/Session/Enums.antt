-- ===== src/Session/Enums.antt =====
-- The persisted texts of the session enums are closed and distinct.
