-- ===== src/Io/Tests.antt =====
-- A setup that succeeds.
