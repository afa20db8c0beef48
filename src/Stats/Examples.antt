-- ===== src/Stats/Examples.antt =====
-- The statistics of three samples.
