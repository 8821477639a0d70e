-- ===== src/SteadyTimer/Tests.antt =====
-- The theorem at a concrete timer.
