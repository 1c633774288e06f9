-- ===== src/Util/Tests.antt =====
-- The helpers on small inputs.
