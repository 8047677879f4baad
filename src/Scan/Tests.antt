-- ===== src/Scan/Tests.antt =====
-- Lists with commas at concrete inputs.
