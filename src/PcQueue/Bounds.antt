-- ===== src/PcQueue/Bounds.antt =====
-- The sizes of the numbers that test/pcqueue.cpp computes.
