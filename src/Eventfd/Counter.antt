-- ===== src/Eventfd/Counter.antt =====
-- The counters of src/fs/lxp_eventfd.c add up what is written, up to their largest value.
