-- ===== src/Memory/Init/Probe.antt =====
-- What the probe for the memory size finds.
