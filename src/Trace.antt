-- ===== src/Trace.antt =====
-- distsys/trace: the events that a run records, and their vector clocks.
pub mod VClock
pub mod Events
