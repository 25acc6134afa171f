-- ===== src/Crdt.antt =====
-- distsys/resources: the values of the replicated data types, each a `CRDTValue` of
-- distsys/resources/crdt.go with `Init`, `Read`, `Write` and `Merge`.
pub mod Command
pub mod GCounter
pub mod Lww
pub mod VClock
pub mod AwOrSet
