-- ===== src/Resources.antt =====
-- distsys/archetyperesource.go and distsys/resources: resources that a critical section reads and
-- writes, and that are committed or rolled back with it.
pub mod Local
pub mod Shared
pub mod TwoPc
pub mod Channels
pub mod IncMap
pub mod Persistent
pub mod Replica
