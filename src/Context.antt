-- ===== src/Context.antt =====
-- distsys/mpcalctx.go: the context in which an archetype runs.
pub mod Lifecycle
pub mod Sections
pub mod Procedures
