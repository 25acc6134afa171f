-- ===== src/Lib.antt =====
-- The runtime that PGo's generated Go code runs on (distsys/): how an archetype's critical sections
-- choose between branches, and what they read, write, commit and abort.
--
-- An archetype runs under an `MPCalContext` (distsys/mpcalctx.go), whose `Run` executes critical
-- sections. Each section first calls the fairness counter (distsys/fairness.go), which decides which
-- branches are taken, then reads and writes resources (distsys/archetyperesource.go and
-- distsys/resources/), which buffer what it does until `Run` commits or aborts it. Some resources are
-- replicated data types, whose replicas merge each other's states.
--
-- Files and code:
--   Fairness       distsys/fairness.go: `roundRobinFairnessCounter`. `begin_critical_section` and
--                  `next_fairness_counter` are its methods; their loops and guards have names of
--                  their own. Children: Radix (the stack as a number in mixed radix), Next (what one
--                  call does to the stack), Coverage (a whole attempt, and runs of attempts).
--   Hasher, Tla    what is used of distsys/tla/value.go, as interfaces with laws. Tla has the
--                  operators of distsys/tla/symbols.go and builtins.go over the interface Tla.Values:
--                  Sets, Quantifiers (whatever ranges over several sets), Numbers, Tuples, Functions,
--                  and Union, whose loop does not end.
--   HashMap        distsys/hashmap/hashmap.go. Children: Lookup, Keys.
--   Maps           github.com/benbjohnson/immutable, a parameter with its documented behaviour.
--                  Children: Assoc (association lists behave so), Folds (loops over an iterator).
--   Int32          Go's wrap-around at 32 bits
--   Crdt           distsys/resources/gcounter.go, lww.go and aworset.go. Command is the record that
--                  the sets' `Write` takes; VClock is the clock of aworset.go.
--   Resources      Local is `LocalArchetypeResource` of distsys/archetyperesource.go; Shared and
--                  Channels are distsys/resources/localshared.go and channels.go; Replica is crdt.go,
--                  a replica of one of the types in Crdt with what its peers send and get. IncMap
--                  is incmap.go and hashmap.go, maps of resources that meet Sections.Contract;
--                  Persistent is persistent.go, over such a resource.
--   Resources.TwoPc  distsys/resources/twopc.go. Receive is what a node does with messages; Section has
--                  the operations of the node's archetype, cut where they let the mutex go; Broadcast
--                  is the loop over the responses; Turns is how all of them take turns, as steps.
--   Context        Lifecycle is `Run` and `Stop` of distsys/mpcalctx.go, as threads. Sections is one
--                  attempt at a critical section: `Read` and `Write` of distsys/archetypeinterface.go,
--                  and `commit` and `abort` of distsys/mpcalctx.go, over resources that meet the
--                  contract of `ArchetypeResource` (Sections.Contract). Resources.Local.Indexed is a
--                  resource that does. Procedures has `Goto`, `Call`, `TailCall` and `Return`.
--   Trace          distsys/trace: VClock is vclock.go, Events is state.go and event.go.
--   Tests          concrete parameters and examples
--
-- Functions of the source are functions here that return the new state; `none` is a panic, or, where
-- the file says so, `ErrCriticalSectionAborted`. The Go numbers `uint` and `int32` wrap around.
-- What comes from outside, `rand.Uint32()`, `time.Now()` and the winner of a `select`, is an argument.
-- Threads are step relations. Loops are structural recursion on the list that they run over. Two take
-- fuel: `..`, where one round more than the set has elements is enough, and `UNION`, where none is.
--
-- Not modelled: the TLA+ values themselves with their equality and hashes, which the components use
-- through interfaces, `^`, Seq, ToString and Assert; the gob encodings and printed forms; mailboxes,
-- the failure detector, nested archetypes, and filesystem.go; `Close` of the resources, and
-- their `VClockHint`; the generated systems under systems/, and the compiler under src/.
pub mod Base
pub mod Fairness
pub mod Hasher
pub mod HashMap
pub mod Maps
pub mod Int32
pub mod Tla
pub mod Crdt
pub mod Resources
pub mod Context
pub mod Trace
mod Tests
