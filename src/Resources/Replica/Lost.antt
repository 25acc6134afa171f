-- ===== src/Resources/Replica/Lost.antt =====
-- distsys/resources/crdt.go: what a replica loses.
use pgo_eval.Base.{◌≡◌, refl, true, false, none, some, List, ◌∷◌}
use pgo_eval.Resources.Replica.{
  CrdtValue, Replica, abort, commit, write_value, get_stable_value, broadcast, merge_first, merger,
}

module _ {C V : Type 0} (crdt : CrdtValue C V) where
  -- A peer's state that is merged after a write of a critical section is lost if the section aborts:
  -- it has left the channel, and the value is the one from before the section.
  pub merger-abort :
      (res : Replica C V) (received : C) (rest : List C)
      → res.has_old_value ≡ true
      → res.merge_values ≡ received ∷ rest
      → ((abort crdt (merger crdt res)).value ≡ res.old_value)
        × ((abort crdt (merger crdt res)).merge_values ≡ rest)
  unfolding abort merger merge_first
  merger-abort res received rest written waiting =
      (rw (waiting, merge_first, written), rw (waiting, merge_first, written))

  -- A broadcast between the first write of a section and its commit sends the state from before the
  -- write; after the commit that state is replaced by the written one, and yet the next broadcast
  -- sends nothing.
  pub write-broadcast-commit :
      (res : Replica C V) (value : V)
      → res.has_old_value ≡ false
      → (let written = write_value crdt value res in
          let committed = commit crdt (broadcast crdt written).1 in
          ((broadcast crdt written).0 ≡ some res.value)
          × (get_stable_value crdt committed ≡ crdt.write res.id value res.value)
          × ((broadcast crdt committed).0 ≡ none))
  unfolding write_value broadcast commit get_stable_value
  write-broadcast-commit res value idle = (rw idle, refl, refl)
