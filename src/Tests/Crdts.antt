-- ===== src/Tests/Crdts.antt =====
-- Examples for distsys/resources/gcounter.go, lww.go and aworset.go.
use pgo_eval.Base.{◌≡◌, refl, true, false, none, some, arith, inr}
use pgo_eval.Base.Int.{◌+ℤ◌, ℤ, pos}
use pgo_eval.Maps.Assoc.{assoc_maps}
use pgo_eval.Crdt.Command.{rem_op}
use pgo_eval.Crdt.GCounter
use pgo_eval.Crdt.GCounter.{GCounter}
use pgo_eval.Crdt.GCounter.Merge.{Same, State, merge_states, merge_states_semilattice}
use pgo_eval.Crdt.GCounter.Write.{read-write}
use pgo_eval.Int32.{wrap}
use pgo_eval.Crdt.Lww
use pgo_eval.Crdt.Lww.{LwwSet}
use pgo_eval.Crdt.Lww.Merge.{removal_lost}
use pgo_eval.Crdt.VClock
use pgo_eval.Crdt.VClock.{Compared, less, concurrent}
use pgo_eval.Crdt.VClock.Order.{Ordered, compare-Ordered}
use pgo_eval.Crdt.AwOrSet
use pgo_eval.Crdt.AwOrSet.{AwOrSet, not_less, stays_added, stays_removed}
use pgo_eval.Crdt.AwOrSet.Merge.{Exclusive}
use pgo_eval.Crdt.AwOrSet.Local.{present, Obeyed, obey-Obeyed}
use pgo_eval.Crdt.AwOrSet.Convergence.{merge_membership_comm, addition_wins}
use pgo_eval.Tests.{integer_keys, maps, integers}

abbrev n1 : ℤ
n1 = pos 1

abbrev n2 : ℤ
n2 = pos 2

-- Two counters that have each counted at both nodes.
abbrev left : GCounter maps
left = maps.set (maps.set maps.empty n2 (pos 1)) n1 (pos 5)

abbrev right : GCounter maps
right = maps.set (maps.set maps.empty n1 (pos 3)) n2 (pos 4)

merge_states_semilattice_example :
    ((a b : State maps) → merge_states maps a b ≡ merge_states maps b a)
    × ((a b c : State maps)
        → merge_states maps (merge_states maps a b) c ≡ merge_states maps a (merge_states maps b c))
    × ((a : State maps) → merge_states maps a a ≡ a)
merge_states_semilattice_example = merge_states_semilattice maps

read-write_example :
    (c' : GCounter maps) × (GCounter.write maps integers n1 (pos 3) left ≡ some c')
    × (GCounter.read maps integers c'
        ≡ integers.make_number (wrap (GCounter.total maps (pos 0) (maps.entries left) +ℤ pos 3)))
read-write_example = read-write maps integers n1 (pos 3) (pos 3) left refl

-- An element added at 1 and, at another replica, removed at 2.
abbrev with_added : LwwSet maps
with_added = record { add_set = maps.set maps.empty n1 1; rem_set = maps.empty }

abbrev with_removed : LwwSet maps
with_removed = record { add_set = maps.empty; rem_set = maps.set maps.empty n1 2 }

added_at : maps.get with_added.add_set n1 ≡ some 1
unfolding assoc_maps integer_keys
added_at = refl

not_removed : maps.get with_added.rem_set n1 ≡ none
not_removed = maps.get-empty n1

not_added : maps.get with_removed.add_set n1 ≡ none
not_added = maps.get-empty n1

removed_at : maps.get with_removed.rem_set n1 ≡ some 2
unfolding assoc_maps integer_keys
removed_at = refl

removal_lost_example :
    (Lww.is_in maps (Lww.merge maps with_added with_removed) n1 ≡ true)
    × (Lww.is_in maps (Lww.merge maps with_removed with_added) n1 ≡ false)
    × (Lww.is_in maps
          (Lww.merge maps
            (Lww.merge maps with_added with_removed)
            (Lww.merge maps with_removed with_added))
          n1
        ≡ true)
removal_lost_example =
    removal_lost maps with_added with_removed n1 added_at not_removed not_added removed_at
      (omega arith)

compare-Ordered_example : Ordered maps integers left right (VClock.compare maps integers left right)
compare-Ordered_example = compare-Ordered maps integers left right

-- The clock `left`, counted in the other order.
abbrev left_again : GCounter maps
left_again = maps.set (maps.set maps.empty n1 (pos 5)) n2 (pos 1)

left-Same : Same maps left left_again
unfolding assoc_maps integer_keys
left-Same j = ground arith

-- An element added under a clock that is concurrent with that of its removal.
abbrev adder : AwOrSet maps integers
adder = record { add_map = maps.set maps.empty n1 left; rem_map = maps.empty }

abbrev remover : AwOrSet maps integers
remover = record { add_map = maps.empty; rem_map = maps.set maps.empty n1 right }

adder-Exclusive : Exclusive maps integers adder
adder-Exclusive j = inr (maps.get-empty j)

obey-Obeyed_example :
    (s' : AwOrSet maps integers) × (AwOrSet.obey maps integers rem_op n1 n2 adder ≡ some s')
    × Obeyed maps integers rem_op n1 adder s'
obey-Obeyed_example = obey-Obeyed maps integers rem_op n1 n2 adder adder-Exclusive

merge_membership_comm_example :
    present (maps.get (AwOrSet.merge maps integers adder remover).add_map n1)
    ≡ present (maps.get (AwOrSet.merge maps integers remover adder).add_map n1)
merge_membership_comm_example = merge_membership_comm maps integers adder remover n1

added_under : maps.get adder.add_map n1 ≡ some left
unfolding assoc_maps integer_keys
added_under = refl

removed_under : maps.get remover.rem_map n1 ≡ some right
unfolding assoc_maps integer_keys
removed_under = refl

addition_wins_example :
    present (maps.get (AwOrSet.merge maps integers adder remover).add_map n1)
    ≡ not_less (VClock.compare maps integers left right)
addition_wins_example =
    addition_wins maps integers adder remover n1 added_under (maps.get-empty n1) (maps.get-empty n1)
      removed_under
