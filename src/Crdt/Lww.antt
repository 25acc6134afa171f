-- ===== src/Crdt/Lww.antt =====
-- distsys/resources/lww.go: a set in which the latest addition or removal of an element wins.
-- A `time.Time` is a number; `time.Now()` is an argument. `none` is a panic.
pub mod Membership
pub mod Merge
use pgo_eval.Base.{
  ℕ, ◌≡◌, Bool, true, false, not, Option, none, some, List, [], ◌∷◌, if◌then◌else◌, ◌>>=◌, ltb,
}
use pgo_eval.Hasher.{Hasher}
use pgo_eval.Maps.{MapLib}
use pgo_eval.Tla.{TlaValue}
use pgo_eval.Crdt.Command.{Command, add_op, rem_op, other_op, decode}
use pgo_eval.Maps.Folds.{fold_into}

-- The tests of `isIn` on the two time stamps.
abbrev pub wins : Option ℕ → Option ℕ → Bool
wins none rem = false
wins (some add) none = true
wins (some add) (some rem) = not (ltb add rem)

module _ {K : Type 0} ⦃h : Hasher K⦄ (lib : MapLib K) where
  open lib use {Map, empty, get, set, entries}

  pub record LwwSet : Type 0 where
    pub add_set : Map ℕ
    pub rem_set : Map ℕ

  unfoldable pub init : LwwSet
  init = record { add_set = empty; rem_set = empty }

  unfoldable pub is_in : LwwSet → K → Bool
  is_in s id = wins (get s.add_set id) (get s.rem_set id)

  -- The loop of `Read`, which fills a set.
  unfoldable pub collect : LwwSet → Map Bool → List (K × ℕ) → Map Bool
  collect s builder [] = builder
  collect s builder ((id, _) ∷ es) =
      collect s (if is_in s id then set builder id true else builder) es

  unfoldable pub read : LwwSet → Map Bool
  read s = collect s empty (entries s.add_set)

  -- The `switch` of `Write`, at the time `now`.
  unfoldable pub obey : Command → K → ℕ → LwwSet → LwwSet
  obey add_op elem now s = record s { add_set = set s.add_set elem now }
  obey rem_op elem now s = record s { rem_set = set s.rem_set elem now }
  obey other_op elem now s = s

  unfoldable pub write : TlaValue K → K → ℕ → LwwSet → Option LwwSet
  write tla value now s = do (cmd, elem) ← decode tla value; some (obey cmd elem now s)

  -- One round of the first loop of `Merge`.
  unfoldable pub merge_add : Map ℕ → K → ℕ → Map ℕ
  merge_add adds id other_stamp = elim (get adds id) [
    | none ↦ set adds id other_stamp
    | some self_stamp ↦ if ltb self_stamp other_stamp then set adds id other_stamp else adds
  ]

  -- One round of the second loop of `Merge`. The code calls `s.remSet.Set` and drops its result,
  -- while the map is persistent, so the removals are what they were.
  unfoldable pub merge_rem : Map ℕ → K → ℕ → Map ℕ
  merge_rem rems id other_stamp =
      let dropped : Map ℕ = elim (get rems id) [
        | none ↦ set rems id other_stamp
        | some self_stamp ↦ if ltb self_stamp other_stamp then set rems id other_stamp else rems
      ] in
      rems

  unfoldable pub merge : LwwSet → LwwSet → LwwSet
  merge s other = record {
    add_set = fold_into lib merge_add s.add_set (entries other.add_set);
    rem_set = fold_into lib merge_rem s.rem_set (entries other.rem_set);
  }
