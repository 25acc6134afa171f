-- ===== src/Crdt/AwOrSet.antt =====
-- distsys/resources/aworset.go: the add-wins observed-remove set. Each element has a vector clock
-- in the add map or in the remove map. `none` is a panic.
pub mod Merge
pub mod Local
pub mod Convergence
use pgo_eval.Base.{Bool, true, false, not, Option, none, some, List, [], ◌∷◌, if◌then◌else◌, ◌>>=◌}
use pgo_eval.Hasher.{Hasher}
use pgo_eval.Maps.{MapLib}
use pgo_eval.Maps.Folds.{fold_into}
use pgo_eval.Tla.{TlaValue}
use pgo_eval.Crdt.Command.{Command, add_op, rem_op, other_op, decode}
use pgo_eval.Crdt.GCounter.{GCounter}
use pgo_eval.Crdt.VClock
use pgo_eval.Crdt.VClock.{Compared, less, equal, greater, concurrent}

-- The test `compare(...) != LT`.
abbrev pub not_less : Compared → Bool
not_less less = false
not_less _ = true

module _ {K : Type 0} ⦃h : Hasher K⦄ (lib : MapLib K) (tla : TlaValue K) where
  open lib use {Map, empty, get, set, delete, entries}

  -- The field `id` of the code is never read.
  pub record AwOrSet : Type 0 where
    pub add_map : Map (GCounter lib)
    pub rem_map : Map (GCounter lib)

  unfoldable pub init : AwOrSet
  init = record { add_map = empty; rem_map = empty }

  -- An element with the clock `add_vc` in an add map stays unless its clock in the remove map is
  -- greater. The test is that of `Read` and of `Merge`.
  unfoldable pub stays_added : Option (GCounter lib) → GCounter lib → Bool
  stays_added none add_vc = true
  stays_added (some rem_vc) add_vc = not_less (VClock.compare lib tla add_vc rem_vc)

  -- The test of `Merge` on an element with the clock `rem_vc` in the remove map.
  unfoldable pub stays_removed : Option (GCounter lib) → GCounter lib → Bool
  stays_removed none rem_vc = true
  stays_removed (some add_vc) rem_vc = not (not_less (VClock.compare lib tla add_vc rem_vc))

  -- The loop of `Read`.
  unfoldable pub collect : AwOrSet → List (K × GCounter lib) → List K
  collect s [] = []
  collect s ((elem, add_vc) ∷ es) =
      let rest = collect s es in
      if stays_added (get s.rem_map elem) add_vc then elem ∷ rest else rest

  -- The members that `Read` passes to `MakeSet`.
  unfoldable pub read : AwOrSet → List K
  read s = collect s (entries s.add_map)

  -- The case of `addOp`, by what `Get` finds in the two maps.
  unfoldable pub add_elem :
      Option (GCounter lib) → Option (GCounter lib) → K → K → AwOrSet → Option AwOrSet
  add_elem (some add_vc) rem elem id s = do
    vc ← VClock.inc lib tla id add_vc
    some (record { add_map = set s.add_map elem vc; rem_map = delete s.rem_map elem })
  add_elem none (some rem_vc) elem id s = do
    vc ← VClock.inc lib tla id rem_vc
    some (record { add_map = set s.add_map elem vc; rem_map = delete s.rem_map elem })
  add_elem none none elem id s = do
    vc ← VClock.inc lib tla id (VClock.make_vclock lib tla)
    some (record s { add_map = set s.add_map elem vc })

  -- The case of `remOp`.
  unfoldable pub rem_elem :
      Option (GCounter lib) → Option (GCounter lib) → K → K → AwOrSet → Option AwOrSet
  rem_elem (some add_vc) rem elem id s = do
    vc ← VClock.inc lib tla id add_vc
    some (record { add_map = delete s.add_map elem; rem_map = set s.rem_map elem vc })
  rem_elem none (some rem_vc) elem id s = do
    vc ← VClock.inc lib tla id rem_vc
    some (record { add_map = delete s.add_map elem; rem_map = set s.rem_map elem vc })
  rem_elem none none elem id s = do
    vc ← VClock.inc lib tla id (VClock.make_vclock lib tla)
    some (record s { rem_map = set s.rem_map elem vc })

  unfoldable pub obey : Command → K → K → AwOrSet → Option AwOrSet
  obey add_op elem id s = add_elem (get s.add_map elem) (get s.rem_map elem) elem id s
  obey rem_op elem id s = rem_elem (get s.add_map elem) (get s.rem_map elem) elem id s
  obey other_op elem id s = some s

  unfoldable pub write : K → K → AwOrSet → Option AwOrSet
  write id value s = do (cmd, elem) ← decode tla value; obey cmd elem id s

  -- One round of the loop of `mergeKeys`.
  unfoldable pub merge_key : Map (GCounter lib) → K → GCounter lib → Map (GCounter lib)
  merge_key acc elem b_vc = elim (get acc elem) [
    | some acc_vc ↦ set acc elem (VClock.merge lib tla acc_vc b_vc)
    | none ↦ set acc elem b_vc
  ]

  unfoldable pub merge_keys : Map (GCounter lib) → Map (GCounter lib) → Map (GCounter lib)
  merge_keys a b = fold_into lib merge_key a (entries b)

  -- One round of the loops of `Merge` that fill the new maps.
  unfoldable pub keep_added :
      Map (GCounter lib) → Map (GCounter lib) → K → GCounter lib → Map (GCounter lib)
  keep_added rem_k builder elem add_vc =
      if stays_added (get rem_k elem) add_vc then set builder elem add_vc else builder

  unfoldable pub keep_removed :
      Map (GCounter lib) → Map (GCounter lib) → K → GCounter lib → Map (GCounter lib)
  keep_removed add_k builder elem rem_vc =
      if stays_removed (get add_k elem) rem_vc then set builder elem rem_vc else builder

  unfoldable pub merge : AwOrSet → AwOrSet → AwOrSet
  merge s other =
      let add_k = merge_keys s.add_map other.add_map in
      let rem_k = merge_keys s.rem_map other.rem_map in
      record {
        add_map = fold_into lib (keep_added rem_k) empty (entries add_k);
        rem_map = fold_into lib (keep_removed add_k) empty (entries rem_k);
      }
