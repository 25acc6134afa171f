-- ===== src/Resources/Local/Indexed.antt =====
-- distsys/archetyperesource.go: `Index` on a local resource, and the contract of a resource. An indexed
-- resource reads and writes through the value as a whole. `apply` is `Value.ApplyFunction` and
-- `substitute` is `tla.FunctionSubstitution` of one record, where they do not panic.
use pgo_eval.Base.{◌≡◌, refl, Bool, true, Option, some, List, [], ◌∷◌, arith}
use pgo_eval.Resources.Local.{Local, abort, commit, read_value, write_value}
use pgo_eval.Resources.Local.Rollback.{rolled_back}
use pgo_eval.Context.Sections.Contract.{Resource}

module _ {V : Type 0} (zero : V) (apply : V → V → V) (substitute : V → List V → V → V) where
  -- The loop of `localArchetypeSubResource.ReadValue`.
  unfoldable pub apply_all : V → List V → V
  apply_all fn [] = fn
  apply_all fn (index ∷ indices) = apply_all (apply fn index) indices

  unfoldable pub read_at : List V → Local V → Option V × Local V
  read_at indices res = (some (apply_all (read_value res) indices), res)

  unfoldable pub write_at : List V → V → Local V → Bool × Local V
  write_at [] value res = (true, write_value value res)
  write_at (index ∷ indices) value res =
      (true, write_value (substitute (read_value res) (index ∷ indices) value) res)

  rolled_back-write_value :
      (v : V) (res : Local V) → rolled_back (write_value v res) ≡ rolled_back res
  unfolding write_value
  rolled_back-write_value v res = ground arith

  pub rolled_back-write_at :
      (is : List V) (v : V) (res : Local V) → rolled_back (write_at is v res).1 ≡ rolled_back res
  unfolding write_at
  rolled_back-write_at [] v res = rolled_back-write_value v res
  rolled_back-write_at (i ∷ is) v res = rolled_back-write_value _ res

  pub rolled_back-abort : (res : Local V) → rolled_back (abort zero res) ≡ rolled_back res
  unfolding abort
  rolled_back-abort res = ground arith

  pub read_value-abort : (res : Local V) → read_value (abort zero res) ≡ rolled_back res
  unfolding abort read_value
  read_value-abort res = ground arith

  -- A local resource meets the contract: its last commit is what an abort would bring back.
  unfoldable pub local_resource : Resource V (Local V) V
  unfolding read_at write_at commit read_value
  local_resource = record {
    read_at = read_at;
    write_at = write_at;
    abort = abort zero;
    pre_commit = λ res. (true, res);
    commit = commit zero;
    saved = rolled_back;
    now = read_value;
    saved-read_at = λ is r. refl;
    saved-write_at = rolled_back-write_at;
    saved-abort = rolled_back-abort;
    now-abort = read_value-abort;
    saved-pre_commit = λ r. refl;
    now-pre_commit = λ r. refl;
    saved-commit = λ r. refl;
    now-commit = λ r. refl;
  }
