-- ===== src/Resources/Local.antt =====
-- distsys/archetyperesource.go: `LocalArchetypeResource`, a value with the value that it had when
-- the critical section began. `PreCommit`, `Commit` and `Abort` return nil channels, that is, they
-- are complete at once and without an error.
pub mod Rollback
pub mod Indexed
use pgo_eval.Base.{Bool, true, false, if◌then◌else◌, List, [], ◌∷◌}

pub record Local (V : Type 0) : Type 0 where
  pub has_old_value : Bool
  pub value : V
  pub old_value : V

-- `zero` is the zero `Value`.
module _ {V : Type 0} (zero : V) where
  unfoldable pub new : V → Local V
  new value = record { has_old_value = false; value = value; old_value = zero }

  unfoldable pub abort : Local V → Local V
  abort res =
      if res.has_old_value
      then record { has_old_value = false; value = res.old_value; old_value = zero }
      else res

  unfoldable pub commit : Local V → Local V
  commit res = record res { has_old_value = false; old_value = zero }

unfoldable pub read_value : {V : Type 0} → Local V → V
read_value res = res.value

unfoldable pub write_value : {V : Type 0} → V → Local V → Local V
write_value value res =
    if res.has_old_value
    then record res { value = value }
    else record { has_old_value = true; value = value; old_value = res.value }
