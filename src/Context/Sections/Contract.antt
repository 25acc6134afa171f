-- ===== src/Context/Sections/Contract.antt =====
-- distsys/archetyperesource.go: the interface `ArchetypeResource`, with the contract that its comments
-- state: a resource has a state that the last commit left, and a current state.
use pgo_eval.Base.{◌≡◌, Bool, Option, List}

-- `read_at` and `write_at` are `ReadValue` and `WriteValue` after a call of `Index` for each index;
-- no value, or false, is the error `ErrCriticalSectionAborted`. False from `pre_commit` is too.
pub record Resource (V R S : Type 0) : Type 0 where
  pub read_at : List V → R → Option V × R
  pub write_at : List V → V → R → Bool × R
  pub abort : R → R
  pub pre_commit : R → Bool × R
  pub commit : R → R
  -- the state of the last commit, and the current one
  pub saved : R → S
  pub now : R → S
  pub saved-read_at : (is : List V) (r : R) → saved (read_at is r).1 ≡ saved r
  pub saved-write_at : (is : List V) (v : V) (r : R) → saved (write_at is v r).1 ≡ saved r
  pub saved-abort : (r : R) → saved (abort r) ≡ saved r
  pub now-abort : (r : R) → now (abort r) ≡ saved r
  pub saved-pre_commit : (r : R) → saved (pre_commit r).1 ≡ saved r
  pub now-pre_commit : (r : R) → now (pre_commit r).1 ≡ now r
  pub saved-commit : (r : R) → saved (commit r) ≡ now r
  pub now-commit : (r : R) → now (commit r) ≡ now r
