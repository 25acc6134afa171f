-- ===== src/Resources/Shared/Escape.antt =====
-- distsys/resources/localshared.go: `Index` goes round the semaphore.
use pgo_eval.Base.{ℕ, ◌≡◌, true, arith}
use pgo_eval.Resources.Local
use pgo_eval.Resources.Shared.{Shared, release, abort, commit, index_write}

module _ {V : Type 0} (zero_value : V) where
  -- A write through `Index` by an archetype that holds nothing is not rolled back: after `Abort` the
  -- shared resource still has the written value, and still counts it as uncommitted. Nor does
  -- `Commit` commit it.
  pub index_write_escapes :
      (i : ℕ) (value : V) (s : Shared V)
      → s.acquired i ≡ 0
      → (Local.read_value (abort zero_value i (index_write value s)).res ≡ value)
        × ((abort zero_value i (index_write value s)).res.has_old_value ≡ true)
        × ((commit zero_value i (index_write value s)).res.has_old_value ≡ true)
  unfolding abort commit release index_write Local.write_value Local.read_value
  index_write_escapes i value s e = (ground arith, ground arith, ground arith)
