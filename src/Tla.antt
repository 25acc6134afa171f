-- ===== src/Tla.antt =====
-- distsys/tla/value.go and symbols.go: what the rest of the runtime uses of a TLA+ value, as an
-- interface. `none` is a panic with `ErrTLAType`. Numbers are `int32`.
pub mod Values
pub mod Sets
pub mod Quantifiers
pub mod Numbers
pub mod Tuples
pub mod Union
pub mod Functions
use pgo_eval.Base.{◌≡◌, String, Option, some, List}
use pgo_eval.Base.Int.{ℤ}

pub record TlaValue (V : Type 0) : Type 0 where
  pub default_value : V
  pub make_number : ℤ → V
  pub as_number : V → Option ℤ
  pub make_string : String → V
  pub make_tuple : List V → V
  -- `v.AsFunction().Get(key)`
  pub function_get : V → V → Option (Option V)
  pub as_number-make_number : (n : ℤ) → as_number (make_number n) ≡ some n
