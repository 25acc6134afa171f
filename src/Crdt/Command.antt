-- ===== src/Crdt/Command.antt =====
-- distsys/resources/aworset.go: the records that `Write` of the two sets takes, with the fields
-- "cmd" and "elem". A missing field is the zero `Value`; `none` is a panic.
use pgo_eval.Base.{Option, none, some, if◌then◌else◌, ◌==◌, ◌>>=◌}
use pgo_eval.Base.Int.{ℤ, pos, negsuc}
use pgo_eval.Tla.{TlaValue}

pub data Command : Type 0 where
  add_op rem_op other_op : Command

-- The cases of the `switch` on the number of the command.
unfoldable pub command : ℤ → Command
command (pos n) = if n == 1 then add_op else if n == 2 then rem_op else other_op
command (negsuc n) = other_op

module _ {K : Type 0} (tla : TlaValue K) where
  unfoldable pub or_default : Option K → K
  or_default none = tla.default_value
  or_default (some v) = v

  unfoldable pub decode : K → Option (Command × K)
  decode value = do
    cmd ← tla.function_get value (tla.make_string "cmd")
    elem ← tla.function_get value (tla.make_string "elem")
    n ← tla.as_number (or_default cmd)
    some (command n, or_default elem)
