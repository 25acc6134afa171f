-- ===== src/Resources/Channels.antt =====
-- distsys/resources/channels.go: Go channels as resources. What a `select` on a channel and a timer
-- gives is an argument: the value that arrived, or none if the timer came first. `none` as a result
-- is `ErrCriticalSectionAborted`.
pub mod Exactly
use pgo_eval.Base.{Option, none, some, List, [], ◌∷◌, ◌++◌}

pub record InputChan (V : Type 0) : Type 0 where
  pub buffer : List V
  pub backlog_buffer : List V

pub record OutputChan (V : Type 0) : Type 0 where
  pub buffer : List V

module _ {V : Type 0} where
  unfoldable pub new_input : InputChan V
  new_input = record { buffer = []; backlog_buffer = [] }

  unfoldable pub abort_input : InputChan V → InputChan V
  abort_input res = record { buffer = res.backlog_buffer ++ res.buffer; backlog_buffer = [] }

  unfoldable pub commit_input : InputChan V → InputChan V
  commit_input res = record res { backlog_buffer = [] }

  -- `ReadValue` where the buffer is empty.
  unfoldable pub receive : Option V → InputChan V → Option V × InputChan V
  receive none res = (none, res)
  receive (some value) res =
      (some value, record res { backlog_buffer = res.backlog_buffer ++ value ∷ [] })

  -- `ReadValue`, by the buffer that it finds.
  unfoldable pub read_from : List V → Option V → InputChan V → Option V × InputChan V
  read_from [] arrival res = receive arrival res
  read_from (value ∷ rest) arrival res =
      (some value, record { buffer = rest; backlog_buffer = res.backlog_buffer ++ value ∷ [] })

  unfoldable pub read_input : Option V → InputChan V → Option V × InputChan V
  read_input arrival res = read_from res.buffer arrival res

  unfoldable pub new_output : OutputChan V
  new_output = record { buffer = [] }

  unfoldable pub abort_output : OutputChan V → OutputChan V
  abort_output res = record { buffer = [] }

  unfoldable pub write_output : V → OutputChan V → OutputChan V
  write_output value res = record { buffer = res.buffer ++ value ∷ [] }

  -- `Commit` sends the buffer, and then is done: what it sends, and the state after it.
  unfoldable pub commit_output : OutputChan V → List V × OutputChan V
  commit_output res = (res.buffer, record { buffer = [] })
