-- ===== src/Resources/TwoPc/Receive.antt =====
-- distsys/resources/twopc.go, `Receive` and `receiveInternal`: what a node does with a message from
-- another one. `same` is Go's `==` on `tla.Value`: numbers, strings and Booleans are compared by
-- value, sets, tuples and functions by address.
use pgo_eval.Base.{
  ℕ, ◌+◌, Bool, ◌||◌, ◌&&◌, Option, some, List, [], ◌∷◌, if◌then◌else◌, ltb, ◌==◌, ◌>>=◌,
}
use pgo_eval.Resources.TwoPc.{
  RequestType, pre_commit, commit, abort, get_state, Request, Response, initial,
  accepted_pre_commit, Node, can_accept_pre_commit, has_accepted, is_initial, make_reject,
  make_accept, accept_new_value,
}

module _ {V : Type 0} (same : V → V → Bool) (nil_value : V) where
  -- A map read: zero if the sender is not there.
  unfoldable pub sender_time : V → List (V × ℕ) → ℕ
  sender_time sender [] = 0
  sender_time sender ((s, time) ∷ times) = if same s sender then time else sender_time sender times

  -- Whether the message is older than one that its sender sent before.
  unfoldable pub is_stale : Request V → Node V → Bool
  unfolding sender_time
  is_stale arg twopc = ltb arg.sender_time (sender_time arg.sender twopc.sender_times)

  unfoldable pub note_time : Request V → Node V → Node V
  note_time arg twopc = record twopc {
    sender_times = (arg.sender, arg.sender_time) ∷ twopc.sender_times;
  }

  -- The first test of a `PreCommit`: the very message that has been accepted.
  unfoldable pub is_accepted : Request V → Node V → Bool
  is_accepted arg twopc =
      has_accepted twopc.two_pc_state
      && twopc.accepted.version == arg.version
      && same twopc.accepted.sender arg.sender
      && same twopc.accepted.value arg.value

  -- The second test of a `PreCommit`.
  unfoldable pub may_accept : Request V → Node V → Bool
  may_accept arg twopc =
      can_accept_pre_commit twopc.section_state
      && (is_initial twopc.two_pc_state
          || ltb twopc.accepted.version arg.version
          || (twopc.accepted.version == arg.version && same twopc.accepted.sender arg.sender))

  unfoldable pub receive_pre_commit : Request V → Node V → Node V × Response V
  unfolding is_accepted may_accept
  receive_pre_commit arg twopc =
      if is_accepted arg twopc
      then (twopc, make_accept nil_value)
      else if may_accept arg twopc
      then (
        record twopc { two_pc_state = accepted_pre_commit; accepted = arg },
        make_accept nil_value,
      )
      else (twopc, make_reject twopc)

  unfoldable pub receive_abort : Request V → Node V → Node V
  receive_abort arg twopc =
      if same arg.sender twopc.accepted.sender && has_accepted twopc.two_pc_state
      then record twopc { two_pc_state = initial }
      else twopc

  unfoldable pub dispatch : RequestType → Request V → Node V → Option (Node V × Response V)
  unfolding receive_pre_commit receive_abort
  dispatch pre_commit arg twopc = some (receive_pre_commit arg twopc)
  dispatch commit arg twopc = do
    twopc' ← accept_new_value arg.value arg.version twopc
    some (twopc', make_accept nil_value)
  dispatch abort arg twopc = some (receive_abort arg twopc, make_accept nil_value)
  dispatch get_state arg twopc = some (twopc, make_reject twopc)

  -- A version that is lower than expected is rejected, a higher one is logged only.
  unfoldable pub receive_internal : Request V → Node V → Option (Node V × Response V)
  unfolding dispatch
  receive_internal arg twopc =
      let current =
        if ltb arg.version (twopc.version + 1)
        then some (twopc, make_reject twopc)
        else dispatch arg.request_type arg twopc in
      elim arg.request_type [ get_state ↦ some (twopc, make_reject twopc) | _ ↦ current ]

  -- Without a message of the same node between its two parts.
  unfoldable pub receive : Request V → Node V → Option (Node V × Response V)
  unfolding is_stale note_time receive_internal
  receive arg twopc =
      if is_stale arg twopc
      then some (twopc, make_accept nil_value)
      else receive_internal arg (note_time arg twopc)
