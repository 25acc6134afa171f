-- ===== src/Resources/TwoPc/Broadcast.antt =====
-- distsys/resources/twopc.go, `broadcast`: a request to every replica, and the loop that waits for
-- enough of the responses. The responses stand in the order in which the channel yields them.
pub mod Quorum
use pgo_eval.Base.{
  ℕ, ◌+◌, ◌-◌, ◌/◌, ◌%◌, Bool, true, false, ◌&&◌, Option, none, some, List, [], ◌∷◌, if◌then◌else◌,
  ltb, leb, ◌==◌,
}
use pgo_eval.Resources.TwoPc.{Node}

unfoldable pub required : ℕ → ℕ
required replicas = if replicas % 2 == 0 then replicas / 2 else replicas / 2 + 1

abbrev pub waits : ℕ → ℕ → Bool
waits required remaining = ltb 0 required && leb required remaining

-- The loop: whether enough responses are positive, `none` if it still waits when the responses
-- have been taken.
unfoldable pub await : ℕ → ℕ → List Bool → Option Bool
await required remaining [] = if waits required remaining then none else some (required == 0)
await required remaining (response ∷ responses) =
    let rest = await (if response then required - 1 else required) (remaining - 1) responses in
    if waits required remaining then rest else some (required == 0)

unfoldable pub broadcast : ℕ → List Bool → Option Bool
unfolding await required
broadcast replicas responses = await (required replicas) replicas responses

module _ {V : Type 0} where
  -- The count of the requests in flight, when a broadcast begins and when a request has ended.
  unfoldable pub begin_requests : Node V → Node V
  begin_requests res = record res {
    num_in_flight_requests = res.num_in_flight_requests + res.replicas;
  }

  -- The Boolean tells whether `Close`, if it waits, is told that no request is left.
  unfoldable pub end_request : Node V → Node V × Bool
  end_request res =
      let res' = record res { num_in_flight_requests = res.num_in_flight_requests - 1 } in
      (res', res'.num_in_flight_requests == 0)
