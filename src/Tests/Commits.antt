-- ===== src/Tests/Commits.antt =====
-- Examples for distsys/resources/twopc.go: values and senders that are numbers.
use pgo_eval.Base.{
  ℕ, ◌<◌, ◌≤◌, ◌≡◌, ◌≢◌, ◌⊎◌, inl, refl, Bool, true, false, none, some, [], ◌∷◌, ◌==◌, ==_iff,
  ◌>>=◌, length, get_elem?, leb, arith,
}
use pgo_eval.Resources.TwoPc.{
  RequestType, pre_commit, commit, abort, Request, Response, Node, new, make_accept, make_reject,
  make_commit, can_accept_pre_commit, accepted_pre_commit, has_pre_committed,
}
use pgo_eval.Resources.TwoPc.Receive.{receive, receive_internal, note_time}
use pgo_eval.Resources.TwoPc.Section.{
  write_value, begin_pre_commit, answer_pre_commit, complete_pre_commit, answer_notice,
  begin_commit, finish_commit, is_interrupted,
}
use pgo_eval.Resources.TwoPc.Broadcast.{required, broadcast}
use pgo_eval.Resources.TwoPc.Broadcast.Quorum.{count_true, broadcast-majority, broadcasts-meet}
use pgo_eval.Resources.TwoPc.Turns.{
  ready, proposing, Reach, here, next, writes, sleeps, wakes, proposes, succeeds, commits,
  has_committed, receives,
}
use pgo_eval.Resources.TwoPc.Turns.Invariant.{Holds, life-Holds}
use pgo_eval.Resources.TwoPc.Turns.Register.{Advances, life-Advances}
use pgo_eval.Resources.TwoPc.Turns.Promise.{start, further, one_promise, promise_forgotten}
use pgo_eval.Resources.TwoPc.Turns.Asserts.{proposing-asserts, notice-answered}

abbrev same : ℕ → ℕ → Bool
same a b = a == b

sound : (x y : ℕ) → same x y ≡ true → x ≡ y
sound x y = (==_iff x y).0

abbrev message : RequestType → ℕ → ℕ → ℕ → Request ℕ
message typ value sender version = record {
  request_type = typ;
  value = value;
  sender = sender;
  version = version;
  sender_time = 9;
}

abbrev first : Node ℕ
unfolding new
first = new 0 10 2 1

abbrev written : Node ℕ
unfolding write_value
written = (write_value 7 first).0

abbrev begun : Node ℕ
unfolding begin_pre_commit
begun = (begin_pre_commit 9 written).0

abbrev pre_committed : Node ℕ
pre_committed = record begun { pre_commit_attempts = 0; section_state = has_pre_committed }

to_proposal : Reach same 0 ready first proposing begun
unfolding first written begun is_interrupted begin_pre_commit new
to_proposal =
    next (next (next (next here (writes 7 first)) (sleeps written 0 refl)) (wakes 0 written refl))
      (proposes 9 written begun (message pre_commit 7 1 1) refl)

to_commit : Reach same 0 ready first ready (finish_commit 0 pre_committed)
unfolding first written begun complete_pre_commit begin_commit
to_commit =
    next
      (next (next to_proposal (succeeds true begun pre_committed refl))
        (commits 9 pre_committed (message commit 7 1 1) 0 refl refl))
      (has_committed 0 pre_committed)

committed_value : (finish_commit 0 pre_committed).old_value ≡ 7
unfolding first written begun finish_commit
committed_value = refl

life-Holds_example : Holds ready (finish_commit 0 pre_committed)
unfolding new first finish_commit
life-Holds_example = life-Holds same 0 10 2 1 to_commit

life-Advances_example : Advances first (finish_commit 0 pre_committed)
life-Advances_example = life-Advances same 0 to_commit

proposing-asserts_example :
    (receive same 0 (message commit 8 2 1) begun ≢ none)
    × (answer_pre_commit none begun ≢ none)
    × (complete_pre_commit true begun ≢ none)
unfolding new first begun
proposing-asserts_example =
    proposing-asserts same 0 10 2 1 to_proposal (message commit 8 2 1) none true

abbrev promised : Node ℕ
promised = record first { two_pc_state = accepted_pre_commit; accepted = message pre_commit 7 2 1 }

abbrev rejection : Response ℕ
rejection = record { accept = false; version = 0; value = 10 }

-- Between the two there is an `Abort` of a node that is given no promise.
one_promise_example : (rejection.accept ≡ false) × (promised ≡ promised)
unfolding receive_internal first new can_accept_pre_commit make_accept make_reject
one_promise_example =
    one_promise same 0 sound 10 2 1 (message pre_commit 7 2 1) (message pre_commit 8 3 1) here refl
      refl refl
      (further start (receives (message abort 0 3 1) ready promised promised (make_accept 0) refl)
        refl)
      refl refl refl refl

promise_forgotten_example :
    (receive_internal same 0 (message pre_commit 9 3 2) promised >>= λ (n1, r1).
    receive_internal same 0 (message abort 0 3 2) n1 >>= λ (n2, r2).
    receive_internal same 0 (message pre_commit 8 4 1) n2)
    ≡ some (
      record promised { two_pc_state = accepted_pre_commit; accepted = message pre_commit 8 4 1 },
      make_accept 0,
    )
unfolding first can_accept_pre_commit
promise_forgotten_example =
    promise_forgotten same 0 promised (message pre_commit 7 2 1) (message pre_commit 9 3 2)
      (message abort 0 3 2) (message pre_commit 8 4 1) (refl, refl) (omega arith) refl
      (refl, omega arith) (refl, refl, refl) (refl, refl)

-- The node that answers has version 1, the one that committed had version 0 when it made the request,
-- and version 1 when its broadcast began.
abbrev ahead : Node ℕ
ahead = record first { version = 1; old_value = 7 }

abbrev late_reply : Response ℕ
late_reply = record { accept = false; version = 1; value = 7 }

notice-answered_example :
    ((answer_notice 1 late_reply first ≢ none) × ((false ≡ true) ⊎ (1 < 1)))
    ⊎ ((answer_notice 1 late_reply first ≡ none) × (0 < 1) × (false ≡ false) × (1 ≤ 1))
unfolding receive first make_reject note_time make_commit
notice-answered_example =
    notice-answered same 0 9 first ahead (record ahead { sender_times = (1, 9) ∷ [] }) first
      (make_commit 9 first) late_reply 1 (inl refl) refl

broadcast-majority_example :
    (broadcast 3 (true ∷ []) ≡ none) × (0 < length (false ∷ true ∷ []))
    ⊎ (broadcast 3 (true ∷ []) ≡ some (leb (required 3) (count_true (true ∷ false ∷ true ∷ []))))
broadcast-majority_example = broadcast-majority 3 (true ∷ []) (false ∷ true ∷ []) refl

broadcasts-meet_example :
    (k : ℕ) × (get_elem? (true ∷ true ∷ false ∷ []) k ≡ some true)
    × (get_elem? (false ∷ true ∷ true ∷ []) k ≡ some true)
unfolding broadcast
broadcasts-meet_example =
    broadcasts-meet 2 0 2 (true ∷ true ∷ false ∷ []) (false ∷ true ∷ true ∷ []) (true ∷ [])
      (false ∷ true ∷ []) refl refl refl refl (omega arith) (omega arith) refl refl
