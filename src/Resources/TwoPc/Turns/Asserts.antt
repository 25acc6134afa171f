-- ===== src/Resources/TwoPc/Turns/Asserts.antt =====
-- The calls of `assert`: which of them cannot fail.
use pgo_eval.Base.{
  ◌≢◌, Option-cases, Bool-cases, ℕ, ◌+◌, ◌<◌, ◌≡◌, ◌⊎◌, inl, inr, Bool, true, false, ◌≤◌, refl, ap,
  Option, none, some, ltb, arith,
}
use pgo_eval.Resources.TwoPc.{
  RequestType, pre_commit, commit, abort, get_state, Request, Response, Node, make_reject,
  make_accept, make_commit, make_abort, new, accept_new_value,
}
use pgo_eval.Resources.TwoPc.Receive.{is_stale, note_time, receive, receive_internal, dispatch}
use pgo_eval.Resources.TwoPc.Section.{
  complete_pre_commit, answer_pre_commit, answer_notice, catch_up,
}
use pgo_eval.Resources.TwoPc.Turns.Invariant.{Holds, life-Holds}
use pgo_eval.Resources.TwoPc.Turns.{ready, proposing, Reach}

module _ {V : Type 0} where
  catch_up-ne-none : (n : Node V) (reply : Response V) → catch_up reply n ≢ none
  unfolding catch_up accept_new_value
  catch_up-ne-none n reply e = ground arith

  answer_pre_commit-ne-none :
      (n : Node V) (outcome : Option (Response V)) → answer_pre_commit outcome n ≢ none
  unfolding answer_pre_commit
  answer_pre_commit-ne-none n none e = cc
  answer_pre_commit-ne-none n (some reply) e = elim (Option-cases (catch_up reply n)) [
    | inl bad ↦ catch_up-ne-none n reply bad
    | inr (n', good) ↦ ground arith
  ]

  completes :
      (n : Node V) (success : Bool) → Holds proposing n → complete_pre_commit success n ≢ none
  unfolding complete_pre_commit
  completes n success h e = ground arith

  module _ (same : V → V → Bool) (nil_value : V) where
    dispatch-ne-none :
        (typ : RequestType) (arg : Request V) (n : Node V)
        → ltb arg.version (n.version + 1) ≡ false
        → dispatch same nil_value typ arg n ≢ none
    unfolding dispatch accept_new_value
    dispatch-ne-none pre_commit arg n l e = cc
    dispatch-ne-none commit arg n l e = ground arith
    dispatch-ne-none abort arg n l e = cc
    dispatch-ne-none get_state arg n l e = cc

    receive_internal-ne-none :
        (arg : Request V) (n : Node V) → receive_internal same nil_value arg n ≢ none
    unfolding receive_internal
    receive_internal-ne-none arg n e = elim (Bool-cases (ltb arg.version (n.version + 1))) [
      | inl low ↦ ground arith
      | inr current ↦ let ok = dispatch-ne-none arg.request_type arg n current in ground arith
    ]

    receive-ne-none : (arg : Request V) (n : Node V) → receive same nil_value arg n ≢ none
    unfolding receive
    receive-ne-none arg n e =
        ground (arith, receive_internal-ne-none arg (note_time same nil_value arg n))

    -- While a `PreCommit` of a node is under way, whatever has happened before, no assertion fails:
    -- not for a message that arrives, nor for an outcome of the `PreCommit`, nor when it is complete
    -- with either verdict.
    pub proposing-asserts :
        (v : V) (replicas : ℕ) (id : V) {n : Node V}
        → Reach same nil_value ready (new nil_value v replicas id) proposing n
        → (arg : Request V) (outcome : Option (Response V)) (success : Bool)
        → (receive same nil_value arg n ≢ none)
          × (answer_pre_commit outcome n ≢ none)
          × (complete_pre_commit success n ≢ none)
    proposing-asserts v replicas id {n} r arg outcome success = (
      receive-ne-none arg n,
      answer_pre_commit-ne-none n outcome,
      completes n success (life-Holds same nil_value v replicas id r),
    )

    low_reply :
        (arg : Request V) (m m' : Node V) (reply : Response V)
        → (arg.request_type ≡ commit) ⊎ (arg.request_type ≡ abort)
        → receive_internal same nil_value arg m ≡ some (m', reply)
        → reply.accept ≡ false
        → arg.version < reply.version + 1
    unfolding receive_internal dispatch make_reject make_accept
    low_reply arg m m' reply (inl t) e no_accept = let e' = rw t at e in ground arith
    low_reply arg m m' reply (inr t) e no_accept = let e' = rw t at e in ground arith

    answered :
        (arg : Request V) (m m' n : Node V) (reply : Response V) (original_version : ℕ)
        → (arg.request_type ≡ commit) ⊎ (arg.request_type ≡ abort)
        → receive same nil_value arg m ≡ some (m', reply)
        → ((answer_notice original_version reply n ≢ none)
            × ((reply.accept ≡ true) ⊎ (original_version < reply.version)))
          ⊎ ((answer_notice original_version reply n ≡ none)
              × (arg.version ≤ original_version)
              × (reply.accept ≡ false)
              × (reply.version ≤ original_version))
    unfolding receive answer_notice make_accept
    answered arg m m' n reply original_version t e = elim (Bool-cases reply.accept) [
      | inl accepts ↦ inl (λ f. ground arith, inl accepts)
      | inr rejects ↦ elim (Bool-cases (ltb original_version reply.version)) [
        | inl later ↦
            inl (λ f. catch_up-ne-none n reply (rw (rejects, later) at f), inr (ground arith))
        | inr late ↦ elim (Bool-cases (is_stale same nil_value arg m)) [
          | inl stale ↦ let no' : ⊥ = ground arith in absurd no'
          | inr fresh ↦
              let e' = rw fresh at e in
              let low = low_reply arg (note_time same nil_value arg m) m' reply t e' rejects in
              inr (rw (rejects, late) refl, ground arith, rejects, ground arith)
        ]
      ]
    ]

    notice_made :
        (now : ℕ) (origin : Node V) (arg : Request V)
        → (arg ≡ make_commit now origin) ⊎ (arg ≡ make_abort nil_value now origin)
        → ((arg.request_type ≡ commit) ⊎ (arg.request_type ≡ abort))
          × (arg.version ≡ origin.version + 1)
    unfolding make_commit make_abort
    notice_made now origin arg (inl made) =
        (inl (ap (λ a. a.request_type) made), ap (λ a. a.version) made)
    notice_made now origin arg (inr made) =
        (inr (ap (λ a. a.request_type) made), ap (λ a. a.version) made)

    -- A node sends the `Commit` or the `Abort` that it made as `origin`, and compares the reply of
    -- any node `m` with the version `original_version` that it read, without the mutex, when the
    -- broadcast began. The assertion about the reply does not fail, as the reply accepts or is of a
    -- later version than that; unless `original_version` is already later than the version of
    -- `origin`, the reply rejects, and its version is not later than `original_version`: then it
    -- fails.
    pub notice-answered :
        (now : ℕ) (origin m m' n : Node V) (arg : Request V) (reply : Response V)
        (original_version : ℕ)
        → (arg ≡ make_commit now origin) ⊎ (arg ≡ make_abort nil_value now origin)
        → receive same nil_value arg m ≡ some (m', reply)
        → ((answer_notice original_version reply n ≢ none)
            × ((reply.accept ≡ true) ⊎ (original_version < reply.version)))
          ⊎ ((answer_notice original_version reply n ≡ none)
              × (origin.version < original_version)
              × (reply.accept ≡ false)
              × (reply.version ≤ original_version))
    notice-answered now origin m m' n arg reply original_version made e =
        let (t, version) = notice_made now origin arg made in
        elim (answered arg m m' n reply original_version t e) [
          | inl holds ↦ inl holds
          | inr (fails, late, rejects, low) ↦ inr (fails, omega arith, rejects, low)
        ]
