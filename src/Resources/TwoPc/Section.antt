-- ===== src/Resources/TwoPc/Section.antt =====
-- distsys/resources/twopc.go: what the archetype that owns a node does to it. An operation that
-- lets the mutex go stands here as several functions, one for each time that it holds the mutex. An
-- outcome `none` of a request is an error of the connection.
use pgo_eval.Base.{
  ℕ, ◌+◌, ◌-◌, ◌*◌, ◌^◌, Bool, true, false, ◌||◌, ◌&&◌, not, Option, none, some, List, [], ◌∷◌,
  if◌then◌else◌, ltb, ◌==◌, ◌>>=◌,
}
use pgo_eval.Resources.TwoPc.{
  Request, Response, in_uninterrupted_section, not_in_section, in_pre_commit, has_pre_committed,
  failed_pre_commit, Node, has_accepted, is_outside, has_new_value, is_in_pre_commit,
  is_pre_committed, permanently_failed, should_abort_pre_commit, make_commit, make_pre_commit,
  accept_new_value,
}

-- The wait before a `PreCommit` is below this number of milliseconds, `maxToWait`. The source
-- computes it with floating point numbers, which are exact below 2 ^ 53.
unfoldable pub max_to_wait : ℕ → ℕ → ℕ
max_to_wait replicas attempts =
    let longest = 2 * (replicas * replicas) * (2 ^ attempts - 1) in
    if ltb longest 1 then 1 else longest

module _ {V : Type 0} where
  unfoldable pub enter : Node V → Node V
  enter res =
      if is_outside res.section_state
      then record res { section_state = in_uninterrupted_section }
      else res

  -- `none` is `ErrCriticalSectionAborted`.
  unfoldable pub read_value : Node V → Node V × Option V
  unfolding enter permanently_failed
  read_value res = if permanently_failed res then (res, none) else (enter res, some res.value)

  -- The Boolean tells whether the write was done, and was not refused with
  -- `ErrCriticalSectionAborted`.
  unfoldable pub write_value : V → Node V → Node V × Bool
  unfolding enter permanently_failed
  write_value v res =
      if permanently_failed res then (res, false) else (enter (record res { value = v }), true)

  -- The test of `PreCommit` after its wait, with the version from before the wait.
  unfoldable pub is_interrupted : ℕ → Node V → Bool
  is_interrupted initial_version res =
      not (res.version == initial_version) || has_accepted res.two_pc_state

  -- `doPreCommit` up to its broadcast: the request to be sent, `none` if it aborts.
  unfoldable pub begin_pre_commit : ℕ → Node V → Node V × Option (Request V)
  unfolding should_abort_pre_commit make_pre_commit
  begin_pre_commit now res =
      if should_abort_pre_commit res
      then (res, none)
      else let res' = record res { section_state = in_pre_commit } in
        (res', some (make_pre_commit now res'))

  -- The value of a replica that is ahead is taken over.
  unfoldable pub catch_up : Response V → Node V → Option (Node V)
  unfolding accept_new_value
  catch_up reply res =
      if ltb res.version reply.version
      then accept_new_value reply.value reply.version res
      else some res

  -- What a request of `doPreCommit` does with its outcome, and the response that it counts as.
  unfoldable pub answer_pre_commit : Option (Response V) → Node V → Option (Node V × Bool)
  unfolding catch_up
  answer_pre_commit none res = some (res, false)
  answer_pre_commit (some reply) res =
      if reply.accept then some (res, true) else do res' ← catch_up reply res; some (res', false)

  -- `doPreCommit` after its broadcast: whether it succeeds. Otherwise a rollback follows, and then
  -- `fail_pre_commit`.
  unfoldable pub complete_pre_commit : Bool → Node V → Option (Node V × Bool)
  complete_pre_commit success res =
      if not success || has_new_value res.section_state
      then some (res, false)
      else if is_in_pre_commit res.section_state
      then some (record res { pre_commit_attempts = 0; section_state = has_pre_committed }, true)
      else none

  unfoldable pub fail_pre_commit : Node V → Node V
  fail_pre_commit res = record res {
    section_state = failed_pre_commit;
    pre_commit_attempts = res.pre_commit_attempts + 1;
  }

  -- `Commit` up to its broadcast.
  unfoldable pub begin_commit : ℕ → Node V → Option (Request V)
  unfolding make_commit
  begin_commit now res =
      if not res.closed && is_pre_committed res.section_state && not (has_accepted res.two_pc_state)
      then some (make_commit now res)
      else none

  -- `Commit` after its broadcast, with the version from before it.
  unfoldable pub finish_commit : ℕ → Node V → Node V
  finish_commit original_version res =
      let res' =
        if res.version == original_version
        then record res { old_value = res.value; version = res.version + 1 }
        else res in
      record res' { section_state = not_in_section }

  -- The Boolean tells whether a rollback follows, and then `finish_abort`.
  unfoldable pub begin_abort : Node V → Node V × Bool
  begin_abort res =
      let res' = record res { value = res.old_value } in
      if is_pre_committed res.section_state
      then (res', true)
      else (record res' { section_state = not_in_section }, false)

  unfoldable pub finish_abort : Node V → Node V
  finish_abort res = record res { section_state = not_in_section }

  -- What `broadcastAbortOrCommit` does with the response of a replica.
  unfoldable pub answer_notice : ℕ → Response V → Node V → Option (Node V)
  unfolding catch_up
  answer_notice original_version reply res =
      if reply.accept
      then some res
      else if ltb original_version reply.version
      then catch_up reply res
      else none

  -- The loop of `broadcastAbortOrCommit` for one replica, with the outcomes of its requests in
  -- order. The Boolean tells whether the loop has ended.
  unfoldable pub notify : ℕ → List (Option (Response V)) → Node V → Option (Node V × Bool)
  unfolding answer_notice
  notify original_version [] res = some (res, not (res.version == original_version))
  notify original_version (none ∷ outcomes) res =
      let again = notify original_version outcomes res in
      if res.version == original_version then again else some (res, true)
  notify original_version (some reply ∷ outcomes) res =
      let last = answer_notice original_version reply res >>= λ res'. some (res', true) in
      if res.version == original_version then last else some (res, true)

  -- `Close` up to where it waits for the requests in flight, as the Boolean tells.
  unfoldable pub close : Node V → Option (Node V × Bool)
  close res =
      if is_in_pre_commit res.section_state || is_pre_committed res.section_state
      then none
      else some (record res { closed = true }, ltb 0 res.num_in_flight_requests)
