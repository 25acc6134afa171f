-- ===== src/Tests/Runtime.antt =====
-- Examples for distsys/archetyperesource.go, distsys/resources/localshared.go and channels.go, and
-- distsys/mpcalctx.go.
use pgo_eval.Base.{ℕ, ◌≡◌, ◌≢◌, ◌⊎◌, ◌++◌, ◌≤◌, refl, true, false, none, some, List, [], ◌∷◌, arith}
use pgo_eval.Resources.Local
use pgo_eval.Resources.Local.{Local}
use pgo_eval.Resources.Local.Rollback
use pgo_eval.Resources.Local.Rollback.{promises, performs, performs-promises, rolled_back}
use pgo_eval.Resources.Shared
use pgo_eval.Resources.Shared.{
  Shared, index_write, Step, read_step, write_step, index_step, Reach, start, later, max_sem_size,
  held, make_shared, write_granted, read_granted, index_write,
}
use pgo_eval.Resources.Shared.Invariant.{writer_excludes, readers_see_committed}
use pgo_eval.Resources.Channels.{abort_input, new_output}
use pgo_eval.Resources.Channels.Exactly.{
  InputCall, input_run, started, input_exactly_once, OutputCall, OutputRun, output_run,
  writes_committed, output_exactly_once,
}
use pgo_eval.Context.Lifecycle
use pgo_eval.Context.Lifecycle.{
  looping, end_section, Life, new_context, returned, not_started, panicked, leaving, start_section,
  stop_section,
}
use pgo_eval.Context.Lifecycle.Safety.{stopped_means_stopped}
use pgo_eval.Context.Lifecycle.Stuck.{stop_deadlocks}

abbrev calls : List (Rollback.Call ℕ)
calls = Rollback.Call.write_call 5 ∷ Rollback.Call.commit_call ∷ Rollback.Call.write_call 6 ∷ []

performs-promises_example :
    (Local.read_value (performs 0 calls (Local.new 0 3))
      ≡ (promises calls (record { committed = 3; current = 3 })).current)
    × (Local.read_value (Local.abort 0 (performs 0 calls (Local.new 0 3)))
        ≡ (promises calls (record { committed = 3; current = 3 })).committed)
performs-promises_example = performs-promises 0 3 calls

abbrev fresh : Shared ℕ
fresh = make_shared 0 3

-- Two archetypes: the first one writes, with a write below an index before, or only reads.
abbrev written : Shared ℕ
written = write_granted 0 9 (index_write 4 fresh)

written-Reach : Reach 0 3 2 true written
unfolding make_shared index_write Shared.write_wants
written-Reach = later (later start (index_step 4 refl)) (write_step 0 9 (omega arith) (omega arith))

written-full : written.acquired 0 ≡ max_sem_size
unfolding make_shared write_granted index_write
written-full = refl

writer_excludes_example :
    (held 2 written.acquired ≤ max_sem_size)
    × (written.sem ≡ held 2 written.acquired)
    × (written.acquired 1 ≡ 0)
writer_excludes_example =
    writer_excludes 0 2 written-Reach 0 1 (omega arith) (omega arith) (omega arith) written-full

abbrev viewed : Shared ℕ
viewed = (read_granted 0 fresh).1

viewed-Reach : Reach 0 3 2 false viewed
unfolding make_shared read_granted held Shared.read_wants
viewed-Reach = later start (read_step 0 (omega arith) (omega arith))

viewed-one : viewed.acquired 0 ≡ 1
unfolding make_shared read_granted
viewed-one = refl

readers_see_committed_example :
    (viewed.res.has_old_value ≡ false) × ((read_granted 0 viewed).0 ≡ rolled_back viewed.res)
readers_see_committed_example =
    readers_see_committed 0 2 viewed-Reach 0 (omega arith) (omega (arith, viewed-one))
      (omega (arith, viewed-one))

unheld : fresh.acquired 0 ≡ 0
unfolding make_shared
unheld = refl

abbrev inputs : List (InputCall ℕ)
inputs =
    InputCall.read_call (some 1)
    ∷ InputCall.abort_call
    ∷ InputCall.read_call none
    ∷ InputCall.read_call (some 2)
    ∷ InputCall.commit_call
    ∷ []

input_exactly_once_example :
    (let r = input_run started inputs in
      (r.committed ++ (r.reading ++ r.res.buffer) ≡ r.taken)
      × ((abort_input r.res).buffer ≡ r.reading ++ r.res.buffer))
input_exactly_once_example = input_exactly_once inputs

abbrev outputs : List (OutputCall ℕ)
outputs =
    OutputCall.write_call 1
    ∷ OutputCall.abort_call
    ∷ OutputCall.write_call 2
    ∷ OutputCall.commit_call
    ∷ []

abbrev idle : OutputRun ℕ
idle = record { res = new_output; sent = [] }

output_exactly_once_example :
    (output_run idle outputs).sent ≡ idle.sent ++ writes_committed idle.res.buffer outputs
output_exactly_once_example = output_exactly_once idle outputs

-- `Stop` comes before `Run`.
abbrev stopped : Life
stopped = stop_section false none new_context

stopped-Reach : Lifecycle.Reach new_context stopped
stopped-Reach = Lifecycle.next Lifecycle.here (Lifecycle.stop_step refl)

stopped_means_stopped_example :
    (stopped.phase ≢ panicked)
    × ((stopped.exit_closed ≡ false)
        ⊎ ((stopped.phase ≡ returned)
            ⊎ ((stopped.phase ≡ not_started)
                × ((start_section stopped.exit_requested stopped.request_exit stopped).phase
                    ≡ returned))))
stopped_means_stopped_example = stopped_means_stopped stopped-Reach

-- `Run` has taken one request, and a second one waits.
abbrev asked_twice : Life
asked_twice = record {
  exit_requested = false;
  request_exit = some 1;
  exit_closed = false;
  phase = leaving;
  blocked_stop = false;
}

abbrev asked_again : Life
asked_again = stop_section asked_twice.exit_requested asked_twice.request_exit asked_twice

asked_twice-Reach : Lifecycle.Reach new_context asked_twice
unfolding stop_section start_section
asked_twice-Reach =
    Lifecycle.next
      (Lifecycle.next
        (Lifecycle.next (Lifecycle.next Lifecycle.here (Lifecycle.start_step refl refl))
          (Lifecycle.stop_step refl))
        (Lifecycle.poll_step refl refl))
      (Lifecycle.stop_step refl)

stop_deadlocks_example : (asked_again.phase ≡ leaving) × (asked_again.blocked_stop ≡ true)
stop_deadlocks_example = stop_deadlocks asked_twice refl refl refl Lifecycle.here

-- `Run` has run and left by itself.
abbrev finished : Life
finished = record {
  exit_requested = false;
  request_exit = none;
  exit_closed = true;
  phase = returned;
  blocked_stop = false;
}

finished-Reach : Lifecycle.Reach new_context finished
unfolding start_section end_section
finished-Reach =
    Lifecycle.next
      (Lifecycle.next (Lifecycle.next Lifecycle.here (Lifecycle.start_step refl refl))
        (Lifecycle.leave_step refl))
      (Lifecycle.end_step refl refl)
