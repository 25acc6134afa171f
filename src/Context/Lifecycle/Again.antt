-- ===== src/Context/Lifecycle/Again.antt =====
-- distsys/mpcalctx.go: a second call of `Run`, after the first has returned.
use pgo_eval.Base.{◌≡◌, subst, false, arith}
use pgo_eval.Context.Lifecycle.{
  looping, returned, panicked, Life, new_context, start_section, end_section, Reach,
}
use pgo_eval.Context.Lifecycle.Safety.{PhaseHolds, Reach-Inv}

-- If `Run` has returned and no exit was flagged, then a second call of `Run` gets past the check at
-- its start and runs the archetype, and its end panics, since the channel is closed already.
pub run_again-panicked :
    (s : Life)
    → Reach new_context s
    → s.phase ≡ returned
    → s.exit_requested ≡ false
    → (let again = start_section s.exit_requested s.request_exit s in
        (again.phase ≡ looping) × ((end_section again.exit_closed again).phase ≡ panicked))
unfolding start_section end_section
run_again-panicked s r over unflagged =
    let holds = subst (λ q. PhaseHolds q s) over (Reach-Inv r).phase in (ground arith, ground arith)
