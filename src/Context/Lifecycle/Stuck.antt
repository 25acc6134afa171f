-- ===== src/Context/Lifecycle/Stuck.antt =====
-- distsys/mpcalctx.go: a call of `Stop` that holds the lock while it waits to send.
use pgo_eval.Base.{◌≡◌, refl, true, false, some, arith}
use pgo_eval.Context.Lifecycle.{
  leaving, Life, stop_section, Step, stop_step, unblock_step, start_step, poll_step, leave_step,
  end_step, Reach, here, next,
}

record Stuck (s : Life) : Type 0 where
  phase : s.phase ≡ leaving
  blocked : s.blocked_stop ≡ true
  full : s.request_exit ≡ some 1

Step-Stuck : {s t : Life} → Step s t → Stuck s → Stuck t
Step-Stuck {s} (stop_step free) stuck = ground arith
Step-Stuck {s} (unblock_step b e) stuck = ground arith
Step-Stuck {s} (start_step p b) stuck = ground arith
Step-Stuck {s} (poll_step p e) stuck = ground arith
Step-Stuck {s} (leave_step p) stuck = ground arith
Step-Stuck {s} (end_step p b) stuck = ground arith

Reach-Stuck : {s t : Life} → Stuck s → Reach s t → Stuck t
Reach-Stuck stuck here = stuck
Reach-Stuck stuck (next r st) = Step-Stuck st (Reach-Stuck stuck r)

stop-Stuck :
    (s : Life)
    → s.phase ≡ leaving
    → s.exit_requested ≡ false
    → s.request_exit ≡ some 1
    → Stuck (stop_section s.exit_requested s.request_exit s)
unfolding stop_section
stop-Stuck s p live full = rw (live, full) (record { phase = p; blocked = refl; full = refl })

-- When a request is waiting in the channel, no exit is flagged, and `Run` has left its loop, one
-- more call of `Stop` blocks while it holds the lock, and from then on no step changes that:
-- neither that call nor `Run` ever returns.
pub stop_deadlocks :
    (s : Life) {t : Life}
    → s.phase ≡ leaving
    → s.exit_requested ≡ false
    → s.request_exit ≡ some 1
    → Reach (stop_section s.exit_requested s.request_exit s) t
    → (t.phase ≡ leaving) × (t.blocked_stop ≡ true)
stop_deadlocks s p live full r =
    let stuck = Reach-Stuck (stop-Stuck s p live full) r in (stuck.phase, stuck.blocked)
