-- ===== src/Context/Lifecycle/Safety.antt =====
-- distsys/mpcalctx.go: when `Stop` returns, the archetype is not running.
use pgo_eval.Base.{
  ℕ, ◌≡◌, ◌⊎◌, inl, inr, refl, subst, ◌≢◌, Bool-cases, Bool, true, false, Option, none, some, arith,
}
use pgo_eval.Context.Lifecycle.{
  Phase, not_started, looping, leaving, returned, panicked, Life, new_context, stop_section,
  start_section, end_section, Step, stop_step, unblock_step, start_step, poll_step, leave_step,
  end_step, Reach, here, next,
}

abbrev pub open_channel : Option ℕ → Bool
open_channel none = false
open_channel (some _) = true

-- How the fields go together in each phase.
abbrev pub PhaseHolds : Phase → Life → Type 0
PhaseHolds not_started s =
    (open_channel s.request_exit ≡ false) × (s.exit_closed ≡ s.exit_requested)
PhaseHolds looping s =
    (s.exit_closed ≡ false) × (s.exit_requested ≡ false) × (open_channel s.request_exit ≡ true)
PhaseHolds leaving s =
    (s.exit_closed ≡ false) × (s.exit_requested ≡ false) × (open_channel s.request_exit ≡ true)
PhaseHolds returned s = (s.exit_closed ≡ true) × (open_channel s.request_exit ≡ false)
PhaseHolds panicked s = ⊥

pub record Inv (s : Life) : Type 0 where
  pub phase : PhaseHolds s.phase s
  pub lock : s.blocked_stop ≡ true → open_channel s.request_exit ≡ true

stop-Inv :
    (s : Life)
    → s.blocked_stop ≡ false
    → Inv s
    → Inv (stop_section s.exit_requested s.request_exit s)
unfolding stop_section
stop-Inv s free inv = ground arith

start-Inv :
    (s : Life)
    → s.phase ≡ not_started
    → s.blocked_stop ≡ false
    → Inv s
    → Inv (start_section s.exit_requested s.request_exit s)
unfolding start_section
start-Inv s p free inv = ground arith

end-Inv :
    (s : Life)
    → s.phase ≡ leaving
    → s.blocked_stop ≡ false
    → Inv s
    → Inv (end_section s.exit_closed s)
unfolding end_section
end-Inv s p free inv = ground arith

Step-Inv : {s t : Life} → Step s t → Inv s → Inv t
Step-Inv {s} (stop_step free) inv = stop-Inv s free inv
Step-Inv {s} (unblock_step b e) inv = ground arith
Step-Inv {s} (start_step p b) inv = start-Inv s p b inv
Step-Inv {s} (poll_step p e) inv = ground arith
Step-Inv {s} (leave_step p) inv = ground arith
Step-Inv {s} (end_step p b) inv = end-Inv s p b inv

pub Reach-Inv : {s : Life} → Reach new_context s → Inv s
Reach-Inv here = record { phase = (refl, refl); lock = λ b. cc }
Reach-Inv (next r st) = Step-Inv st (Reach-Inv r)

-- When the exit channel is closed, `Run` has returned, or will return as soon as it is called.
abbrev NoRun : Life → Type 0
NoRun s =
    (s.phase ≡ returned)
    ⊎ ((s.phase ≡ not_started)
        × ((start_section s.exit_requested s.request_exit s).phase ≡ returned))

closed-NoRun :
    (s : Life) (p : Phase) → s.phase ≡ p → PhaseHolds p s → s.exit_closed ≡ true → NoRun s
unfolding start_section
closed-NoRun s not_started e (o, c) closed = inr (e, ground arith)
closed-NoRun s looping e (c, _, _) closed = ground arith
closed-NoRun s leaving e (c, _, _) closed = ground arith
closed-NoRun s returned e holds closed = inl e
closed-NoRun s panicked e holds closed = absurd holds

-- However calls of `Stop` and one call of `Run` interleave, `Run` does not panic; and once the
-- channel that every `Stop` waits for is closed, `Run` has returned, or has not started and will
-- return at once when it is called.
pub stopped_means_stopped :
    {s : Life}
    → Reach new_context s
    → (s.phase ≢ panicked)
      × ((s.exit_closed ≡ false)
          ⊎ ((s.phase ≡ returned)
              ⊎ ((s.phase ≡ not_started)
                  × ((start_section s.exit_requested s.request_exit s).phase ≡ returned))))
stopped_means_stopped {s} r =
    let inv = Reach-Inv r in
    (
      λ p. subst (λ q. PhaseHolds q s) p inv.phase,
      elim (Bool-cases s.exit_closed) [
        | inl c ↦ inr (closed-NoRun s s.phase refl inv.phase c)
        | inr o ↦ inl o
      ],
    )
