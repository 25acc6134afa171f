-- ===== src/Context/Sections/Atomic.antt =====
-- distsys/mpcalctx.go: an attempt at a critical section takes effect as a whole or not at all.
use pgo_eval.Base.{
  ◌≡◌, ◌⊎◌, refl, sym, ◌∙◌, String, Bool, true, false, some, List, [], ◌>>=◌, arith, Bool-cases,
  inl, inr,
}
use pgo_eval.Context.Sections.Contract.{Resource}
use pgo_eval.Context.Sections.{
  Body, contains, Context, run_body, each, abort, commit, abort_after, attempt,
}
use pgo_eval.Context.Sections.Effect.{at, Running}
use pgo_eval.Context.Sections.Loops.{
  AllThere, each-Ended, PreCommitted, pre_commit_each-PreCommitted,
}
use pgo_eval.Context.Sections.Run.{BodyFits, replaced, install, run_body-Running}

-- An iteration over a map meets exactly its keys.
abbrev pub IsOrder : (List String → List String) → Type 0
IsOrder order = (hs : List String) (h : String) → contains h (order hs) ≡ contains h hs

module _ {V R S : Type 0} (ops : Resource V R S) where
  -- Between critical sections nothing is dirty, and each resource is as the last commit left it.
  pub record AtRest (ctx : Context ops) : Type 0 where
    pub dirty : ctx.dirty ≡ []
    pub clean : (h : String) → at ops ops.now ctx h ≡ at ops ops.saved ctx h

  -- All resources are as they were, up to those that the body has put in the place of others, or all
  -- are as the whole body has left them.
  abbrev pub AllOrNothing : Body V R → Context ops → Bool → Context ops → Type 0
  AllOrNothing body start ok ctx =
      ((ok ≡ false)
        × ((h : String)
            → at ops ops.saved ctx h
              ≡ at ops ops.saved (install ops (replaced ops body start) start) h))
      ⊎ ((ok ≡ true)
          × ((end : Context ops) × (run_body ops body start ≡ some (true, end))
              × ((h : String) → at ops ops.saved ctx h ≡ at ops ops.now end h)))

  start-Running : (ctx : Context ops) → AtRest ctx → Running ops ctx ctx
  start-Running ctx rest = record {
    saved = λ h. refl;
    named = refl;
    clean = λ h absent. rest.clean h;
    present =
        λ h there. let bad : false ≡ true = rw rest.dirty at there in let no : ⊥ = cc in absurd no;
  }

  order-AllThere :
      (order : List String → List String) (start ctx : Context ops)
      → IsOrder order
      → Running ops start ctx
      → AllThere ops ctx (order ctx.dirty)
  order-AllThere order start ctx all run h there = run.present h (rw (all ctx.dirty h) at there)

  -- `abort` brings every resource back to its last commit.
  abort-AtRest :
      (order : List String → List String) (start ctx : Context ops)
      → IsOrder order
      → Running ops start ctx
      → (ctx' : Context ops) × (abort ops order ctx ≡ some ctx')
        × AtRest ctx'
        × ((h : String) → at ops ops.saved ctx' h ≡ at ops ops.saved start h)
  unfolding abort
  abort-AtRest order start ctx all run =
      let (ctx', loop, done') =
        each-Ended ops ops.abort (order ctx.dirty) ctx (order-AllThere order start ctx all run) in
      let same : (h : String) → at ops ops.saved ctx' h ≡ at ops ops.saved ctx h =
        λ h. done'.states ops.saved ops.saved ops.saved-abort ops.saved-abort h ∙ ground arith in
      (
        record ctx' { dirty = [] },
        rw (loop, ◌>>=◌),
        record {
          dirty = refl;
          clean = λ h.
              done'.states ops.now ops.saved ops.now-abort ops.saved-abort h
              ∙ elim (Bool-cases (contains h ctx.dirty)) [
                | inl touched ↦ rw (all ctx.dirty h, touched) (sym (same h))
                | inr untouched ↦
                    rw (all ctx.dirty h, untouched) (run.clean h untouched ∙ sym (same h))
              ];
        },
        λ h. same h ∙ run.saved h,
      )

  pre-Running :
      (start ctx ctx1 : Context ops)
      → Running ops start ctx
      → PreCommitted ops ctx ctx1
      → Running ops start ctx1
  pre-Running start ctx ctx1 run pre = record {
    saved = λ h. pre.saved h ∙ run.saved h;
    named = pre.named ∙ run.named;
    clean = λ h absent. pre.now h ∙ run.clean h (rw pre.dirty at absent) ∙ sym (pre.saved h);
    present = λ h there. rw (pre.saved h) (run.present h (rw pre.dirty at there));
  }

  -- The second half of `commit` makes every current state the one of the last commit.
  commit_loop-AtRest :
      (order : List String → List String) (start ctx : Context ops)
      → IsOrder order
      → Running ops start ctx
      → (ctx' : Context ops) × (each ops ops.commit (order ctx.dirty) ctx ≡ some ctx')
        × AtRest (record ctx' { dirty = [] })
        × ((h : String) → at ops ops.saved ctx' h ≡ at ops ops.now ctx h)
  commit_loop-AtRest order start ctx all run =
      let (ctx', loop, done') =
        each-Ended ops ops.commit (order ctx.dirty) ctx (order-AllThere order start ctx all run) in
      let now_same : (h : String) → at ops ops.now ctx' h ≡ at ops ops.now ctx h =
        λ h. done'.states ops.now ops.now ops.now-commit ops.now-commit h ∙ ground arith in
      let saved_now : (h : String) → at ops ops.saved ctx' h ≡ at ops ops.now ctx h = λ h.
        done'.states ops.saved ops.now ops.saved-commit ops.now-commit h
        ∙ elim (Bool-cases (contains h ctx.dirty)) [
          | inl touched ↦ rw (all ctx.dirty h, touched)
          | inr untouched ↦ rw (all ctx.dirty h, untouched) (sym (run.clean h untouched))
        ] in
      (ctx', loop, record { dirty = refl; clean = λ h. now_same h ∙ sym (saved_now h) }, saved_now)

  -- What `attempt` does once the body has come to its end in `ctx`.
  commit-AllOrNothing :
      (order : List String → List String) (body : Body V R) (start ctx : Context ops)
      → IsOrder order
      → Running ops (install ops (replaced ops body start) start) ctx
      → run_body ops body start ≡ some (true, ctx)
      → (ok : Bool) × (ctx' : Context ops) × (abort_after ops order (commit ops order ctx)
          ≡ some (ok, ctx'))
        × AtRest ctx'
        × AllOrNothing body start ok ctx'
  unfolding commit abort_after
  commit-AllOrNothing order body start ctx all run ended =
      let base = install ops (replaced ops body start) start in
      let (ok, ctx1, pre_run, pre) =
        pre_commit_each-PreCommitted ops (order ctx.dirty) ctx
          (order-AllThere order base ctx all run) in
      let run1 = pre-Running base ctx ctx1 run pre in
      elim (Bool-cases ok) [
        | inl yes_ok ↦
            let (ctx2, loop, rest, saved_now) = commit_loop-AtRest order base ctx1 all run1 in
            (
              true,
              record ctx2 { dirty = [] },
              rw (pre_run, ◌>>=◌, yes_ok, loop),
              rest,
              inr (refl, (ctx, ended, λ h. saved_now h ∙ pre.now h)),
            )
        | inr failed ↦
            let (ctx2, aborted, rest, same) = abort-AtRest order base ctx1 all run1 in
            (false, ctx2, rw (pre_run, ◌>>=◌, failed, aborted), rest, inl (refl, same))
      ]

  -- An attempt from a state at rest does not panic, and is at rest afterwards, for a body of reads,
  -- writes, errors and the resources that calls make new, which has only handles of resources with
  -- known names and makes only resources without an uncommitted change, over resources that do not
  -- panic. Either it failed and every resource is as it was, but for those that the body has put in
  -- the place of others, which stay; or it succeeded and every resource is as the whole body has
  -- left it; whichever resources fail, and in whichever order Go iterates over the dirty ones.
  pub attempt-AllOrNothing :
      (order : List String → List String) (body : Body V R) (start : Context ops)
      → IsOrder order
      → AtRest start
      → BodyFits ops start body
      → (ok : Bool) × (ctx : Context ops) × (attempt ops order body start ≡ some (ok, ctx))
        × AtRest ctx
        × AllOrNothing body start ok ctx
  unfolding attempt abort_after
  attempt-AllOrNothing order body start all rest fit =
      let (ok, ctx, ran, run) =
        run_body-Running ops start start body (start-Running start rest) fit in
      elim (Bool-cases ok) [
        | inl e ↦
            let (ok', ctx', committed, rest', outcome) =
              commit-AllOrNothing order body start ctx all run (rw e at ran) in
            (ok', ctx', rw (ran, ◌>>=◌, e) committed, rest', outcome)
        | inr e ↦
            let base = install ops (replaced ops body start) start in
            let (ctx', aborted, rest', same) = abort-AtRest order base ctx all run in
            (false, ctx', rw (ran, ◌>>=◌, e, aborted), rest', inl (refl, same))
      ]
