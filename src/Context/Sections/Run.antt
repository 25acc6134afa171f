-- ===== src/Context/Sections/Run.antt =====
-- distsys/archetypeinterface.go: the body of a critical section only changes the current states, and
-- marks what it touches as dirty.
use pgo_eval.Base.{
  ◌≡◌, refl, String, Bool, true, false, Option, none, some, List, [], ◌∷◌, ◌>>=◌, arith, Bool-cases,
  Option-cases, inl, inr,
}
use pgo_eval.Context.Sections.Contract.{Resource}
use pgo_eval.Context.Sections.{
  Body, done, give_up, read_then, write_then, ensure_then, Context, ensure, ensure_resource, put,
  check_name, is_some, read, write, run_body,
}
use pgo_eval.Context.Sections.Effect.{at, Running, touch-Running, ensure_resource-Running}
use pgo_eval.Context.Sections.Loops.{found}

module _ {V R S : Type 0} (ops : Resource V R S) where
  -- A handle of a resource, whose name is known.
  abbrev pub Known : Context ops → String → Type 0
  Known start h = (is_some ops (at ops ops.saved start h) ≡ true) × (start.named h ≡ true)

  abbrev pub BodyFits : Context ops → Body V R → Type 0
  BodyFits start done = Unit {0}
  BodyFits start give_up = Unit {0}
  BodyFits start (read_then h is next) = Known start h × ((v : V) → BodyFits start (next v))
  BodyFits start (write_then h is v next) = Known start h × BodyFits start next
  BodyFits start (ensure_then k r next) =
      (ops.saved r ≡ ops.now r) × BodyFits (ensure_resource ops k r start) next

  -- The resources that the body puts in the place of others on its way from `ctx`, in order.
  pub replaced : Body V R → Context ops → List (String × R)
  replaced done ctx = []
  replaced give_up ctx = []
  replaced (read_then h is next) ctx = elim (read ops h is ctx) [
    | none ↦ []
    | some (value, ctx') ↦ elim value [ none ↦ [] | some v ↦ replaced (next v) ctx' ]
  ]
  replaced (write_then h is v next) ctx = elim (write ops h is v ctx) [
    | none ↦ []
    | some (ok, ctx') ↦ elim ok [ true ↦ replaced next ctx' | false ↦ [] ]
  ]
  replaced (ensure_then k r next) ctx = (k, r) ∷ replaced next (ensure_resource ops k r ctx)

  pub install : List (String × R) → Context ops → Context ops
  install [] start = start
  install ((k, r) ∷ rs) start = install rs (ensure_resource ops k r start)

  Known-found :
      (start ctx : Context ops) (h : String)
      → Running ops start ctx
      → Known start h
      → (r : R) × (ctx.resources h ≡ some r)
  Known-found start ctx h run known = found ops ctx h (rw (run.saved h) known.0)

  check_name-known :
      (ok : Bool) (h : String) (ctx : Context ops)
      → ctx.named h ≡ true
      → check_name ops ok h ctx ≡ some ctx
  unfolding check_name
  check_name-known ok h ctx known = ground arith

  read-Running :
      (start ctx : Context ops) (h : String) (is : List V)
      → Running ops start ctx
      → Known start h
      → (value : Option V) × (ctx' : Context ops) × (read ops h is ctx ≡ some (value, ctx'))
        × Running ops start ctx'
  unfolding read
  read-Running start ctx h is run known =
      let (r, there) = Known-found start ctx h run known in
      let r' = (ops.read_at is r).1 in
      let next = touch-Running ops start ctx h r r' run there (ops.saved-read_at is r) in
      (
        (ops.read_at is r).0,
        put ops h r' (ensure ops h ctx),
        rw (
          there,
          ◌>>=◌,
          check_name-known (is_some ops (ops.read_at is r).0) h (put ops h r' (ensure ops h ctx))
              (rw next.named known.1),
        ),
        next,
      )

  write-Running :
      (start ctx : Context ops) (h : String) (is : List V) (v : V)
      → Running ops start ctx
      → Known start h
      → (ok : Bool) × (ctx' : Context ops) × (write ops h is v ctx ≡ some (ok, ctx'))
        × Running ops start ctx'
  unfolding write
  write-Running start ctx h is v run known =
      let (r, there) = Known-found start ctx h run known in
      let r' = (ops.write_at is v r).1 in
      let next = touch-Running ops start ctx h r r' run there (ops.saved-write_at is v r) in
      (
        (ops.write_at is v r).0,
        put ops h r' (ensure ops h ctx),
        rw (
          there,
          ◌>>=◌,
          check_name-known (ops.write_at is v r).0 h (put ops h r' (ensure ops h ctx))
              (rw next.named known.1),
        ),
        next,
      )

  pub run_body-Running :
      (start ctx : Context ops) (body : Body V R)
      → Running ops start ctx
      → BodyFits start body
      → (ok : Bool) × (ctx' : Context ops) × (run_body ops body ctx ≡ some (ok, ctx'))
        × Running ops (install (replaced body ctx) start) ctx'
  unfolding run_body replaced install
  run_body-Running start ctx done run fit = (true, ctx, refl, run)
  run_body-Running start ctx give_up run fit = (false, ctx, refl, run)
  run_body-Running start ctx (read_then h is next) run fit =
      let (value, ctx1, step, run1) = read-Running start ctx h is run fit.0 in
      elim (Option-cases value) [
        | inl e ↦ (false, ctx1, rw (step, ◌>>=◌, e), rw (replaced, step, e) run1)
        | inr (v, e) ↦
            let (ok, ctx2, rest, run2) = run_body-Running start ctx1 (next v) run1 (fit.1 v) in
            (ok, ctx2, rw (step, ◌>>=◌, e) rest, rw (replaced, step, e) run2)
      ]
  run_body-Running start ctx (write_then h is v next) run fit =
      let (ok, ctx1, step, run1) = write-Running start ctx h is v run fit.0 in
      elim (Bool-cases ok) [
        | inl e ↦
            let (ok', ctx2, rest, run2) = run_body-Running start ctx1 next run1 fit.1 in
            (ok', ctx2, rw (step, ◌>>=◌, e) rest, rw (replaced, step, e) run2)
        | inr e ↦ (false, ctx1, rw (step, ◌>>=◌, e), rw (replaced, step, e) run1)
      ]
  run_body-Running start ctx (ensure_then k r next) run fit =
      run_body-Running (ensure_resource ops k r start) (ensure_resource ops k r ctx) next
        (ensure_resource-Running ops start ctx k r run fit.0) fit.1
