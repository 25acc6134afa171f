-- ===== src/Context/Sections.antt =====
-- distsys/mpcalctx.go and archetypeinterface.go: one attempt at a critical section. The reads and
-- writes of its body mark resources as dirty, and `commit` or `abort` ends it. `none` is a panic, and
-- the only error here is `ErrCriticalSectionAborted`. With no recorder the calls on the event state do
-- nothing; Trace.Events has them. A channel that an operation returns is one to wait on, so that what
-- the operation does is complete when the wait is over.
pub mod Contract
pub mod Effect
pub mod Loops
pub mod Run
pub mod Atomic
use text.Mathlib.Text.{◌==◌ as str_eq}
use pgo_eval.Base.{
  String, Bool, true, false, ◌&&◌, ◌||◌, Option, none, some, List, [], ◌∷◌, if◌then◌else◌, ◌>>=◌,
}
use pgo_eval.Context.Sections.Contract.{Resource}

abbrev pub contains : String → List String → Bool
contains h [] = false
contains h (k ∷ ks) = str_eq h k || contains h ks

-- What a critical section does next, given what it has read. `give_up` is an error, as of an `await`.
-- `ensure_then` is `ensureArchetypeResource` with a new resource, as in `Call`, whose other parts are
-- reads and writes.
pub data Body (V R : Type 0) : Type 0 where
  done give_up : Body V R
  read_then : String → List V → (V → Body V R) → Body V R
  write_then : String → List V → V → Body V R → Body V R
  ensure_then : String → R → Body V R → Body V R

module _ {V R S : Type 0} (ops : Resource V R S) where
  pub record Context : Type 0 where
    pub resources : String → Option R
    -- `dirtyResourceHandles`, each handle once
    pub dirty : List String
    -- whether a handle is in `apparentResourceNames`
    pub named : String → Bool

  -- `ensureCriticalSectionWith`
  unfoldable pub ensure : String → Context → Context
  ensure handle ctx =
      if contains handle ctx.dirty then ctx else record ctx { dirty = handle ∷ ctx.dirty }

  unfoldable pub put : String → R → Context → Context
  put handle res ctx = record ctx {
    resources = λ k. if str_eq k handle then some res else ctx.resources k;
  }

  -- The new resource takes the place of one that is there, dirty or not.
  unfoldable pub ensure_resource : String → R → Context → Context
  ensure_resource name res ctx = record ctx {
    resources = λ k. if str_eq k name then some res else ctx.resources k;
    named = λ k. if str_eq k name then true else ctx.named k;
  }

  -- `nameFromHandle`, which is asked for only where the operation succeeded.
  unfoldable pub check_name : Bool → String → Context → Option Context
  check_name ok handle ctx = if ok then (if ctx.named handle then some ctx else none) else some ctx

  unfoldable pub is_some : {A : Type 0} → Option A → Bool
  is_some none = false
  is_some (some _) = true

  unfoldable pub read : String → List V → Context → Option (Option V × Context)
  read handle indices ctx = do
    res ← ctx.resources handle
    let (value, res') = ops.read_at indices res
    ctx' ← check_name (is_some value) handle (put handle res' (ensure handle ctx))
    some (value, ctx')

  unfoldable pub write : String → List V → V → Context → Option (Bool × Context)
  write handle indices value ctx = do
    res ← ctx.resources handle
    let (ok, res') = ops.write_at indices value res
    ctx' ← check_name ok handle (put handle res' (ensure handle ctx))
    some (ok, ctx')

  -- The body, up to its end or its first error.
  unfoldable pub run_body : Body V R → Context → Option (Bool × Context)
  run_body done ctx = some (true, ctx)
  run_body give_up ctx = some (false, ctx)
  run_body (read_then handle indices next) ctx = do
    (value, ctx') ← read handle indices ctx
    elim value [ none ↦ some (false, ctx') | some v ↦ run_body (next v) ctx' ]
  run_body (write_then handle indices value next) ctx = do
    (ok, ctx') ← write handle indices value ctx
    elim ok [ true ↦ run_body next ctx' | false ↦ some (false, ctx') ]
  run_body (ensure_then name res next) ctx = run_body next (ensure_resource name res ctx)

  -- The loops over the dirty resources.
  unfoldable pub each : (R → R) → List String → Context → Option Context
  each f [] ctx = some ctx
  each f (handle ∷ hs) ctx = do res ← ctx.resources handle; each f hs (put handle (f res) ctx)

  -- Every resource pre-commits, whether or not an earlier one failed.
  unfoldable pub pre_commit_each : List String → Context → Option (Bool × Context)
  pre_commit_each [] ctx = some (true, ctx)
  pre_commit_each (handle ∷ hs) ctx = do
    res ← ctx.resources handle
    let (ok, res') = ops.pre_commit res
    (all_ok, ctx') ← pre_commit_each hs (put handle res' ctx)
    some (ok && all_ok, ctx')

  -- `order` is the order in which Go iterates over the handles of a map.
  module _ (order : List String → List String) where
    unfoldable pub abort : Context → Option Context
    abort ctx = do ctx' ← each ops.abort (order ctx.dirty) ctx; some (record ctx' { dirty = [] })

    unfoldable pub commit : Context → Option (Bool × Context)
    commit ctx = do
      (ok, ctx1) ← pre_commit_each (order ctx.dirty) ctx
      elim ok [
        | false ↦ some (false, ctx1)
        | true ↦ do
          ctx2 ← each ops.commit (order ctx1.dirty) ctx1
          some (true, record ctx2 { dirty = [] })
      ]

    unfoldable pub abort_after : Option (Bool × Context) → Option (Bool × Context)
    abort_after none = none
    abort_after (some (true, ctx)) = some (true, ctx)
    abort_after (some (false, ctx)) = do ctx' ← abort ctx; some (false, ctx')

    -- One attempt, and the abort at the start of the next round of the loop of `Run` if it failed.
    -- The read of `.pc` with which a round begins is the first one of the body.
    unfoldable pub attempt : Body V R → Context → Option (Bool × Context)
    attempt body ctx = do
      (ok, ctx1) ← run_body body ctx
      elim ok [ false ↦ abort_after (some (false, ctx1)) | true ↦ abort_after (commit ctx1) ]
