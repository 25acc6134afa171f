-- ===== src/Context/Procedures.antt =====
-- distsys/archetypeinterface.go: procedure calls. An archetype's local variables are resources, among
-- them `.pc` and `.stack`; reads and writes of local resources do not fail, so that the store of their
-- values is what the operations work on. Resources.Local is such a resource, and Context.Sections
-- what marks it as dirty. `none` is a panic.
pub mod Saved
mod Restore
pub mod Return
pub mod Tail
use text.Mathlib.Text.{◌==◌ as str_eq}
use pgo_eval.Base.{
  ℕ, String, Bool, Option, none, some, List, [], ◌∷◌, if◌then◌else◌, ltb, length, ◌>>=◌,
}
use pgo_eval.Hasher.{Hasher}
use pgo_eval.Maps.{MapLib}
use pgo_eval.Tla.Values.{Values}
use pgo_eval.Tla.Tuples.{o_symbol, head, tail}

-- The value of each local variable that exists.
abbrev pub Store : Type 0 → Type 0
Store V = String → Option V

module _ {V : Type 0} where
  unfoldable pub put : String → V → Store V → Store V
  put name v s y = if str_eq y name then some v else s y

  -- `Write` to a handle, which panics if there is no such resource.
  unfoldable pub write : String → V → Store V → Option (Store V)
  unfolding put
  write name v s = s name >>= λ old. some (put name v s)

  -- `ensureArchetypeResource` with a new local resource, which takes the place of one that is there.
  unfoldable pub ensure_local : V → String → Store V → Store V
  unfolding put
  ensure_local default name s = put name default s

-- `MPCalProc`; the preamble is generated code.
pub record Proc (V : Type 0) : Type 0 where
  pub state_vars : List String
  pub label : String
  pub preamble : Store V → Option (Store V)

-- The tables of an archetype.
pub record Tables (V : Type 0) : Type 0 where
  pub jump_table : String → Bool
  pub proc_table : String → Option (Proc V)

module _ {V : Type 0} ⦃h : Hasher V⦄ (lib : MapLib V) (values : Values lib) (nil_value : V)
    (tables : Tables V) where
  open lib use {Map, empty, get, set, entries}
  open values use {as_string, make_string, as_function, make_function, make_tuple}

  unfoldable pub goto : String → Store V → Option (Store V)
  goto target s = if tables.jump_table target then write ".pc" (make_string target) s else none

  -- The value of the next argument is written, if one is left.
  unfoldable pub pass_arg : String → List V → Store V → Option (Store V)
  pass_arg name [] s = some s
  pass_arg name (arg ∷ args) s = write name arg s

  abbrev pub rest_args : List V → List V
  rest_args [] = []
  rest_args (arg ∷ args) = args

  -- The loop of `Call`: what it has read from the variables, and the store with the arguments in it.
  unfoldable pub save_vars : List String → List V → Map V → Store V → Option (Map V × Store V)
  unfolding pass_arg ensure_local write
  save_vars [] args builder s = some (builder, s)
  save_vars (name ∷ names) args builder s = do
    let s1 = ensure_local nil_value name s
    arg_val ← s1 name
    s2 ← pass_arg name args s1
    save_vars names (rest_args args) (set builder (make_string name) arg_val) s2

  unfoldable pub enter_proc : Proc V → String → List V → V → Store V → Option (Store V)
  unfolding save_vars goto write
  enter_proc proc return_pc args stack_val s = do
    (builder, s1) ←
        save_vars proc.state_vars args (set empty (make_string ".pc") (make_string return_pc)) s
    stack_val' ← o_symbol lib values (make_tuple (make_function builder ∷ [])) stack_val
    s2 ← write ".stack" stack_val' s1
    s3 ← proc.preamble s2
    goto proc.label s3

  unfoldable pub call : String → String → List V → Store V → Option (Store V)
  unfolding enter_proc
  call proc_name return_pc args s = do
    proc ← tables.proc_table proc_name
    stack_val ← s ".stack"
    if ltb (length proc.state_vars) (length args)
        then none
        else enter_proc proc return_pc args stack_val s

  -- The loop of `Return`, over the entries of a frame.
  unfoldable pub restore : List (V × V) → Store V → Option (Store V)
  unfolding write
  restore [] s = some s
  restore ((name, value) ∷ es) s = do
    handle ← as_string name
    s' ← write handle value s
    restore es s'

  unfoldable pub return : Store V → Option (Store V)
  unfolding restore write
  return s = do
    stack_val ← s ".stack"
    rest ← tail lib values stack_val
    s' ← write ".stack" rest s
    first ← head lib values stack_val
    frame ← as_function first
    restore (entries frame) s'

  unfoldable pub tail_call : String → List V → Store V → Option (Store V)
  unfolding return call
  tail_call proc_name args s = do
    stack_val ← s ".stack"
    fn ← as_function stack_val
    tail_pc ← get fn (make_string ".pc")
    s' ← return s
    pc ← as_string tail_pc
    call proc_name pc args s'
