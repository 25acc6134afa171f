-- ===== src/Context/Procedures/Tail.antt =====
-- Tail calls.
use pgo_eval.Base.{String, ◌≡◌, refl, inl, inr, none, some, List, Option-cases}
use pgo_eval.Hasher.{Hasher}
use pgo_eval.Maps.{MapLib}
use pgo_eval.Tla.Values.{Values}
use pgo_eval.Tla.Tuples.{tail}
use pgo_eval.Context.Procedures.{Store, Tables, return, tail_call}

module _ {V : Type 0} ⦃h : Hasher V⦄ (lib : MapLib V) (values : Values lib) (nil_value : V)
    (tables : Tables V) where
  open lib use {Map, empty, get, set, entries}
  open values use {as_string, make_string, as_tuple, as_function, make_function, make_tuple}

  tail-none : (v : V) (fn : Map V) → as_function v ≡ some fn → tail lib values v ≡ none
  unfolding tail
  tail-none v fn e = rw (values.as_tuple-as_function v e) refl

  -- A tail call panics, whatever the procedure, the arguments and the store: it looks for the program
  -- counter in the stack itself, which would have to be a function there and a tuple in `Return`.
  pub tail_call-none :
      (proc_name : String) (args : List V) (s : Store V)
      → tail_call lib values nil_value tables proc_name args s ≡ none
  unfolding tail_call return
  tail_call-none proc_name args s = elim (Option-cases (s ".stack")) [
    | inl absent ↦ rw absent refl
    | inr (stack_val, at_stack) ↦ elim (Option-cases (as_function stack_val)) [
      | inl no_function ↦ rw (at_stack, no_function) refl
      | inr (fn, is_function) ↦ elim (Option-cases (get fn (make_string ".pc"))) [
        | inl no_pc ↦ rw (at_stack, is_function, no_pc) refl
        | inr (pc, there) ↦
            rw (at_stack, is_function, there, tail-none stack_val fn is_function) refl
      ]
    ]
  ]
