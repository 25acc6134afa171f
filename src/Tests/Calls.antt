-- ===== src/Tests/Calls.antt =====
-- Examples for the calls of distsys/archetypeinterface.go: a procedure with a parameter and a local.
use text.Mathlib.Text.{◌==◌ as str_eq}
use pgo_eval.Base.{String, ◌≡◌, refl, ap, true, Option, none, some, [], ◌∷◌, if◌then◌else◌}
use pgo_eval.Base.Int.{pos}
use pgo_eval.Tla.Tuples.{o_symbol}
use pgo_eval.Context.Procedures.{Store, Proc, Tables, call, return, tail_call}
use pgo_eval.Context.Procedures.Tail.{tail_call-none}
use pgo_eval.Context.Procedures.Return.{returned, return-call}
use pgo_eval.Tests.Nested.{Nested, nil, num, str, nested, nested_maps, nested_keys}

abbrev proc : Proc Nested
proc = record { state_vars = "a" ∷ "b" ∷ []; label = "start"; preamble = λ s. some s }

abbrev tables : Tables Nested
tables = record {
  jump_table = λ label. true;
  proc_table = λ name. if str_eq name "p" then some proc else none;
}

preamble_same : (s2 s3 : Store Nested) → proc.preamble s2 ≡ some s3 → s3 ≡ s2
preamble_same s2 s3 e = cc

abbrev empty_stack : Nested
unfolding nested
empty_stack = nested.make_tuple []

-- The local `b` does not exist before the call, and `a` is 7.
abbrev before : Store Nested
unfolding nested
before y =
    if str_eq y ".stack"
    then some empty_stack
    else if str_eq y ".pc"
    then some (str "main")
    else if str_eq y "a"
    then some (num (pos 7))
    else none

abbrev called : Option (Store Nested)
called = call nested_maps nested nil tables "p" "main" (num (pos 8) ∷ []) before

abbrev after : Store Nested
after = elim called [ some t ↦ t | none ↦ before ]

is_called : called ≡ some after
unfolding call before empty_stack nested o_symbol
is_called = refl

abbrev top : Nested
top = elim (after ".stack") [ some v ↦ v | none ↦ nil ]

-- Whatever the procedure has made of its variables.
abbrev at_return : Store Nested
at_return y = some (if str_eq y ".stack" then top else num (pos 9))

same_stack : at_return ".stack" ≡ after ".stack"
unfolding call before empty_stack nested o_symbol
same_stack = refl

stack_there : before ".stack" ≡ some empty_stack
unfolding before empty_stack
stack_there = refl

is_tuple : nested.as_tuple empty_stack ≡ some []
unfolding nested empty_stack
is_tuple = refl

return-call_example :
    (r : Store Nested) × (return nested_maps nested nil tables at_return ≡ some r)
    × ((y : String)
        → r y
          ≡ returned nested_maps nested nil tables proc "main" (num (pos 8) ∷ []) [] at_return y)
return-call_example =
    return-call nested_maps nested nil tables proc "main" (num (pos 8) ∷ []) "p" before after
      at_return empty_stack [] refl
      (λ s2 s3 e. ap (λ (o : Store Nested). o ".stack") (preamble_same s2 s3 e)) stack_there
      is_tuple is_called same_stack (λ y c. (_, refl))

tail_call-none_example : tail_call nested_maps nested nil tables "p" (num (pos 8) ∷ []) after ≡ none
tail_call-none_example = tail_call-none nested_maps nested nil tables "p" (num (pos 8) ∷ []) after
