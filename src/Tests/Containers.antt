-- ===== src/Tests/Containers.antt =====
-- Examples for distsys/hashmap/hashmap.go and distsys/fairness.go.
use pgo_eval.Base.{ℕ, ◌<◌, ◌≡◌, ◌++◌, refl, some, List, [], ◌∷◌, arith}
use pgo_eval.Base.Int.{ℤ, pos}
use pgo_eval.HashMap.{HashMap, new, set, get}
use pgo_eval.HashMap.Keys.{Call, set_call, clear_call, after, latest, KeysMatch, after-latest}
use pgo_eval.Fairness.{CounterRecord, RoundRobin, make_round_robin}
use pgo_eval.Fairness.Radix.{AllFit, product}
use pgo_eval.Fairness.Coverage.{Plan, PlanFits, IsReady, attempt, attempts}
use pgo_eval.Fairness.Coverage.Branches.{ChoicesFit, attempt_total, every_branch_taken}
use pgo_eval.Tests.{integer_keys}

-- 1 and 3 share a chain.
abbrev one_key : HashMap ℤ ℤ
one_key = set (pos 1) (pos 10) new

abbrev past : List (Call ℤ ℤ)
past =
    set_call (pos 3) (pos 31)
    ∷ set_call (pos 1) (pos 10)
    ∷ set_call (pos 3) (pos 30)
    ∷ clear_call
    ∷ []

after-latest_example : ((j : ℤ) → get j (after past) ≡ latest j past) × KeysMatch (after past)
after-latest_example = after-latest past

-- A section with two branching points.
abbrev plan : Plan
plan = ("a", 2) ∷ ("b", 3) ∷ []

plan-PlanFits : PlanFits plan
plan-PlanFits = ground arith

abbrev random : ℕ → ℕ
random _ = 7

empty-AllFit : AllFit make_round_robin.counter_stack
unfolding make_round_robin
empty-AllFit = tt

attempt_total_example :
    (ns : List ℕ) × (cnt' : RoundRobin) × (attempt "l" plan random make_round_robin
      ≡ some (ns, cnt'))
    × ChoicesFit plan ns
    × ((es : List CounterRecord) × (rest : List CounterRecord) × IsReady "l" plan cnt' es rest)
attempt_total_example = attempt_total "l" plan random make_round_robin plan-PlanFits empty-AllFit

abbrev entries : List CounterRecord
entries =
    record { id = "a"; count = 1; ceiling = 2 } ∷ record { id = "b"; count = 1; ceiling = 3 } ∷ []

abbrev ready : RoundRobin
ready = record { pc = "l"; counter_stack = entries; counter_idx = 2 }

entries-AllFit : AllFit (entries ++ [])
entries-AllFit = (
  record { below = omega arith; wide = omega arith },
  (record { below = omega arith; wide = omega arith }, tt),
)

ready-IsReady : IsReady "l" plan ready entries []
ready-IsReady = record { here = refl; stack = refl; follows = ground arith; fit = entries-AllFit }

every_branch_taken_example :
    (n : ℕ) × (n < product (entries ++ []))
    × ((cnt' : RoundRobin) × (attempts n "l" plan random ready ≡ some (0 ∷ 2 ∷ [], cnt')))
every_branch_taken_example =
    every_branch_taken "l" plan random ready entries [] (0 ∷ 2 ∷ []) plan-PlanFits ready-IsReady
      (ground arith)
