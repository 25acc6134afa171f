-- ===== src/Fairness.antt =====
-- distsys/fairness.go: the round-robin policy for the branches of a critical section.
-- `uint` is 64 bits wide. `none` is a panic: a division by a ceiling of zero, or one of the
-- checks of `NextFairnessCounter`. The result of `rand.Uint32()` is an argument. The index is an
-- `int` that never passes the length of the stack by more than one, so it does not wrap.
pub mod Radix
pub mod Next
pub mod Coverage
use text.Mathlib.Text.{◌==◌ as str_eq}
use pgo_eval.Base.{
  ℕ, ◌+◌, ◌/◌, ◌%◌, ◌^◌, String, Bool, ◌&&◌, Option, none, some, List, [], ◌∷◌, ◌++◌, ltb, leb,
  ◌==◌, if◌then◌else◌, length, get_elem?, take, ◌>>=◌,
}

pub record CounterRecord : Type 0 where
  pub id : String
  pub count : ℕ
  pub ceiling : ℕ

pub record RoundRobin : Type 0 where
  pub pc : String
  pub counter_stack : List CounterRecord
  pub counter_idx : ℕ

unfoldable pub make_round_robin : RoundRobin
make_round_robin = record { pc = ""; counter_stack = []; counter_idx = 0 }

-- One round of the loop of `BeginCriticalSection`, on the entry at `idx` with the carry so far.
unfoldable pub increment_record : CounterRecord → ℕ → Option (CounterRecord × ℕ)
increment_record r carry =
    let count = (r.count + carry) % 2 ^ 64 in
    if leb r.ceiling count
    then (if r.ceiling == 0
        then none
        else some (record r { count = count % r.ceiling }, count / r.ceiling))
    else some (record r { count = count }, 0)

-- The loop, which runs from the last entry to the first.
unfoldable pub increment : List CounterRecord → Option (List CounterRecord × ℕ)
increment [] = some ([], 1)
increment (r ∷ rs) = do
  (rs', carry) ← increment rs
  (r', carry') ← increment_record r carry
  some (r' ∷ rs', carry')

unfoldable pub begin_critical_section : String → RoundRobin → Option RoundRobin
begin_critical_section pc cnt = do
  let stack = if str_eq pc cnt.pc then cnt.counter_stack else []
  (stack', carry) ← increment stack
  some (record { pc = pc; counter_stack = stack'; counter_idx = 0 })

-- Whether the entry at the index that is asked for belongs to the same branching point.
unfoldable pub matches : String → ℕ → CounterRecord → Bool
matches id ceiling r = str_eq r.id id && r.ceiling == ceiling

-- The stack without what a shifted branching point leaves invalid.
unfoldable pub drop_stale : String → ℕ → ℕ → List CounterRecord → List CounterRecord
drop_stale id ceiling idx stack = elim (get_elem? stack idx) [
  | none ↦ stack
  | some r ↦ if matches id ceiling r then stack else take idx stack
]

-- A new entry on top of the stack starts at a random count.
unfoldable pub extend : String → ℕ → ℕ → ℕ → List CounterRecord → Option (List CounterRecord)
extend id ceiling random idx stack =
    if idx == length stack
    then (if ceiling == 0
        then none
        else some (stack ++ record { id = id; count = random % ceiling; ceiling = ceiling } ∷ []))
    else some stack

-- The last check: a count that does not fit the ceiling is a bad state.
unfoldable pub read_count : ℕ → CounterRecord → Option ℕ
read_count ceiling r = if leb ceiling r.count then none else some r.count

unfoldable pub next_fairness_counter : String → ℕ → ℕ → RoundRobin → Option (ℕ × RoundRobin)
next_fairness_counter id ceiling random cnt =
    let idx = cnt.counter_idx in
    if ltb (length cnt.counter_stack) idx then none else do
      stack ← extend id ceiling random idx (drop_stale id ceiling idx cnt.counter_stack)
      r ← get_elem? stack idx
      count ← read_count ceiling r
      some (count, record cnt { counter_stack = stack; counter_idx = idx + 1 })
