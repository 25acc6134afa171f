-- ===== src/Trace/Events.antt =====
-- distsys/trace/state.go and event.go: what a critical section records of its reads and writes.
-- The recorder is the list of the events that it was given, the earliest first; it writes each event
-- out before it returns. `none` is a panic.
pub mod Section
pub mod Outcome
use Prim.Native.String.{len}
use text.Mathlib.Text.{starts_with, get?, find?}
use pgo_eval.Base.{
  ℕ, ◌+◌, String, Bool, true, false, Option, none, some, List, [], ◌∷◌, ◌++◌, if◌then◌else◌, ◌==◌,
  ◌>>=◌,
}
use pgo_eval.Hasher.{Hasher}
use pgo_eval.Maps.{MapLib}
use pgo_eval.Tla.{TlaValue}
use pgo_eval.Trace.VClock.{VClock, inc, merge}

pub data Element (K : Type 0) : Type 0 where
  read_element write_element : String → String → List K → K → Element K

-- The part of a name before its second dot, if it has two.
unfoldable pub until_dot : String → Option String
until_dot rest = elim (find? rest ".") [ none ↦ some rest | some j ↦ get? rest 0 j ]

-- The prefix and the name of an element. A name that is empty, or that has no dot, is a panic.
unfoldable pub split_name : String → Option (String × String)
split_name name =
    if len name == 0 then none else if starts_with name "." then some ("", name) else do
      i ← find? name "."
      prefix ← get? name 0 i
      rest ← get? name (i + 1) (len name)
      second ← until_dot rest
      some (prefix, second)

module _ {K : Type 0} ⦃h : Hasher K⦄ (lib : MapLib K) (tla : TlaValue K) where
  pub record Event : Type 0 where
    pub archetype_name : String
    pub self : K
    pub elements : List (Element K)
    pub clock : VClock lib tla

  pub record EventState : Type 0 where
    pub has_recorder : Bool
    pub archetype_name : String
    pub archetype_self : K
    pub elements : List (Element K)
    pub clock : VClock lib tla
    pub old_clock : VClock lib tla
    -- what the recorder was given
    pub recorded : List Event

  unfoldable pub update_vclock : VClock lib tla → EventState → Option EventState
  update_vclock clock acc =
      if acc.has_recorder
      then (do clock' ← merge lib tla acc.clock clock; some (record acc { clock = clock' }))
      else some acc

  unfoldable pub begin_clean : List (Element K) → EventState → Option EventState
  begin_clean [] acc = do
    clock ← inc lib tla acc.archetype_name acc.archetype_self acc.clock
    some (record acc { old_clock = acc.clock; clock = clock })
  begin_clean (e ∷ es) acc = none

  unfoldable pub begin_event : EventState → Option EventState
  begin_event acc = if acc.has_recorder then begin_clean acc.elements acc else some acc

  unfoldable pub drop_event : EventState → EventState
  drop_event acc =
      if acc.has_recorder
      then record acc { elements = []; clock = acc.old_clock; old_clock = none }
      else acc

  unfoldable pub commit_event : EventState → EventState
  commit_event acc =
      if acc.has_recorder
      then record acc {
        elements = [];
        old_clock = none;
        recorded =
            acc.recorded
            ++ record {
              archetype_name = acc.archetype_name;
              self = acc.archetype_self;
              elements = acc.elements;
              clock = acc.clock;
            }
              ∷ [];
      }
      else acc

  unfoldable pub crash_event : EventState → EventState
  crash_event acc = if acc.has_recorder then commit_event acc else acc

  unfoldable pub record_read : String → List K → K → EventState → Option EventState
  record_read name indices value acc =
      if acc.has_recorder
      then (do
        (prefix, name') ← split_name name
        some (record acc {
          elements = acc.elements ++ read_element prefix name' indices value ∷ [];
        }))
      else some acc

  unfoldable pub record_write : String → List K → K → EventState → Option EventState
  record_write name indices value acc =
      if acc.has_recorder
      then (do
        (prefix, name') ← split_name name
        some (record acc {
          elements = acc.elements ++ write_element prefix name' indices value ∷ [];
        }))
      else some acc
