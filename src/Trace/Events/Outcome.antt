-- ===== src/Trace/Events/Outcome.antt =====
-- distsys/trace/state.go: a dropped event leaves no trace, and a committed one is recorded once.
use pgo_eval.Base.{
  suc, ◌<◌, ◌^◌, ◌≡◌, refl, ap, ◌∙◌, true, some, none, List, [], ◌∷◌, ◌++◌, ◌>>=◌, arith,
}
use pgo_eval.Hasher.{Hasher}
use pgo_eval.Maps.{MapLib}
use pgo_eval.Maps.Folds.{get_congr}
use pgo_eval.Trace.VClock.Merge.{count_of}
use pgo_eval.Tla.{TlaValue}
use pgo_eval.Trace.VClock.{VClock, inc, key_tuple}
use pgo_eval.Trace.VClock.Counted.{AllCounted, counted, inc-counted}
use pgo_eval.Trace.Events.{Event, EventState, begin_clean, begin_event, drop_event, commit_event}
use pgo_eval.Trace.Events.Section.{
  Call, run_section, CallsFit, elements_of, AtMost, Covers, performs-Performed,
}

module _ {K : Type 0} ⦃h : Hasher K⦄ (lib : MapLib K) (tla : TlaValue K) where
  -- The key of the archetype in its clock.
  abbrev pub own_key : EventState lib tla → K
  own_key s = key_tuple lib tla s.archetype_name s.archetype_self

  -- `DropEvent` brings the state back to where it was, and nothing is recorded.
  pub record Dropped (s t : EventState lib tla) : Type 0 where
    pub clock : (drop_event lib tla t).clock ≡ s.clock
    pub elements : (drop_event lib tla t).elements ≡ []
    pub recorded : (drop_event lib tla t).recorded ≡ s.recorded

  -- `CommitEvent` records the calls in one event, whose clock is after that of the state before it
  -- and at or after those that arrived.
  pub record Committed (cs : List (Call lib tla)) (s t : EventState lib tla) : Type 0 where
    pub event : Event lib tla
    pub recorded : (commit_event lib tla t).recorded ≡ s.recorded ++ event ∷ []
    pub contents : event.elements ≡ elements_of lib tla cs
    pub clock : (commit_event lib tla t).clock ≡ event.clock
    pub empty : (commit_event lib tla t).elements ≡ []
    pub after : counted lib tla s.clock (own_key s) < counted lib tla event.clock (own_key s)
    pub grown : AtMost lib tla s.clock event.clock
    pub covers : Covers lib tla cs event.clock

  counted_congr :
      (a : VClock lib tla) (j k : K)
      → h.equal j k ≡ true
      → counted lib tla a j ≡ counted lib tla a k
  counted_congr none j k e = refl
  counted_congr (some m) j k e = ap (count_of lib tla) (get_congr lib m j k e)

  begin-runs :
      (s : EventState lib tla) (clock : VClock lib tla)
      → s.has_recorder ≡ true
      → s.elements ≡ []
      → inc lib tla s.archetype_name s.archetype_self s.clock ≡ some clock
      → begin_event lib tla s ≡ some (record s { old_clock = s.clock; clock = clock })
  unfolding begin_event begin_clean
  begin-runs s clock on clean run = rw (on, clean, begin_clean, run, ◌>>=◌)

  dropped :
      (s t : EventState lib tla)
      → t.has_recorder ≡ true
      → t.old_clock ≡ s.clock
      → t.recorded ≡ s.recorded
      → Dropped s t
  unfolding drop_event
  dropped s t on old same = record { clock = rw on old; elements = rw on; recorded = rw on same }

  committed :
      (cs : List (Call lib tla)) (s t : EventState lib tla)
      → t.has_recorder ≡ true
      → t.recorded ≡ s.recorded
      → t.elements ≡ elements_of lib tla cs
      → counted lib tla s.clock (own_key s) < counted lib tla t.clock (own_key s)
      → AtMost lib tla s.clock t.clock
      → Covers lib tla cs t.clock
      → Committed cs s t
  unfolding commit_event
  committed cs s t on same contents after grown covers = record {
    event = record {
      archetype_name = t.archetype_name;
      self = t.archetype_self;
      elements = t.elements;
      clock = t.clock;
    };
    recorded = rw (on, same);
    contents = contents;
    clock = rw on;
    empty = rw on;
    after = after;
    grown = grown;
    covers = covers;
  }

  -- With a recorder, from a state with no elements and a proper clock, whose own count is below the
  -- greatest `int32`, an event with proper names and clocks does not panic; dropping it brings back
  -- the clock and records nothing; committing it records one event that has the reads and writes in
  -- order and a clock that is after the one before the event and at or after each clock that
  -- arrived.
  pub section-outcome :
      (cs : List (Call lib tla)) (s : EventState lib tla)
      → s.has_recorder ≡ true
      → s.elements ≡ []
      → AllCounted lib tla s.clock
      → suc (counted lib tla s.clock (own_key s)) < 2 ^ 31
      → CallsFit lib tla cs
      → (t : EventState lib tla) × (run_section lib tla cs s ≡ some t)
        × Dropped s t
        × Committed cs s t
  unfolding run_section
  section-outcome cs s on clean counts small fit =
      let (clock, begun, counts', counts_at) =
        inc-counted lib tla s.archetype_name s.archetype_self s.clock counts small in
      let s' = record s { old_clock = s.clock; clock = clock } in
      let (t, run, p) = performs-Performed lib tla cs s' on counts' fit in
      let own : counted lib tla clock (own_key s) ≡ suc (counted lib tla s.clock (own_key s)) =
        counts_at (own_key s) ∙ rw (h.equal_refl (own_key s)) in
      (
        t,
        rw (begin-runs s clock on clean begun, ◌>>=◌) run,
        dropped s t p.has_recorder p.old_clock p.recorded,
        committed cs s t p.has_recorder p.recorded
            (p.elements ∙ ap (λ es. es ++ elements_of lib tla cs) clean)
            (ground (arith, p.grown (own_key s), own))
            (λ j. ground (arith, p.grown j, counts_at j, counted_congr s.clock j (own_key s)))
            p.covers,
      )
