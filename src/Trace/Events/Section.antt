-- ===== src/Trace/Events/Section.antt =====
-- distsys/trace/state.go: what a whole critical section leaves in the trace.
use mathlib.Core.List.{append-nil, append_assoc}
use pgo_eval.Base.{
  ◌≤◌, ◌≡◌, refl, sym, ◌∙◌, String, true, Option, some, none, List, [], ◌∷◌, ◌++◌, ◌>>=◌, arith,
}
use pgo_eval.Hasher.{Hasher}
use pgo_eval.Maps.{MapLib}
use pgo_eval.Tla.{TlaValue}
use pgo_eval.Trace.VClock.{VClock, merge}
use pgo_eval.Trace.VClock.Counted.{AllCounted, counted, merge-greatest}
use pgo_eval.Trace.Events.{
  Element, read_element, write_element, split_name, EventState, update_vclock, begin_event,
  record_read, record_write,
}

module _ {K : Type 0} ⦃h : Hasher K⦄ (lib : MapLib K) (tla : TlaValue K) where
  -- The calls between the begin and the end of an event.
  pub data Call : Type 0 where
    read_call write_call : String → List K → K → Call
    update_call : VClock lib tla → Call

  unfoldable pub perform : Call → EventState lib tla → Option (EventState lib tla)
  perform (read_call name indices value) acc = record_read lib tla name indices value acc
  perform (write_call name indices value) acc = record_write lib tla name indices value acc
  perform (update_call clock) acc = update_vclock lib tla clock acc

  unfoldable pub performs : List Call → EventState lib tla → Option (EventState lib tla)
  performs [] acc = some acc
  performs (c ∷ cs) acc = do acc' ← perform c acc; performs cs acc'

  -- An event, up to the call that commits or drops it.
  unfoldable pub run_section : List Call → EventState lib tla → Option (EventState lib tla)
  run_section cs acc = do acc' ← begin_event lib tla acc; performs cs acc'

  abbrev pub IsName : String → Type 0
  IsName name = (p : String × String) × (split_name name ≡ some p)

  -- The names have a prefix or begin with a dot, and the clocks have proper counts.
  abbrev pub CallsFit : List Call → Type 0
  CallsFit [] = Unit {0}
  CallsFit (read_call name indices value ∷ cs) = IsName name × CallsFit cs
  CallsFit (write_call name indices value ∷ cs) = IsName name × CallsFit cs
  CallsFit (update_call clock ∷ cs) = AllCounted lib tla clock × CallsFit cs

  abbrev with_name : (String → String → Element K) → Option (String × String) → List (Element K)
  with_name element none = []
  with_name element (some (prefix, name)) = element prefix name ∷ []

  -- The reads and writes among the calls, in order.
  pub elements_of : List Call → List (Element K)
  elements_of [] = []
  elements_of (read_call name indices value ∷ cs) =
      with_name (λ p n. read_element p n indices value) (split_name name) ++ elements_of cs
  elements_of (write_call name indices value ∷ cs) =
      with_name (λ p n. write_element p n indices value) (split_name name) ++ elements_of cs
  elements_of (update_call clock ∷ cs) = elements_of cs

  abbrev pub AtMost : VClock lib tla → VClock lib tla → Type 0
  AtMost a b = (j : K) → counted lib tla a j ≤ counted lib tla b j

  -- The clock is at or after each clock that arrived.
  abbrev pub Covers : List Call → VClock lib tla → Type 0
  Covers [] clock = Unit {0}
  Covers (read_call name indices value ∷ cs) clock = Covers cs clock
  Covers (write_call name indices value ∷ cs) clock = Covers cs clock
  Covers (update_call other ∷ cs) clock = AtMost other clock × Covers cs clock

  -- The state after some calls, next to the one before them.
  pub record Performed (cs : List Call) (s t : EventState lib tla) : Type 0 where
    pub has_recorder : t.has_recorder ≡ true
    pub old_clock : t.old_clock ≡ s.old_clock
    pub recorded : t.recorded ≡ s.recorded
    pub elements : t.elements ≡ s.elements ++ elements_of cs
    pub counts : AllCounted lib tla t.clock
    pub grown : AtMost s.clock t.clock
    pub covers : Covers cs t.clock

  read-runs :
      (s : EventState lib tla) (name : String) (indices : List K) (value : K) (p n : String)
      → s.has_recorder ≡ true
      → split_name name ≡ some (p, n)
      → record_read lib tla name indices value s
        ≡ some (record s { elements = s.elements ++ read_element p n indices value ∷ [] })
  unfolding record_read
  read-runs s name indices value p n on named = rw (on, named, ◌>>=◌)

  write-runs :
      (s : EventState lib tla) (name : String) (indices : List K) (value : K) (p n : String)
      → s.has_recorder ≡ true
      → split_name name ≡ some (p, n)
      → record_write lib tla name indices value s
        ≡ some (record s { elements = s.elements ++ write_element p n indices value ∷ [] })
  unfolding record_write
  write-runs s name indices value p n on named = rw (on, named, ◌>>=◌)

  update-runs :
      (s : EventState lib tla) (clock clock' : VClock lib tla)
      → s.has_recorder ≡ true
      → merge lib tla s.clock clock ≡ some clock'
      → update_vclock lib tla clock s ≡ some (record s { clock = clock' })
  unfolding update_vclock
  update-runs s clock clock' on merged = rw (on, merged, ◌>>=◌)

  add-Performed :
      (cs : List Call) (s t : EventState lib tla) (e : Element K)
      → Performed cs (record s { elements = s.elements ++ e ∷ [] }) t
      → (t.elements ≡ s.elements ++ e ∷ elements_of cs)
  add-Performed cs s t e rest = rest.elements ∙ append_assoc s.elements (e ∷ []) (elements_of cs)

  pub performs-Performed :
      (cs : List Call) (s : EventState lib tla)
      → s.has_recorder ≡ true
      → AllCounted lib tla s.clock
      → CallsFit cs
      → (t : EventState lib tla) × (performs cs s ≡ some t) × Performed cs s t
  unfolding performs perform elements_of
  performs-Performed [] s on counts fit = (
    s,
    refl,
    record {
      has_recorder = on;
      old_clock = refl;
      recorded = refl;
      elements = sym (append-nil s.elements);
      counts = counts;
      grown = λ j. omega arith;
      covers = tt;
    },
  )
  performs-Performed (read_call name indices value ∷ cs) s on counts fit =
      let ((p, n), named) = fit.0 in
      let e = read_element p n indices value in
      let (t, run, rest) =
        performs-Performed cs (record s { elements = s.elements ++ e ∷ [] }) on counts fit.1 in
      (
        t,
        rw (read-runs s name indices value p n on named, ◌>>=◌) run,
        record {
          has_recorder = rest.has_recorder;
          old_clock = rest.old_clock;
          recorded = rest.recorded;
          elements = rw named (add-Performed cs s t e rest);
          counts = rest.counts;
          grown = rest.grown;
          covers = rest.covers;
        },
      )
  performs-Performed (write_call name indices value ∷ cs) s on counts fit =
      let ((p, n), named) = fit.0 in
      let e = write_element p n indices value in
      let (t, run, rest) =
        performs-Performed cs (record s { elements = s.elements ++ e ∷ [] }) on counts fit.1 in
      (
        t,
        rw (write-runs s name indices value p n on named, ◌>>=◌) run,
        record {
          has_recorder = rest.has_recorder;
          old_clock = rest.old_clock;
          recorded = rest.recorded;
          elements = rw named (add-Performed cs s t e rest);
          counts = rest.counts;
          grown = rest.grown;
          covers = rest.covers;
        },
      )
  performs-Performed (update_call clock ∷ cs) s on counts fit =
      let (clock', merged, counts', greatest) = merge-greatest lib tla s.clock clock counts fit.0 in
      let (t, run, rest) = performs-Performed cs (record s { clock = clock' }) on counts' fit.1 in
      (
        t,
        rw (update-runs s clock clock' on merged, ◌>>=◌) run,
        record {
          has_recorder = rest.has_recorder;
          old_clock = rest.old_clock;
          recorded = rest.recorded;
          elements = rest.elements;
          counts = rest.counts;
          grown = λ j. ground (arith, rest.grown j, greatest j);
          covers = (λ j. ground (arith, rest.grown j, greatest j), rest.covers);
        },
      )
