-- ===== src/Tests/Traces.antt =====
-- Examples for distsys/trace.
use pgo_eval.Base.{suc, ◌<◌, ◌≡◌, ◌^◌, refl, true, none, some, List, [], ◌∷◌, arith}
use pgo_eval.Base.Int.{pos}
use pgo_eval.Maps.Assoc.{assoc_maps}
use pgo_eval.Trace.VClock.{VClock, key_tuple}
use pgo_eval.Trace.VClock.Merge.{set-Counts, empty-Counts}
use pgo_eval.Trace.VClock.Counted.{AllCounted, counted}
use pgo_eval.Trace.Events.{EventState, split_name, until_dot}
use pgo_eval.Trace.Events.Section.{Call, read_call, write_call, update_call, run_section, IsName}
use pgo_eval.Trace.Events.Outcome.{Dropped, Committed, section-outcome}
use pgo_eval.Tests.{integer_keys, maps, integers}

abbrev seen : VClock maps integers
seen = some (maps.set maps.empty (pos 1) (pos 4))

abbrev arrived : VClock maps integers
arrived = some (maps.set (maps.set maps.empty (pos 1) (pos 2)) (pos 2) (pos 7))

seen-AllCounted : AllCounted maps integers seen
seen-AllCounted =
    set-Counts maps integers maps.empty (pos 1) (pos 4) (4, refl) (empty-Counts maps integers)

arrived-AllCounted : AllCounted maps integers arrived
arrived-AllCounted =
    set-Counts maps integers (maps.set maps.empty (pos 1) (pos 2)) (pos 2) (pos 7) (7, refl)
      (set-Counts maps integers maps.empty (pos 1) (pos 2) (2, refl) (empty-Counts maps integers))

abbrev before : EventState maps integers
before = record {
  has_recorder = true;
  archetype_name = "AServer";
  archetype_self = pos 1;
  elements = [];
  clock = seen;
  old_clock = none;
  recorded = [];
}

abbrev calls : List (Call maps integers)
calls =
    read_call ".pc" [] (pos 5)
    ∷ update_call arrived
    ∷ write_call "AServer.x" (pos 1 ∷ []) (pos 6)
    ∷ []

pc-IsName : IsName maps integers ".pc"
unfolding split_name
pc-IsName = ((("", ".pc")), refl)

x-IsName : IsName maps integers "AServer.x"
unfolding split_name until_dot
x-IsName = ((("AServer", "x")), refl)

small : suc (counted maps integers seen (key_tuple maps integers "AServer" (pos 1))) < 2 ^ 31
unfolding assoc_maps integer_keys key_tuple
small = omega arith

section-outcome_example :
    (t : EventState maps integers) × (run_section maps integers calls before ≡ some t)
    × Dropped maps integers before t
    × Committed maps integers calls before t
section-outcome_example =
    section-outcome maps integers calls before refl refl seen-AllCounted small
      (pc-IsName, (arrived-AllCounted, (x-IsName, tt)))
