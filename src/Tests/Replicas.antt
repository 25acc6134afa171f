-- ===== src/Tests/Replicas.antt =====
-- Examples for distsys/resources/crdt.go: a counter that only grows, merged by the maximum.
use pgo_eval.Base.{ℕ, ◌+◌, ◌≡◌, false, some, List, [], ◌∷◌, if◌then◌else◌, ltb}
use pgo_eval.Resources.Replica.{CrdtValue, new, read_value}
use pgo_eval.Resources.Replica.Promises.{Turn, promises, performs, turns-promises}

abbrev maximum : CrdtValue ℕ ℕ
maximum = record {
  init = 0;
  read = λ c. c;
  write = λ id v c. c + v;
  merge = λ c d. if ltb c d then d else c;
}

abbrev turns : List (Turn ℕ ℕ)
turns =
    Turn.receive_turn (some 5)
    ∷ Turn.write_turn 2
    ∷ Turn.broadcast_turn
    ∷ Turn.merger_turn
    ∷ Turn.commit_turn
    ∷ Turn.write_turn 1
    ∷ Turn.abort_turn
    ∷ []

turns-promises_example :
    (let p = promises maximum 1 turns (record {
      committed = maximum.init;
      current = maximum.init;
      written = false;
      announced = false;
      waiting = [];
    }) in
      ((performs maximum turns (new maximum 0 1)).0 ≡ p.0)
      × (read_value maximum (performs maximum turns (new maximum 0 1)).1
          ≡ maximum.read p.1.current))
turns-promises_example = turns-promises maximum 0 1 turns
