-- ===== src/Tests/Elements.antt =====
-- Examples for distsys/resources/incmap.go and persistent.go: a map of local resources, and one that is
-- persistent.
use pgo_eval.Base.{ℕ, ◌≡◌, refl, false, Option, none, some, List, [], ◌∷◌}
use pgo_eval.Base.Int.{ℤ, pos}
use pgo_eval.Resources.Local
use pgo_eval.Resources.Local.{Local}
use pgo_eval.Resources.Local.Indexed.{local_resource}
use pgo_eval.Context.Sections.Contract.{Resource}
use pgo_eval.Resources.Persistent.{Persistent, make_persistent}
use pgo_eval.Resources.Persistent.Durable
use pgo_eval.Resources.Persistent.Durable.{performs-Durable}
use pgo_eval.Resources.IncMap.{IncMap, new_inc_map}
use pgo_eval.Resources.IncMap.Section.{
  Call, write_call, read_call, commit_call, performs, Promises, performs-Promises,
}
use pgo_eval.Tests.{integer_keys}

abbrev locals : Resource ℕ (Local ℕ) ℕ
locals = local_resource 0 (λ f i. f) (λ f is v. v)

abbrev five : ℤ → Local ℕ
five k = record { has_old_value = false; value = 5; old_value = 0 }

five-clean : (k : ℤ) → locals.saved (five k) ≡ locals.now (five k)
unfolding local_resource Local.read_value
five-clean k = refl

abbrev nothing : ℕ → Local ℕ
nothing a = record { has_old_value = false; value = 0; old_value = 0 }

-- 1 and 3 share a chain. The write of 8 is committed, and the write of 9 is not.
abbrev past : List (Call ℤ ℕ)
past =
    read_call (pos 3) []
    ∷ write_call (pos 1) [] 9
    ∷ commit_call
    ∷ read_call (pos 3) []
    ∷ write_call (pos 1) [] 8
    ∷ []

performs-Promises_example :
    (res : IncMap ℤ (Local ℕ)) × (performs locals five past (new_inc_map nothing) ≡ some res)
    × Promises locals five res
performs-Promises_example = performs-Promises locals five five-clean (λ j k e. refl) past nothing

clean_start : locals.saved (five (pos 0)) ≡ locals.now (five (pos 0))
clean_start = five-clean (pos 0)

abbrev get_state : Local ℕ → Option ℕ
get_state r = some (locals.now r)

locals-read_at : (is : List ℕ) (r : Local ℕ) → locals.now (locals.read_at is r).1 ≡ locals.now r
unfolding local_resource
locals-read_at is r = refl

-- The write of 7 is in the database, and the write of 8 is not.
abbrev stored : List (Durable.Call ℕ)
stored = Durable.write_call 8 ∷ Durable.commit_call ∷ Durable.write_call 7 ∷ []

performs-Durable_example :
    (res : Persistent (Local ℕ) ℕ) × (Durable.performs locals get_state stored
        (make_persistent none (five (pos 0)))
      ≡ some res)
    × Durable.Durable locals (λ n. n) (locals.saved (five (pos 0))) res
performs-Durable_example =
    performs-Durable locals get_state (λ n. n) (λ r. refl) locals-read_at stored (five (pos 0))
      clean_start
