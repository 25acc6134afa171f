-- ===== src/Crdt/GCounter.antt =====
-- distsys/resources/gcounter.go: a grow-only counter with one partial count for each node. It is
-- also the vector clock of distsys/resources/aworset.go.
pub mod Merge
pub mod Read
pub mod Write
use pgo_eval.Base.{◌≡◌, Bool, Option, none, some, List, [], ◌∷◌, if◌then◌else◌, ◌>>=◌}
use pgo_eval.Base.Int.{ℤ, pos, ◌+ℤ◌, ltb_ℤ}
use pgo_eval.Int32.{wrap}
use pgo_eval.Hasher.{Hasher}
use pgo_eval.Maps.{MapLib}
use pgo_eval.Maps.Folds.{fold_into}
use pgo_eval.Tla.{TlaValue}

abbrev pub or_zero : Option ℤ → ℤ
or_zero none = pos 0
or_zero (some v) = v

module _ {K : Type 0} ⦃h : Hasher K⦄ (lib : MapLib K) where
  open lib use {Map, empty, get, set, entries}

  abbrev pub GCounter : Type 0
  GCounter = Map ℤ

  unfoldable pub init : GCounter
  init = empty

  -- The loop of `Read`.
  unfoldable pub total : ℤ → List (K × ℤ) → ℤ
  total value [] = value
  total value ((_, v) ∷ es) = total (wrap (value +ℤ v)) es

  unfoldable pub read : TlaValue K → GCounter → K
  read tla c = tla.make_number (total (pos 0) (entries c))

  unfoldable pub write : TlaValue K → K → K → GCounter → Option GCounter
  write tla id value c = do
    let old_value = or_zero (get c id)
    n ← tla.as_number value
    some (set c id (wrap (old_value +ℤ n)))

  -- One round of the loop of `Merge`.
  unfoldable pub merge_entry : GCounter → K → ℤ → GCounter
  merge_entry c id val = elim (get c id) [
    | none ↦ set c id val
    | some v ↦ if ltb_ℤ v val then set c id val else c
  ]

  unfoldable pub merge : GCounter → GCounter → GCounter
  merge c other = fold_into lib merge_entry c (entries other)
