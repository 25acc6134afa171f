-- ===== src/Trace/VClock.antt =====
-- distsys/trace/vclock.go: the vector clock of a trace. The zero `VClock` has a nil map, which is
-- none here. The counts are TLA+ numbers, that is, `int32`; `none` as a result is a panic, where a
-- count is not a number.
pub mod Merge
pub mod Counted
use pgo_eval.Base.{
  String, Bool, true, false, Option, none, some, List, [], ◌∷◌, if◌then◌else◌, ltb, ◌>>=◌,
}
use pgo_eval.Base.Int.{ℤ, pos, ◌+ℤ◌, ltb_ℤ}
use pgo_eval.Int32.{wrap}
use pgo_eval.Hasher.{Hasher}
use pgo_eval.Maps.{MapLib}
use pgo_eval.Tla.{TlaValue}

module _ {K : Type 0} ⦃h : Hasher K⦄ (lib : MapLib K) (tla : TlaValue K) where
  open lib use {Map, empty, get, set, len, entries}

  abbrev pub VClock : Type 0
  VClock = Option (Map K)

  unfoldable pub ensure_map : VClock → Map K
  ensure_map none = empty
  ensure_map (some map) = map

  -- The key of an archetype's instance.
  unfoldable pub key_tuple : String → K → K
  key_tuple archetype_name self = tla.make_tuple (tla.make_string archetype_name ∷ self ∷ [])

  -- A count, or the number zero where there is none.
  unfoldable pub or_number_zero : Option K → K
  or_number_zero none = tla.make_number (pos 0)
  or_number_zero (some idx_val) = idx_val

  unfoldable pub inc : String → K → VClock → Option VClock
  inc archetype_name self clock = do
    let map = ensure_map clock
    let key = key_tuple archetype_name self
    idx ← tla.as_number (or_number_zero (get map key))
    some (some (set map key (tla.make_number (wrap (idx +ℤ pos 1)))))

  -- One round of the loop of `Merge`.
  unfoldable pub merge_entry : Map K → K → K → Option (Map K)
  merge_entry acc key_val idx1_val = do
    idx1 ← tla.as_number idx1_val
    idx2 ← tla.as_number (or_number_zero (get acc key_val))
    some (if ltb_ℤ idx2 idx1 then set acc key_val idx1_val else acc)

  unfoldable pub merge_entries : Map K → List (K × K) → Option (Map K)
  merge_entries acc [] = some acc
  merge_entries acc ((key_val, idx1_val) ∷ es) = do
    acc' ← merge_entry acc key_val idx1_val
    merge_entries acc' es

  -- The iteration is over the clock with fewer entries.
  unfoldable pub merge_shorter : Map K → Map K → Option (Map K)
  merge_shorter self other =
      if ltb (len self) (len other)
      then merge_entries other (entries self)
      else merge_entries self (entries other)

  unfoldable pub merge : VClock → VClock → Option VClock
  merge none other = some other
  merge (some self) none = some (some self)
  merge (some self) (some other) = do map ← merge_shorter self other; some (some map)

  unfoldable pub get_count : String → K → VClock → Option ℤ
  get_count archetype_id self none = some (pos 0)
  get_count archetype_id self (some map) = elim (get map (key_tuple archetype_id self)) [
    | none ↦ some (pos 0)
    | some idx_val ↦ tla.as_number idx_val
  ]
