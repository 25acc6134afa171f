-- ===== src/Crdt/VClock.antt =====
-- distsys/resources/aworset.go: the vector clock of a set element, which is a `GCounter`.
pub mod Order
use pgo_eval.Base.{Bool, true, Option, none, some, List, [], ◌∷◌, if◌then◌else◌, ◌>>=◌}
use pgo_eval.Base.Int.{ℤ, pos, ltb_ℤ}
use pgo_eval.Hasher.{Hasher}
use pgo_eval.Maps.{MapLib}
use pgo_eval.Tla.{TlaValue}
use pgo_eval.Crdt.GCounter
use pgo_eval.Crdt.GCounter.{GCounter, or_zero}

-- `LT`, `EQ`, `GT` and `CC`.
pub data Compared : Type 0 where
  less equal greater concurrent : Compared

-- One round of the loop that compares the counts, with its result so far.
unfoldable pub compare_counts : Compared → ℤ → ℤ → Compared
compare_counts equal v1 v2 = if ltb_ℤ v2 v1 then greater else if ltb_ℤ v1 v2 then less else equal
compare_counts less v1 v2 = if ltb_ℤ v2 v1 then concurrent else less
compare_counts greater v1 v2 = if ltb_ℤ v1 v2 then concurrent else greater
compare_counts concurrent v1 v2 = concurrent

module _ {K : Type 0} ⦃h : Hasher K⦄ (lib : MapLib K) (tla : TlaValue K) where
  open lib use {Map, empty, get, set, entries}

  unfoldable pub make_vclock : GCounter lib
  make_vclock = GCounter.init lib

  unfoldable pub inc : K → GCounter lib → Option (GCounter lib)
  inc id vc = GCounter.write lib tla id (tla.make_number (pos 1)) vc

  unfoldable pub merge : GCounter lib → GCounter lib → GCounter lib
  merge vc other = GCounter.merge lib vc other

  unfoldable pub get_or_default : GCounter lib → K → ℤ
  get_or_default vc id = or_zero (get vc id)

  -- The loop over both iterators. One that is done yields the zero `Value`.
  unfoldable pub collect_keys : Map Bool → List (K × ℤ) → List (K × ℤ) → Map Bool
  collect_keys keys [] [] = keys
  collect_keys keys ((k1, _) ∷ es) [] =
      collect_keys (set (set keys k1 true) tla.default_value true) es []
  collect_keys keys [] ((k2, _) ∷ fs) =
      collect_keys (set (set keys tla.default_value true) k2 true) [] fs
  collect_keys keys ((k1, _) ∷ es) ((k2, _) ∷ fs) =
      collect_keys (set (set keys k1 true) k2 true) es fs

  -- The loop over the collected keys.
  unfoldable pub compare_keys : GCounter lib → GCounter lib → Compared → List (K × Bool) → Compared
  compare_keys vc other res [] = res
  compare_keys vc other res ((k, _) ∷ ks) =
      compare_keys vc other (compare_counts res (get_or_default vc k) (get_or_default other k)) ks

  unfoldable pub compare : GCounter lib → GCounter lib → Compared
  compare vc other =
      compare_keys vc other equal (entries (collect_keys empty (entries vc) (entries other)))
