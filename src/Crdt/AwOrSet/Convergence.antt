-- ===== src/Crdt/AwOrSet/Convergence.antt =====
-- distsys/resources/aworset.go: replicas that merge each other agree, and additions win.
use pgo_eval.Base.{◌≡◌, refl, sym, ap, Bool, true, false, Option, none, some, ◌∙◌, if◌then◌else◌}
use pgo_eval.Hasher.{Hasher}
use pgo_eval.Maps.{MapLib}
use pgo_eval.Maps.Folds.{join_option, pick}
use pgo_eval.Tla.{TlaValue}
use pgo_eval.Crdt.GCounter.{GCounter}
use pgo_eval.Crdt.GCounter.Merge.{Same, get-merge, join_comm}
use pgo_eval.Crdt.VClock
use pgo_eval.Crdt.VClock.{Compared, concurrent}
use pgo_eval.Crdt.VClock.Order.Unique.{compare_congr}
use pgo_eval.Crdt.AwOrSet.{AwOrSet, not_less, stays_added, merge}
use pgo_eval.Crdt.AwOrSet.Merge.{join_clocks, merge_maps}
use pgo_eval.Crdt.AwOrSet.Local.{present}

module _ {K : Type 0} ⦃h : Hasher K⦄ (lib : MapLib K) (tla : TlaValue K) where
  open lib use {get}

  -- The same clock, or none on either side.
  abbrev SameClock : Option (GCounter lib) → Option (GCounter lib) → Type 0
  SameClock none none = Unit {0}
  SameClock none (some _) = ⊥
  SameClock (some _) none = ⊥
  SameClock (some a) (some b) = Same lib a b

  join_clocks_comm :
      (a b : Option (GCounter lib))
      → SameClock (join_option (join_clocks lib tla) a b) (join_option (join_clocks lib tla) b a)
  unfolding VClock.merge
  join_clocks_comm none none = tt
  join_clocks_comm none (some b) = λ j. refl
  join_clocks_comm (some a) none = λ j. refl
  join_clocks_comm (some a) (some b) =
      λ j. get-merge lib a b j ∙ join_comm (get a j) (get b j) ∙ sym (get-merge lib b a j)

  pick_congr :
      (a a' r r' : Option (GCounter lib))
      → SameClock a a'
      → SameClock r r'
      → present (pick (stays_added lib tla r) a none)
        ≡ present (pick (stays_added lib tla r') a' none)
  unfolding stays_added
  pick_congr none none r r' p q = refl
  pick_congr none (some a') r r' p q = absurd p
  pick_congr (some a) none r r' p q = absurd p
  pick_congr (some a) (some a') none none p q = refl
  pick_congr (some a) (some a') none (some r') p q = absurd q
  pick_congr (some a) (some a') (some r) none p q = absurd q
  pick_congr (some a) (some a') (some r) (some r') p q =
      rw (compare_congr lib tla a a' r r' p q)
        (present_if (not_less (VClock.compare lib tla a' r')))
    where
      present_if :
          (t : Bool) → present (if t then some a else none) ≡ present (if t then some a' else none)
      present_if true = refl
      present_if false = refl

  -- After two replicas have merged each other's state, the same elements are in both sets.
  pub merge_membership_comm :
      (s other : AwOrSet lib tla) (j : K)
      → present (get (merge lib tla s other).add_map j)
        ≡ present (get (merge lib tla other s).add_map j)
  merge_membership_comm s other j =
      let here = (merge_maps lib tla s other j).0 in
      let there = (merge_maps lib tla other s j).0 in
      ap present here
      ∙ pick_congr _ _ _ _ (join_clocks_comm (get s.add_map j) (get other.add_map j))
          (join_clocks_comm (get s.rem_map j) (get other.rem_map j))
      ∙ sym (ap present there)

  -- If one replica has an element added under the clock `a` and not removed, and the other has it
  -- removed under the clock `r` and not added, then after a merge the element is in the add map
  -- exactly if `compare` does not find `a` less than `r`.
  pub addition_wins :
      (s other : AwOrSet lib tla) (j : K) {a r : GCounter lib}
      → get s.add_map j ≡ some a
      → get s.rem_map j ≡ none
      → get other.add_map j ≡ none
      → get other.rem_map j ≡ some r
      → present (get (merge lib tla s other).add_map j) ≡ not_less (VClock.compare lib tla a r)
  unfolding stays_added
  addition_wins s other j {a} {r} p q p' q' =
      let there = (merge_maps lib tla s other j).0 in
      ap present (rw (p, q, p', q') at there) ∙ present_test (not_less (VClock.compare lib tla a r))
    where
      present_test : (t : Bool) → present (if t then some a else none) ≡ t
      present_test true = refl
      present_test false = refl
