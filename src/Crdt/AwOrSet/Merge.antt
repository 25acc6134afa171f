-- ===== src/Crdt/AwOrSet/Merge.antt =====
-- distsys/resources/aworset.go: what `Merge` leaves at each element.
use pgo_eval.Base.{◌≡◌, ◌⊎◌, refl, ap, Option, none, some, ◌∙◌, Bool-cases, Option-cases, inl, inr}
use pgo_eval.Hasher.{Hasher}
use pgo_eval.Maps.{MapLib}
use pgo_eval.Maps.Folds.{get_congr, Joins, join_option, pick, get-fold_into, get-fold_keep}
use pgo_eval.Tla.{TlaValue}
use pgo_eval.Crdt.GCounter.{GCounter}
use pgo_eval.Crdt.VClock
use pgo_eval.Crdt.AwOrSet.{
  AwOrSet, not_less, stays_added, stays_removed, merge_key, merge_keys, keep_added, keep_removed,
  merge,
}

module _ {K : Type 0} ⦃h : Hasher K⦄ (lib : MapLib K) (tla : TlaValue K) where
  open lib use {Map, get, set, entries, empty}

  -- The clocks of one element on both sides, merged.
  abbrev pub join_clocks : Option (GCounter lib) → GCounter lib → Option (GCounter lib)
  join_clocks none b = some b
  join_clocks (some a) b = some (VClock.merge lib tla a b)

  merge_key-Joins : Joins lib (merge_key lib tla) join_clocks
  unfolding merge_key
  merge_key-Joins acc elem vc j = elim (Option-cases (get acc elem)) [
    | inl e ↦ rw (e, merge_key) (lib.get-set acc elem j vc)
    | inr (v, e) ↦ rw (e, merge_key) (lib.get-set acc elem j (VClock.merge lib tla v vc))
  ]

  pub get-merge_keys :
      (a b : Map (GCounter lib)) (j : K)
      → get (merge_keys lib tla a b) j ≡ join_option join_clocks (get a j) (get b j)
  unfolding merge_keys
  get-merge_keys a b j =
      get-fold_into lib (merge_key lib tla) join_clocks merge_key-Joins (entries b)
        (lib.entries-Distinct b) a j
      ∙ rw (← lib.get-entries b j)

  -- After a merge, the clocks of an element on both sides are merged, and the element is in the add
  -- map or in the remove map by the test on the merged clocks.
  pub merge_maps :
      (s other : AwOrSet lib tla) (j : K)
      → (let added = join_option join_clocks (get s.add_map j) (get other.add_map j) in
          let removed = join_option join_clocks (get s.rem_map j) (get other.rem_map j) in
          (get (merge lib tla s other).add_map j ≡ pick (stays_added lib tla removed) added none)
          × (get (merge lib tla s other).rem_map j
              ≡ pick (stays_removed lib tla added) removed none))
  unfolding merge keep_added keep_removed
  merge_maps s other j =
      let add_k = merge_keys lib tla s.add_map other.add_map in
      let rem_k = merge_keys lib tla s.rem_map other.rem_map in
      (
        get-fold_keep lib (λ k vc. stays_added lib tla (get rem_k k) vc) (keep_added lib tla rem_k)
              (λ i k v e. ap (λ o. stays_added lib tla o v) (get_congr lib rem_k i k e))
              (λ m k v. refl) (entries add_k) (lib.entries-Distinct add_k) empty j
            ∙ rw (← lib.get-entries add_k j, lib.get-empty, get-merge_keys, get-merge_keys) refl,
        get-fold_keep lib (λ k vc. stays_removed lib tla (get add_k k) vc)
              (keep_removed lib tla add_k)
              (λ i k v e. ap (λ o. stays_removed lib tla o v) (get_congr lib add_k i k e))
              (λ m k v. refl) (entries rem_k) (lib.entries-Distinct rem_k) empty j
            ∙ rw (← lib.get-entries rem_k j, lib.get-empty, get-merge_keys, get-merge_keys) refl,
      )

  apart :
      (added removed : Option (GCounter lib)) {a r : Option (GCounter lib)}
      → a ≡ pick (stays_added lib tla removed) added none
      → r ≡ pick (stays_removed lib tla added) removed none
      → (a ≡ none) ⊎ (r ≡ none)
  unfolding stays_added stays_removed
  apart none removed p q = inl p
  apart (some a) none p q = inr q
  apart (some a) (some r) p q = elim (Bool-cases (not_less (VClock.compare lib tla a r))) [
    | inl stays ↦ inr (q ∙ rw stays)
    | inr goes ↦ inl (p ∙ rw goes)
  ]

  -- No element is in both maps.
  abbrev pub Exclusive : AwOrSet lib tla → Type 0
  Exclusive s = (j : K) → (get s.add_map j ≡ none) ⊎ (get s.rem_map j ≡ none)

  -- Whatever the two states are, no element is in both maps after a merge.
  pub merge-Exclusive : (s other : AwOrSet lib tla) → Exclusive (merge lib tla s other)
  merge-Exclusive s other j =
      let (added, removed) = merge_maps s other j in
      apart (join_option join_clocks (get s.add_map j) (get other.add_map j))
        (join_option join_clocks (get s.rem_map j) (get other.rem_map j)) added removed
