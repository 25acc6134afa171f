-- ===== src/Crdt/Lww/Merge.antt =====
-- distsys/resources/lww.go: what `Merge` does to additions and to removals.
use pgo_eval.Base.{
  ℕ, ◌<◌, ◌≡◌, refl, ap, true, false, Option, none, some, List, [], ◌∷◌, ◌∙◌, if◌then◌else◌, arith,
  Bool-cases, Option-cases, inl, inr, ltb,
}
use pgo_eval.Hasher.{Hasher}
use pgo_eval.Maps.{MapLib}
use pgo_eval.Maps.Folds.{fold_into, get_congr, Joins, join_option, get-fold_into}
use pgo_eval.Crdt.Lww.{LwwSet, is_in, merge_add, merge_rem, merge}

-- The later of two time stamps, if any.
abbrev pub later : Option ℕ → ℕ → Option ℕ
later none b = some b
later (some a) b = some (if ltb a b then b else a)

module _ {K : Type 0} ⦃h : Hasher K⦄ (lib : MapLib K) where
  open lib use {get, set, entries, Map}

  merge_add-Joins : Joins lib (merge_add lib) later
  unfolding merge_add
  merge_add-Joins adds id stamp j = elim (Option-cases (get adds id)) [
    | inl e ↦ rw (e, merge_add) (lib.get-set adds id j stamp)
    | inr (v, e) ↦ elim (Bool-cases (ltb v stamp)) [
      | inl lt ↦ rw (e, merge_add, lt) (lib.get-set adds id j stamp)
      | inr ge ↦ rw (e, merge_add, ge) (ground (arith, get_congr lib adds j id))
    ]
  ]

  merge_rem_kept : (rems : Map ℕ) (es : List (K × ℕ)) → fold_into lib (merge_rem lib) rems es ≡ rems
  unfolding fold_into merge_rem
  merge_rem_kept rems [] = refl
  merge_rem_kept rems ((id, stamp) ∷ es) = merge_rem_kept rems es

  -- After a merge each element has the later of its two addition times, and the removal time that
  -- it had before: the removals of the other replica are not taken over.
  pub merge_stamps :
      (s other : LwwSet lib) (j : K)
      → (get (merge lib s other).add_set j
          ≡ join_option later (get s.add_set j) (get other.add_set j))
        × (get (merge lib s other).rem_set j ≡ get s.rem_set j)
  unfolding merge
  merge_stamps s other j = (
    get-fold_into lib (merge_add lib) later merge_add-Joins (entries other.add_set)
          (lib.entries-Distinct other.add_set) s.add_set j
        ∙ rw (← lib.get-entries other.add_set j),
    ap (λ m. get m j) (merge_rem_kept s.rem_set (entries other.rem_set)),
  )

  -- If one replica added an element and never removed it, and the other never added it and removed
  -- it later, then the two disagree after each has merged the other's state: the element is in the
  -- first replica's set and not in the second's. A further merge of the second's state leaves it in
  -- the first's set.
  pub removal_lost :
      (s other : LwwSet lib) (j : K) {added removed : ℕ}
      → get s.add_set j ≡ some added
      → get s.rem_set j ≡ none
      → get other.add_set j ≡ none
      → get other.rem_set j ≡ some removed
      → added < removed
      → (is_in lib (merge lib s other) j ≡ true)
        × (is_in lib (merge lib other s) j ≡ false)
        × (is_in lib (merge lib (merge lib s other) (merge lib other s)) j ≡ true)
  unfolding is_in
  removal_lost s other j {added} {removed} a r a' r' lt =
      let here = merge_stamps s other j in
      let there = merge_stamps other s j in
      let again = merge_stamps (merge lib s other) (merge lib other s) j in
      (ground (arith, here), ground (arith, there), ground (arith, here, again))
