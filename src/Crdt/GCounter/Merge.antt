-- ===== src/Crdt/GCounter/Merge.antt =====
-- distsys/resources/gcounter.go: `Merge` takes the greater partial count of each node, so that
-- replicas are ordered and merging is their least upper bound.
use mathlib.Core.Quot
use mathlib.Core.Quot.{Quot, Quot-set}
use mathlib.Core.HLevel.{Π_prop, Π_set}
use pgo_eval.Base.{
  ◌≡◌, refl, ap, fun_ext, Option, none, some, ◌∙◌, if◌then◌else◌, arith, Bool-cases, Option-cases,
  inl, inr,
}
use pgo_eval.Base.Int.{ℤ, ltb_ℤ, eq_of_parts}
use pgo_eval.Hasher.{Hasher}
use pgo_eval.Maps.{MapLib}
use pgo_eval.Maps.Folds.{get_congr, Joins, join_option, get-fold_into}
use pgo_eval.Crdt.GCounter.{GCounter, merge_entry, merge}

-- The greater of two counts.
abbrev pub greater : ℤ → ℤ → ℤ
greater a b = if ltb_ℤ a b then b else a

abbrev pub greater_option : Option ℤ → ℤ → Option ℤ
greater_option none b = some b
greater_option (some a) b = some (greater a b)

greater_comm : (a b : ℤ) → greater a b ≡ greater b a
greater_comm a b = ground (arith, eq_of_parts a b)

greater_assoc : (a b c : ℤ) → greater (greater a b) c ≡ greater a (greater b c)
greater_assoc a b c = ground (arith, eq_of_parts a b, eq_of_parts b c, eq_of_parts a c)

abbrev pub join : Option ℤ → Option ℤ → Option ℤ
join a none = a
join none (some b) = some b
join (some a) (some b) = some (greater a b)

pub join_comm : (a b : Option ℤ) → join a b ≡ join b a
join_comm none none = refl
join_comm none (some b) = refl
join_comm (some a) none = refl
join_comm (some a) (some b) = ap some (greater_comm a b)

pub join_assoc : (a b c : Option ℤ) → join (join a b) c ≡ join a (join b c)
join_assoc a b none = refl
join_assoc a none (some c) = refl
join_assoc none (some b) (some c) = refl
join_assoc (some a) (some b) (some c) = ap some (greater_assoc a b c)

pub join_self : (a : Option ℤ) → join a a ≡ a
join_self none = refl
join_self (some a) = ground arith

join-join_option : (a b : Option ℤ) → join_option greater_option a b ≡ join a b
join-join_option a none = refl
join-join_option none (some b) = refl
join-join_option (some a) (some b) = refl

module _ {K : Type 0} ⦃h : Hasher K⦄ (lib : MapLib K) where
  open lib use {get, set}

  merge_entry-Joins : Joins lib (merge_entry lib) greater_option
  unfolding merge_entry
  merge_entry-Joins c id val j = elim (Option-cases (get c id)) [
    | inl e ↦ rw (e, merge_entry) (lib.get-set c id j val)
    | inr (v, e) ↦ elim (Bool-cases (ltb_ℤ v val)) [
      | inl lt ↦ rw (e, merge_entry, lt) (lib.get-set c id j val)
      | inr ge ↦ rw (e, merge_entry, ge) (ground (arith, get_congr lib c j id))
    ]
  ]

  -- A node's count after a merge is the greater of the two counts; a count that is missing on one
  -- side is taken from the other.
  pub get-merge :
      (c other : GCounter lib) (j : K) → get (merge lib c other) j ≡ join (get c j) (get other j)
  unfolding merge
  get-merge c other j =
      get-fold_into lib (merge_entry lib) greater_option merge_entry-Joins (lib.entries other)
        (lib.entries-Distinct other) c j
      ∙ rw (← lib.get-entries other j) (join-join_option (get c j) (get other j))

  -- Two states that no `Get` tells apart.
  abbrev pub Same : GCounter lib → GCounter lib → Type 0
  Same a b = (j : K) → get a j ≡ get b j

  -- The state of a counter, whatever the layout of its map.
  abbrev pub State : Type 0
  State = Quot Same

  merge-Same :
      (a a' b b' : GCounter lib) → Same a a' → Same b b' → Same (merge lib a b) (merge lib a' b')
  merge-Same a a' b b' p q j = rw (get-merge, get-merge, p j, q j)

  pub merge_states : State → State → State
  merge_states =
      Quot.lift (Π_set (λ _. Quot-set))
        (λ a.
          Quot.lift Quot-set (λ b. Quot.mk (merge lib a b))
            (λ b b' q. Quot.sound (merge-Same a a b b' (λ j. refl) q)))
        (λ a a' p.
          fun_ext
            (Quot.ind (λ b. Quot-set _ _) (λ b. Quot.sound (merge-Same a a' b b p (λ j. refl)))))

  -- Merging states, which are counters whatever the layout of their maps, is commutative,
  -- associative and idempotent.
  pub merge_states_semilattice :
      ((a b : State) → merge_states a b ≡ merge_states b a)
      × ((a b c : State) → merge_states (merge_states a b) c ≡ merge_states a (merge_states b c))
      × ((a : State) → merge_states a a ≡ a)
  unfolding merge_states
  merge_states_semilattice = (
    Quot.ind (λ a. Π_prop (λ b. Quot-set _ _))
        (λ a.
          Quot.ind (λ b. Quot-set _ _)
            (λ b. Quot.sound (λ j. rw (get-merge, get-merge) (join_comm (get a j) (get b j))))),
    Quot.ind (λ a. Π_prop (λ b. Π_prop (λ c. Quot-set _ _)))
        (λ a.
          Quot.ind (λ b. Π_prop (λ c. Quot-set _ _))
            (λ b.
              Quot.ind (λ c. Quot-set _ _)
                (λ c. Quot.sound (λ j.
                  rw (get-merge, get-merge, get-merge, get-merge)
                    (join_assoc (get a j) (get b j) (get c j)))))),
    Quot.ind (λ a. Quot-set _ _) (λ a. Quot.sound (λ j. rw get-merge (join_self (get a j)))),
  )
