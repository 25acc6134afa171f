-- ===== src/Trace/VClock/Merge.antt =====
-- distsys/trace/vclock.go: `Merge` takes the greater count of each archetype.
use pgo_eval.Base.{
  ℕ, ◌≡◌, refl, ◌∙◌, Option, none, some, List, [], ◌∷◌, if◌then◌else◌, ltb, arith, ◌>>=◌,
  Bool-cases, inl, inr,
}
use pgo_eval.Base.Int.{ℤ, pos, pos_part}
use pgo_eval.Hasher.{Hasher}
use pgo_eval.Maps.{MapLib, lookup, Distinct}
use pgo_eval.Maps.Folds.{lookup_congr, get_congr}
use pgo_eval.Tla.{TlaValue}
use pgo_eval.Trace.VClock.{or_number_zero, merge_entry, merge_entries, merge_shorter}

abbrev pub larger : ℕ → ℕ → ℕ
larger a b = if ltb a b then b else a

module _ {K : Type 0} ⦃h : Hasher K⦄ (lib : MapLib K) (tla : TlaValue K) where
  open lib use {Map, empty, get, set, len, entries}

  -- A value that counts: a number that is not negative.
  abbrev pub IsCount : K → Type 0
  IsCount v = (n : ℕ) × (tla.as_number v ≡ some (pos n))

  abbrev pub Counts : Map K → Type 0
  Counts m = (k v : K) → get m k ≡ some v → IsCount v

  abbrev pub number_or_zero : Option ℤ → ℕ
  number_or_zero none = 0
  number_or_zero (some n) = pos_part n

  abbrev pub count_of : Option K → ℕ
  count_of none = 0
  count_of (some v) = number_or_zero (tla.as_number v)

  pub as_number-count :
      (o : Option K)
      → ((v : K) → o ≡ some v → IsCount v)
      → tla.as_number (or_number_zero lib tla o) ≡ some (pos (count_of o))
  unfolding or_number_zero
  as_number-count none all = tla.as_number-make_number (pos 0)
  as_number-count (some v) all = let (n, e) = all v refl in rw e

  pub empty-Counts : Counts empty
  empty-Counts k v e =
      let gone : none ≡ some v = rw lib.get-empty at e in let no : ⊥ = cc in absurd no

  pub set-Counts : (m : Map K) (k v : K) → IsCount v → Counts m → Counts (set m k v)
  set-Counts m k v c all j w e = elim (Bool-cases (h.equal j k)) [
    | inl same ↦
        let here : some v ≡ some w = rw (lib.get-set m k j v, same) at e in
        let (n, en) = c in (n, cc)
    | inr other ↦
        let there : get m j ≡ some w = rw (lib.get-set m k j v, other) at e in all j w there
  ]

  -- What one round does to the counts.
  record Round (acc : Map K) (k v : K) (acc' : Map K) : Type 0 where
    counts : Counts acc'
    raised :
        (j : K)
        → count_of (get acc' j) ≡ (
            if h.equal j k
            then larger (count_of (get acc j)) (count_of (some v))
            else count_of (get acc j))

  merge_entry-Round :
      (acc : Map K) (k v : K)
      → Counts acc
      → IsCount v
      → (acc' : Map K) × (merge_entry lib tla acc k v ≡ some acc') × Round acc k v acc'
  unfolding merge_entry
  merge_entry-Round acc k v all (n, e) =
      let old = as_number-count (get acc k) (all k) in
      elim (Bool-cases (ltb (count_of (get acc k)) n)) [
        | inl less ↦ (
          set acc k v,
          rw (e, ◌>>=◌, old) (ground arith),
          record {
            counts = set-Counts acc k v (n, e) all;
            raised = λ j. elim (Bool-cases (h.equal j k)) [
              | inl same ↦ rw (lib.get-set acc k j v, same, e, get_congr lib acc j k same, less)
              | inr other ↦ rw (lib.get-set acc k j v, other)
            ];
          },
        )
        | inr enough ↦ (
          acc,
          rw (e, ◌>>=◌, old) (ground arith),
          record {
            counts = all;
            raised = λ j. elim (Bool-cases (h.equal j k)) [
              | inl same ↦ rw (same, e, get_congr lib acc j k same, enough)
              | inr other ↦ rw other
            ];
          },
        )
      ]

  -- The entries of an iterator that are counts.
  abbrev AllCounts : List (K × K) → Type 0
  AllCounts [] = Unit {0}
  AllCounts ((k, v) ∷ es) = IsCount v × AllCounts es

  lookup-AllCounts :
      (es : List (K × K))
      → Distinct es
      → ((k v : K) → lookup k es ≡ some v → IsCount v)
      → AllCounts es
  lookup-AllCounts [] d all = tt
  lookup-AllCounts ((k, v) ∷ es) d all = (
    all k v (rw (h.equal_refl k)),
    lookup-AllCounts es d.1 (λ j w e. elim (Bool-cases (h.equal j k)) [
      | inl same ↦
          let gone : none ≡ some w = rw (lookup_congr j k es same, d.0) at e in
          let no : ⊥ = cc in absurd no
      | inr other ↦ all j w (rw other e)
    ]),
  )

  entries-AllCounts : (m : Map K) → Counts m → AllCounts (entries m)
  entries-AllCounts m all =
      lookup-AllCounts (entries m) (lib.entries-Distinct m)
        (λ k v e. all k v (lib.get-entries m k ∙ e))

  -- The clock that a merge returns.
  pub record Merged (a b c : Map K) : Type 0 where
    pub counts : Counts c
    pub greatest : (j : K) → count_of (get c j) ≡ larger (count_of (get a j)) (count_of (get b j))

  merge_entries-counts :
      (acc : Map K) (es : List (K × K))
      → Counts acc
      → Distinct es
      → AllCounts es
      → (acc' : Map K) × (merge_entries lib tla acc es ≡ some acc')
        × Counts acc'
        × ((j : K) → count_of (get acc' j) ≡ larger (count_of (get acc j)) (count_of (lookup j es)))
  unfolding merge_entries
  merge_entries-counts acc [] all d cs = (acc, refl, all, λ j. ground arith)
  merge_entries-counts acc ((k, v) ∷ es) all d cs =
      let (acc1, run1, round) = merge_entry-Round acc k v all cs.0 in
      let (acc2, run2, counts, raised) = merge_entries-counts acc1 es round.counts d.1 cs.1 in
      (
        acc2,
        rw (run1, ◌>>=◌) run2,
        counts,
        λ j. elim (Bool-cases (h.equal j k)) [
          | inl same ↦
              rw (raised j, round.raised j, same, lookup_congr j k es same, d.0) (ground arith)
          | inr other ↦ rw (raised j, round.raised j, other)
        ],
      )

  pub merge_shorter-Merged :
      (a b : Map K)
      → Counts a
      → Counts b
      → (c : Map K) × (merge_shorter lib tla a b ≡ some c) × Merged a b c
  unfolding merge_shorter
  merge_shorter-Merged a b ca cb = elim (Bool-cases (ltb (len a) (len b))) [
    | inl less ↦
        let (c, run, counts, raised) =
          merge_entries-counts b (entries a) cb (lib.entries-Distinct a) (entries-AllCounts a ca) in
        (
          c,
          rw less run,
          record {
            counts = counts;
            greatest = λ j. raised j ∙ rw (← lib.get-entries a j) (ground arith);
          },
        )
    | inr enough ↦
        let (c, run, counts, raised) =
          merge_entries-counts a (entries b) ca (lib.entries-Distinct b) (entries-AllCounts b cb) in
        (
          c,
          rw enough run,
          record { counts = counts; greatest = λ j. raised j ∙ rw (← lib.get-entries b j) },
        )
  ]
