-- ===== src/Crdt/GCounter/Read.antt =====
-- distsys/resources/gcounter.go: `Read` adds the partial counts, in the order of the iterator and
-- with the wrap-around of `int32`.
use pgo_eval.Base.{◌≡◌, refl, sym, ap, none, some, List, [], ◌∷◌, ◌∙◌, arith, Bool-cases, inl, inr}
use pgo_eval.Base.Int.{ℤ, pos, ◌+ℤ◌}
use pgo_eval.Int32.{wrap, wrap_swap}
use pgo_eval.Hasher.{Hasher}
use pgo_eval.Maps.{MapLib, lookup, Distinct}
use pgo_eval.Maps.Assoc.{remove, lookup-remove, Distinct-remove}
use pgo_eval.Maps.Folds.{lookup_congr}
use pgo_eval.Tla.{TlaValue}
use pgo_eval.Crdt.GCounter.{GCounter, total, read, merge}
use pgo_eval.Crdt.GCounter.Merge.{Same, get-merge, join_comm}

module _ {K : Type 0} ⦃h : Hasher K⦄ where
  -- Removing a key that is not there changes nothing.
  pub remove_absent :
      {V : Type 0} (k : K) (es : List (K × V)) → lookup k es ≡ none → remove es k ≡ es
  unfolding remove
  remove_absent k [] e = refl
  remove_absent k ((i, v) ∷ es) e = ground (arith, remove_absent k es)

module _ {K : Type 0} ⦃h : Hasher K⦄ (lib : MapLib K) where
  open lib use {get, set, entries}

  -- The count of a node may be added first.
  pub total_first :
      (acc : ℤ) (k : K) (v : ℤ) (es : List (K × ℤ))
      → Distinct es
      → lookup k es ≡ some v
      → total lib acc es ≡ total lib (wrap (acc +ℤ v)) (remove es k)
  unfolding total remove
  total_first acc k v [] d e = cc
  total_first acc k v ((i, w) ∷ es) d e = elim (Bool-cases (h.equal k i)) [
    | inl same ↦
        let value : w ≡ v = ground arith in
        let absent = lookup_congr k i es same ∙ d.0 in rw (same, remove_absent k es absent, value)
    | inr other ↦
        let rest : lookup k es ≡ some v = rw other at e in
        rw other (
          total_first (wrap (acc +ℤ w)) k v es d.1 rest
          ∙ ap (λ a. total lib a (remove es k)) (wrap_swap acc w v))
  ]

  -- Maps with the same counts have the same sum.
  pub total_congr :
      (acc : ℤ) (es fs : List (K × ℤ))
      → Distinct es
      → Distinct fs
      → ((j : K) → lookup j es ≡ lookup j fs)
      → total lib acc es ≡ total lib acc fs
  unfolding total
  total_congr acc [] [] d d' same = refl
  total_congr acc [] ((k, v) ∷ fs) d d' same =
      let there : none ≡ some v = rw (h.equal_refl k) at (same k) in cc
  total_congr acc ((k, v) ∷ es) fs d d' same =
      let there : some v ≡ lookup k fs = rw (h.equal_refl k) at (same k) in
      sym (
        total_first acc k v fs d' (sym there)
        ∙ sym (
            total_congr (wrap (acc +ℤ v)) es (remove fs k) d.1 (Distinct-remove fs k d')
              (λ j. rw lookup-remove (ground (arith, same j, lookup_congr j k es, d.0)))))

  -- `Read` depends on the counts alone, not on how the map that holds them is laid out.
  pub read_congr :
      (tla : TlaValue K) (a b : GCounter lib) → Same lib a b → read lib tla a ≡ read lib tla b
  unfolding read
  read_congr tla a b same = ap tla.make_number (
      total_congr (pos 0) (entries a) (entries b) (lib.entries-Distinct a) (lib.entries-Distinct b)
        (λ j. sym (lib.get-entries a j) ∙ same j ∙ lib.get-entries b j))

  -- Two replicas that have merged each other's state read the same number, whatever counts they
  -- had before, however their maps are laid out, and also where the sum overflows.
  pub read-merge_comm :
      (tla : TlaValue K) (a b : GCounter lib)
      → read lib tla (merge lib a b) ≡ read lib tla (merge lib b a)
  read-merge_comm tla a b =
      read_congr tla (merge lib a b) (merge lib b a)
        (λ j. get-merge lib a b j ∙ join_comm (get a j) (get b j) ∙ sym (get-merge lib b a j))
