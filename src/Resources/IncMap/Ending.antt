-- ===== src/Resources/IncMap/Ending.antt =====
-- distsys/resources/incmap.go and hashmap.go: `PreCommit`, `Commit` and `Abort` of a map of resources.
use pgo_eval.Base.{
  ℕ, ◌≡◌, refl, sym, ◌∙◌, Bool, true, some, ◌>>=◌, Bool-cases, Option-cases, inl, inr,
}
use pgo_eval.Hasher.{Hasher}
use pgo_eval.HashMap as Hash
use pgo_eval.HashMap.{HashMap}
use pgo_eval.Context.Sections.Contract.{Resource}
use pgo_eval.Resources.IncMap.{IncMap, each_dirty, pre_commit, commit, abort}
use pgo_eval.Resources.IncMap.Loops.{holds, Ended, each_dirty-Ended, pre_commit_dirty-states}
use pgo_eval.Resources.IncMap.Consistent.{
  element, element-some, element-none, Consistent, all_there, outside, ended-Consistent,
}

module _ {K V R S : Type 0} ⦃h : Hasher K⦄ (ops : Resource V R S) (fill : K → R) where
  -- The state after a loop that left `heap`.
  abbrev cleared : IncMap K R → (ℕ → R) → IncMap K R
  cleared res heap = record res { dirty_elems = Hash.clear res.dirty_elems; heap = heap }

  -- The elements of the two states, through the saved and the current state.
  pub record Kept (res res' : IncMap K R) : Type 0 where
    pub saved : (k : K) → element ops fill ops.saved res' k ≡ element ops fill ops.saved res k
    pub now : (k : K) → element ops fill ops.now res' k ≡ element ops fill ops.now res k

  pub record Settled (to : R → S) (res res' : IncMap K R) : Type 0 where
    pub saved : (k : K) → element ops fill ops.saved res' k ≡ element ops fill to res k
    pub now : (k : K) → element ops fill ops.now res' k ≡ element ops fill to res k

  module _ (fill-clean : (k : K) → ops.saved (fill k) ≡ ops.now (fill k))
      (fill_congr : (j k : K) → h.equal j k ≡ true → fill j ≡ fill k) where
    -- A loop that sets a state `g` to the state `to` settles the elements that it did not visit too,
    -- since the two states of these are the same.
    settle :
        (f : R → R) (g to : R → S)
        → ((r : R) → g (f r) ≡ to r)
        → ((r : R) → to (f r) ≡ to r)
        → ((r : R) → ops.saved r ≡ ops.now r → g r ≡ to r)
        → (res : IncMap K R) (heap : ℕ → R) → Consistent ops fill res
        → Ended f res.dirty_elems res.dirty_elems.keys res.heap heap
        → (k : K) → element ops fill g (cleared res heap) k ≡ element ops fill to res k
    settle f g to p q agree res heap c ended k = elim (Option-cases (Hash.get k res.realized_map)) [
      | inl free ↦
          element-none ops fill g (cleared res heap) k free
          ∙ agree (fill k) (fill-clean k)
          ∙ sym (element-none ops fill to res k free)
      | inr (a, at) ↦
          element-some ops fill g (cleared res heap) k a at
          ∙ ended.states g to p q a
          ∙ elim (Bool-cases (holds res.dirty_elems res.dirty_elems.keys a)) [
            | inl e ↦ rw e refl
            | inr e ↦ rw e (agree (res.heap a) (outside ops fill res k a c at e))
          ]
          ∙ sym (element-some ops fill to res k a at)
    ]

    finished :
        (f : R → R) (to : R → S)
        → ((r : R) → ops.saved (f r) ≡ to r)
        → ((r : R) → ops.now (f r) ≡ to r)
        → ((r : R) → to (f r) ≡ to r)
        → ((r : R) → ops.saved r ≡ ops.now r → (ops.saved r ≡ to r) × (ops.now r ≡ to r))
        → (res : IncMap K R) → Consistent ops fill res
        → (heap : ℕ → R) × (each_dirty f res.dirty_elems.keys res.dirty_elems res.heap ≡ some heap)
          × Settled to res (cleared res heap)
          × Consistent ops fill (cleared res heap)
    finished f to p q o agree res c =
        let ks = res.dirty_elems.keys in
        let (heap, run, ended) =
          each_dirty-Ended f res.dirty_elems ks res.heap (all_there ops fill res c) in
        (
          heap,
          run,
          record {
            saved = settle f ops.saved to p o (λ r e. (agree r e).0) res heap c ended;
            now = settle f ops.now to q o (λ r e. (agree r e).1) res heap c ended;
          },
          ended-Consistent ops fill res heap c
              (λ b e.
                ended.states ops.saved to p o b
                ∙ rw e (sym (ended.states ops.now to q o b ∙ rw e refl)))
              (λ b e. (
                ended.states ops.saved to p o b ∙ rw e refl,
                ended.states ops.now to q o b ∙ rw e refl,
              )),
        )

    pub commit-Settled :
        (res : IncMap K R)
        → Consistent ops fill res
        → (res' : IncMap K R) × (commit ops res ≡ some res')
          × Settled ops.now res res'
          × Consistent ops fill res'
    unfolding commit
    commit-Settled res c =
        let (heap, run, settled, c') =
          finished ops.commit ops.now ops.saved-commit ops.now-commit ops.now-commit
            (λ r e. (e, refl)) res c in
        (cleared res heap, rw (run, ◌>>=◌) refl, settled, c')

    pub abort-Settled :
        (res : IncMap K R)
        → Consistent ops fill res
        → (res' : IncMap K R) × (abort ops res ≡ some res')
          × Settled ops.saved res res'
          × Consistent ops fill res'
    unfolding abort
    abort-Settled res c =
        let (heap, run, settled, c') =
          finished ops.abort ops.saved ops.saved-abort ops.now-abort ops.saved-abort
            (λ r e. (refl, sym e)) res c in
        (cleared res heap, rw (run, ◌>>=◌) refl, settled, c')

    -- The elements of a state whose heap alone differs.
    heap_element :
        (g : R → S) (res : IncMap K R) (heap : ℕ → R)
        → ((b : ℕ) → g (heap b) ≡ g (res.heap b))
        → (k : K) → element ops fill g (record res { heap = heap }) k ≡ element ops fill g res k
    heap_element g res heap same k = elim (Option-cases (Hash.get k res.realized_map)) [
      | inl free ↦
          element-none ops fill g (record res { heap = heap }) k free
          ∙ sym (element-none ops fill g res k free)
      | inr (a, at) ↦
          element-some ops fill g (record res { heap = heap }) k a at
          ∙ same a
          ∙ sym (element-some ops fill g res k a at)
    ]

    pub pre_commit-Kept :
        (res : IncMap K R)
        → Consistent ops fill res
        → (ok : Bool) × (res' : IncMap K R) × (pre_commit ops res ≡ some (ok, res'))
          × Kept res res'
          × Consistent ops fill res'
    unfolding pre_commit
    pre_commit-Kept res c =
        let (ok, heap, run, saved, now) =
          pre_commit_dirty-states ops res.dirty_elems res.dirty_elems.keys res.heap
            (all_there ops fill res c) in
        (
          ok,
          record res { heap = heap },
          rw (run, ◌>>=◌) refl,
          record {
            saved = heap_element ops.saved res heap saved;
            now = heap_element ops.now res heap now;
          },
          record {
            below = c.below;
            apart = c.apart;
            realized = c.realized;
            clean = λ k a at absent. saved a ∙ c.clean k a at absent ∙ sym (now a);
            keys = c.keys;
          },
        )
