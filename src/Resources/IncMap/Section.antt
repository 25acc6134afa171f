-- ===== src/Resources/IncMap/Section.antt =====
-- distsys/resources/incmap.go and hashmap.go: what a map of resources promises to `Run`: each
-- element keeps the contract of `ArchetypeResource`, whether it was used in the section or not.
use pgo_eval.Base.{
  ℕ, ◌≡◌, refl, sym, ◌∙◌, Bool, true, Option, none, some, Option-cases, inl, inr, List, [], ◌∷◌,
  ◌>>=◌,
}
use pgo_eval.Hasher.{Hasher}
use pgo_eval.HashMap as Hash
use pgo_eval.HashMap.Lookup.{get-new}
use pgo_eval.HashMap.Keys.{new-KeysMatch}
use pgo_eval.Context.Sections.Contract.{Resource}
use pgo_eval.Resources.IncMap.{
  IncMap, new_inc_map, index, index_existing, pre_commit, commit, abort, read_at, write_at,
}
use pgo_eval.Resources.IncMap.Consistent.{element, Consistent}
use pgo_eval.Resources.IncMap.Ending.{Kept, Settled, commit-Settled, abort-Settled, pre_commit-Kept}
use pgo_eval.Resources.IncMap.Used.{Used, read_at-Used, write_at-Used}

-- The calls of a map, the latest first.
pub data Call (K V : Type 0) : Type 0 where
  read_call : K → List V → Call K V
  write_call : K → List V → V → Call K V
  pre_commit_call commit_call abort_call : Call K V

module _ {K V R S : Type 0} ⦃h : Hasher K⦄ (ops : Resource V R S) (fill : K → R) where
  pub perform : Call K V → IncMap K R → Option (IncMap K R)
  perform (read_call k is) res = some (read_at ops fill k is res).1
  perform (write_call k is v) res = some (write_at ops fill k is v res).1
  perform pre_commit_call res = pre_commit ops res >>= λ p. some p.1
  perform commit_call res = commit ops res
  perform abort_call res = abort ops res

  pub performs : List (Call K V) → IncMap K R → Option (IncMap K R)
  performs [] res = some res
  performs (c ∷ past) res = performs past res >>= perform c

  pub record Promises (res : IncMap K R) : Type 0 where
    pub commits :
        (res' : IncMap K R) × (commit ops res ≡ some res') × Settled ops fill ops.now res res'
    pub aborts :
        (res' : IncMap K R) × (abort ops res ≡ some res') × Settled ops fill ops.saved res res'
    pub pre_commits :
        (ok : Bool) × (res' : IncMap K R) × (pre_commit ops res ≡ some (ok, res'))
        × Kept ops fill res res'
    pub reads :
        (k : K) (is : List V)
        → ((read_at ops fill k is res).0 ≡ (ops.read_at is (element ops fill (λ r. r) res k)).0)
          × Used ops fill k (λ r. (ops.read_at is r).1) res (read_at ops fill k is res).1
    pub writes :
        (k : K) (is : List V) (v : V)
        → ((write_at ops fill k is v res).0
            ≡ (ops.write_at is v (element ops fill (λ r. r) res k)).0)
          × Used ops fill k (λ r. (ops.write_at is v r).1) res (write_at ops fill k is v res).1

  -- `Index` of `HashMap` is that of `IncMap` where there is an element, and panics elsewhere.
  index_existing_lem :
      (k : K) (res : IncMap K R)
      → index_existing k res
        ≡ (elim (Hash.get k res.realized_map) [ none ↦ none | some a ↦ some (index fill k res) ])
  unfolding index_existing index
  index_existing_lem k res = elim (Option-cases (Hash.get k res.realized_map)) [
    | inl free ↦ rw (index_existing, free) refl
    | inr (a, at) ↦
        let marked = record res { dirty_elems = Hash.set k a res.dirty_elems } in
        let same : index fill k res ≡ (a, marked) = rw (index, at) refl in
        rw (index_existing, at, same) refl
  ]

  module _ (fill-clean : (k : K) → ops.saved (fill k) ≡ ops.now (fill k))
      (fill_congr : (j k : K) → h.equal j k ≡ true → fill j ≡ fill k) where
    new-Consistent : (heap : ℕ → R) → Consistent ops fill (new_inc_map heap)
    unfolding new_inc_map
    new-Consistent heap = record {
      below = λ k a at. let bad = sym (get-new k) ∙ at in let no' : ⊥ = cc in absurd no';
      apart = λ j k a at at'. let bad = sym (get-new k) ∙ at' in let no' : ⊥ = cc in absurd no';
      realized = λ k a at. at;
      clean = λ k a at absent. let bad = sym (get-new k) ∙ at in let no' : ⊥ = cc in absurd no';
      keys = new-KeysMatch;
    }

    perform-Consistent :
        (c : Call K V) (res : IncMap K R)
        → Consistent ops fill res
        → (res' : IncMap K R) × (perform c res ≡ some res') × Consistent ops fill res'
    unfolding perform
    perform-Consistent (read_call k is) res ok =
        (_, refl, (read_at-Used ops fill fill-clean fill_congr k is res ok).2)
    perform-Consistent (write_call k is v) res ok =
        (_, refl, (write_at-Used ops fill fill-clean fill_congr k is v res ok).2)
    perform-Consistent pre_commit_call res ok =
        let (answer, res', run, kept, ok') =
          pre_commit-Kept ops fill fill-clean fill_congr res ok in
        (res', rw (run, ◌>>=◌) refl, ok')
    perform-Consistent commit_call res ok =
        let (res', run, settled, ok') = commit-Settled ops fill fill-clean fill_congr res ok in
        (res', run, ok')
    perform-Consistent abort_call res ok =
        let (res', run, settled, ok') = abort-Settled ops fill fill-clean fill_congr res ok in
        (res', run, ok')

    performs-Consistent :
        (past : List (Call K V)) (heap : ℕ → R)
        → (res : IncMap K R) × (performs past (new_inc_map heap) ≡ some res)
          × Consistent ops fill res
    unfolding performs
    performs-Consistent [] heap = (new_inc_map heap, refl, new-Consistent heap)
    performs-Consistent (c ∷ past) heap =
        let (res, run, ok) = performs-Consistent past heap in
        let (res', step, ok') = perform-Consistent c res ok in (res', rw (run, ◌>>=◌) step, ok')

    consistent-Promises : (res : IncMap K R) → Consistent ops fill res → Promises res
    consistent-Promises res c = record {
      commits =
          let (res', run, settled, c') = commit-Settled ops fill fill-clean fill_congr res c in
          (res', run, settled);
      aborts =
          let (res', run, settled, c') = abort-Settled ops fill fill-clean fill_congr res c in
          (res', run, settled);
      pre_commits =
          let (ok, res', run, kept, c') = pre_commit-Kept ops fill fill-clean fill_congr res c in
          (ok, res', run, kept);
      reads = λ k is.
          let (value, used, c') = read_at-Used ops fill fill-clean fill_congr k is res c in
          (value, used);
      writes = λ k is v.
          let (value, used, c') = write_at-Used ops fill fill-clean fill_congr k is v res c in
          (value, used);
    }

    -- Let `fill` make elements that are as the last commit left them, and the same element for
    -- equal indices. Then no sequence of reads, writes, pre-commits, commits and aborts on a new
    -- `IncMap` panics, and after it the map keeps the contract of `ArchetypeResource` at every
    -- index, whether its element has been made or not: `Commit` makes the current state of every
    -- element its saved state, `Abort` brings the saved state of every element back, `PreCommit`
    -- changes no state, and a read or a write returns what the element at its index returns, has
    -- the effect of that call on the current state of the elements of equal indices, and changes no
    -- other current state and no saved state at all.
    pub performs-Promises :
        (past : List (Call K V)) (heap : ℕ → R)
        → (res : IncMap K R) × (performs past (new_inc_map heap) ≡ some res) × Promises res
    performs-Promises past heap =
        let (res, run, c) = performs-Consistent past heap in (res, run, consistent-Promises res c)
