-- ===== src/Resources/IncMap/Consistent.antt =====
-- distsys/resources/incmap.go and hashmap.go: the invariant that ties the two hash maps of a map of
-- resources to its elements.
use pgo_eval.Base.{
  ℕ, ◌≡◌, refl, sym, ap, ◌∙◌, true, false, none, some, ◌==◌, ◌<◌, arith, Bool-cases, inl, inr,
  ==_iff,
}
use pgo_eval.Hasher.{Hasher}
use pgo_eval.HashMap as Hash
use pgo_eval.HashMap.{HashMap}
use pgo_eval.HashMap.Lookup.{get_congr, get-clear}
use pgo_eval.HashMap.Keys.{present, KeysMatch, clear-KeysMatch}
use pgo_eval.Context.Sections.Contract.{Resource}
use pgo_eval.Resources.IncMap.{IncMap, store}
use pgo_eval.Resources.IncMap.Loops.{holds, contains-holds, AllThere, found}

pub store_here : {R : Type 0} (a : ℕ) (r : R) (heap : ℕ → R) → store a r heap a ≡ r
unfolding store
store_here a r heap = rw ((==_iff a a).1 refl) refl

pub store_away :
    {R : Type 0} (a b : ℕ) (r : R) (heap : ℕ → R) → ¬ (b ≡ a) → store a r heap b ≡ heap b
unfolding store
store_away a b r heap apart = elim (Bool-cases (b == a)) [
  | inl e ↦ absurd (apart ((==_iff b a).0 e))
  | inr e ↦ rw e refl
]

module _ {K V R S : Type 0} ⦃h : Hasher K⦄ (ops : Resource V R S) (fill : K → R) where
  -- The element of an index, that of `fill` if there is none yet, seen through `g`.
  abbrev pub element : {T : Type 0} → (R → T) → IncMap K R → K → T
  element g res k = elim (Hash.get k res.realized_map) [
    | some a ↦ g (res.heap a)
    | none ↦ g (fill k)
  ]

  pub element-some :
      {T : Type 0} (g : R → T) (res : IncMap K R) (k : K) (a : ℕ)
      → Hash.get k res.realized_map ≡ some a
      → element g res k ≡ g (res.heap a)
  element-some g res k a at = rw (element, at) refl

  pub element-none :
      {T : Type 0} (g : R → T) (res : IncMap K R) (k : K)
      → Hash.get k res.realized_map ≡ none
      → element g res k ≡ g (fill k)
  element-none g res k free = rw (element, free) refl

  -- The dirty elements are realized, no two indices share an element, and an element that is not
  -- dirty has no change since the last commit.
  pub record Consistent (res : IncMap K R) : Type 0 where
    pub below : (k : K) (a : ℕ) → Hash.get k res.realized_map ≡ some a → a < res.next
    pub apart :
        (j k : K) (a : ℕ)
        → Hash.get j res.realized_map ≡ some a
        → Hash.get k res.realized_map ≡ some a
        → h.equal j k ≡ true
    pub realized :
        (k : K) (a : ℕ) → Hash.get k res.dirty_elems ≡ some a → Hash.get k res.realized_map ≡ some a
    pub clean :
        (k : K) (a : ℕ)
        → Hash.get k res.realized_map ≡ some a
        → present (Hash.get k res.dirty_elems) ≡ false
        → ops.saved (res.heap a) ≡ ops.now (res.heap a)
    pub keys : KeysMatch res.dirty_elems

  pub all_there :
      (res : IncMap K R) → Consistent res → AllThere res.dirty_elems res.dirty_elems.keys
  all_there res c k listed = sym (c.keys.complete k) ∙ listed

  dirty-holds :
      (res : IncMap K R) (k : K) (a : ℕ)
      → Consistent res
      → Hash.get k res.realized_map ≡ some a
      → present (Hash.get k res.dirty_elems) ≡ true
      → holds res.dirty_elems res.dirty_elems.keys a ≡ true
  dirty-holds res k a c at there =
      let (b, known) = found res.dirty_elems k there in
      let same : some b ≡ some a = sym (c.realized k b known) ∙ at in
      contains-holds res.dirty_elems k res.dirty_elems.keys a (known ∙ same)
        (c.keys.complete k ∙ there)

  -- Where the loop did not run, the element is clean.
  pub outside :
      (res : IncMap K R) (k : K) (a : ℕ)
      → Consistent res
      → Hash.get k res.realized_map ≡ some a
      → holds res.dirty_elems res.dirty_elems.keys a ≡ false
      → ops.saved (res.heap a) ≡ ops.now (res.heap a)
  outside res k a c at free = elim (Bool-cases (present (Hash.get k res.dirty_elems))) [
    | inl there ↦
        let bad = dirty-holds res k a c at there in let no' : ⊥ = ground arith in absurd no'
    | inr absent ↦ c.clean k a at absent
  ]

  -- A dirty element may change, as long as nobody else has its address.
  pub store-Consistent :
      (k : K) (a : ℕ) (r : R) (res : IncMap K R)
      → Consistent res
      → Hash.get k res.realized_map ≡ some a
      → Hash.get k res.dirty_elems ≡ some a
      → Consistent (record res { heap = store a r res.heap })
  store-Consistent k a r res c at dirty = record {
    below = c.below;
    apart = c.apart;
    realized = c.realized;
    clean = λ j b known absent. elim (Bool-cases (b == a)) [
      | inl e ↦
          let same = c.apart j k a (known ∙ ap some ((==_iff b a).0 e)) at in
          let bad : true ≡ false =
            sym (ap present (get_congr j k res.dirty_elems same ∙ dirty)) ∙ absent in
          let no' : ⊥ = ground arith in absurd no'
      | inr e ↦
          rw (store_away a b r res.heap (λ eq. ground (arith, ==_iff b a)))
            (c.clean j b known absent)
    ];
    keys = c.keys;
  }

  -- After a loop whose body leaves elements without a change, nothing is dirty.
  pub ended-Consistent :
      (res : IncMap K R) (heap : ℕ → R)
      → Consistent res
      → ((b : ℕ)
          → holds res.dirty_elems res.dirty_elems.keys b ≡ true
          → ops.saved (heap b) ≡ ops.now (heap b))
      → ((b : ℕ)
          → holds res.dirty_elems res.dirty_elems.keys b ≡ false
          → (ops.saved (heap b) ≡ ops.saved (res.heap b))
            × (ops.now (heap b) ≡ ops.now (res.heap b)))
      → Consistent (record res { dirty_elems = Hash.clear res.dirty_elems; heap = heap })
  ended-Consistent res heap c inside outside' = record {
    below = c.below;
    apart = c.apart;
    realized = λ j b known.
        let bad = sym (get-clear j res.dirty_elems) ∙ known in let no' : ⊥ = cc in absurd no';
    clean = λ j b known absent. elim (Bool-cases (holds res.dirty_elems res.dirty_elems.keys b)) [
      | inl e ↦ inside b e
      | inr e ↦ (outside' b e).0 ∙ outside res j b c known e ∙ sym (outside' b e).1
    ];
    keys = clear-KeysMatch res.dirty_elems;
  }
