-- ===== src/Resources/IncMap/Indexed.antt =====
-- distsys/resources/incmap.go: `Index` keeps the invariant, and changes no element.
use pgo_eval.Base.{
  ℕ, ◌≡◌, ◌⊎◌, refl, sym, ap, ◌∙◌, true, false, none, some, ◌+◌, arith, Bool-cases, Option-cases,
  inl, inr,
}
use pgo_eval.Hasher.{Hasher, equal_symm, equal_congr}
use pgo_eval.HashMap as Hash
use pgo_eval.HashMap.{HashMap}
use pgo_eval.HashMap.Lookup.{get-set, get_congr}
use pgo_eval.HashMap.Keys.{present, set-KeysMatch}
use pgo_eval.Context.Sections.Contract.{Resource}
use pgo_eval.Resources.IncMap.{IncMap, store, index}
use pgo_eval.Resources.IncMap.Consistent.{
  store_here, store_away, element, element-some, element-none, Consistent,
}

module _ {K : Type 0} ⦃h : Hasher K⦄ where
  set_there :
      (j k : K) (a : ℕ) (t : HashMap K ℕ)
      → h.equal j k ≡ true
      → Hash.get j (Hash.set k a t) ≡ some a
  set_there j k a t e = get-set k j a t ∙ rw e refl

  set_other :
      (j k : K) (a : ℕ) (t : HashMap K ℕ)
      → h.equal j k ≡ false
      → Hash.get j (Hash.set k a t) ≡ Hash.get j t
  set_other j k a t e = get-set k j a t ∙ rw e refl

  set-cases :
      (j k : K) (a b : ℕ) (t : HashMap K ℕ)
      → Hash.get j (Hash.set k a t) ≡ some b
      → ((h.equal j k ≡ true) × (a ≡ b)) ⊎ ((h.equal j k ≡ false) × (Hash.get j t ≡ some b))
  set-cases j k a b t known = elim (Bool-cases (h.equal j k)) [
    | inl e ↦ let same = sym (set_there j k a t e) ∙ known in inl (e, ground arith)
    | inr e ↦ inr (e, sym (set_other j k a t e) ∙ known)
  ]

  set-absent :
      (j k : K) (a : ℕ) (t : HashMap K ℕ)
      → present (Hash.get j (Hash.set k a t)) ≡ false
      → (h.equal j k ≡ false) × (present (Hash.get j t) ≡ false)
  set-absent j k a t absent = elim (Bool-cases (h.equal j k)) [
    | inl e ↦
        let bad : true ≡ false = ap present (sym (set_there j k a t e)) ∙ absent in
        let no' : ⊥ = ground arith in absurd no'
    | inr e ↦ (e, ap present (sym (set_other j k a t e)) ∙ absent)
  ]

module _ {K V R S : Type 0} ⦃h : Hasher K⦄ (ops : Resource V R S) (fill : K → R) where
  -- What `Index` does: the element is dirty, and no element has changed.
  pub record Indexed (k : K) (a : ℕ) (res res' : IncMap K R) : Type 1 where
    pub consistent : Consistent ops fill res'
    pub has : Hash.get k res'.realized_map ≡ some a
    pub marked : Hash.get k res'.dirty_elems ≡ some a
    pub same :
        {T : Type 0} (g : R → T) (j : K) → element ops fill g res' j ≡ element ops fill g res j

  module _ (fill-clean : (k : K) → ops.saved (fill k) ≡ ops.now (fill k))
      (fill_congr : (j k : K) → h.equal j k ≡ true → fill j ≡ fill k) where
    index_old :
        (k : K) (a : ℕ) (res : IncMap K R)
        → Consistent ops fill res
        → Hash.get k res.realized_map ≡ some a
        → Indexed k a res (record res { dirty_elems = Hash.set k a res.dirty_elems })
    index_old k a res c at = record {
      consistent = record {
        below = c.below;
        apart = c.apart;
        realized = λ j b known. elim (set-cases j k a b res.dirty_elems known) [
          | inl (e, same) ↦ get_congr j k res.realized_map e ∙ at ∙ ap some same
          | inr (e, old) ↦ c.realized j b old
        ];
        clean = λ j b known absent. c.clean j b known (set-absent j k a res.dirty_elems absent).1;
        keys = set-KeysMatch k a res.dirty_elems c.keys;
      };
      has = at;
      marked = rw (get-set, h.equal_refl k) refl;
      same = λ g j. refl;
    }

    -- The state after `fill` made an element.
    abbrev filled : K → IncMap K R → IncMap K R
    filled k res = record {
      realized_map = Hash.set k res.next res.realized_map;
      dirty_elems = Hash.set k res.next res.dirty_elems;
      heap = store res.next (fill k) res.heap;
      next = res.next + 1;
    }

    index_fresh :
        (k : K) (res : IncMap K R)
        → Consistent ops fill res
        → Hash.get k res.realized_map ≡ none
        → Indexed k res.next res (filled k res)
    index_fresh k res c free = record {
      consistent = record {
        below = λ j b known. elim (set-cases j k res.next b res.realized_map known) [
          | inl (e, same) ↦ omega arith
          | inr (e, old) ↦ let under = c.below j b old in omega arith
        ];
        apart = λ i j b known known'. elim (set-cases i k res.next b res.realized_map known) [
          | inl (e, same) ↦ elim (set-cases j k res.next b res.realized_map known') [
            | inl (e', same') ↦ rw (equal_symm i j, equal_congr j k i e') (rw (equal_symm k i) e)
            | inr (e', old') ↦
                let under = c.below j b old' in let no' : ⊥ = omega arith in absurd no'
          ]
          | inr (e, old) ↦ elim (set-cases j k res.next b res.realized_map known') [
            | inl (e', same') ↦
                let under = c.below i b old in let no' : ⊥ = omega arith in absurd no'
            | inr (e', old') ↦ c.apart i j b old old'
          ]
        ];
        realized = λ j b known. elim (set-cases j k res.next b res.dirty_elems known) [
          | inl (e, same) ↦ set_there j k res.next res.realized_map e ∙ ap some same
          | inr (e, old) ↦ set_other j k res.next res.realized_map e ∙ c.realized j b old
        ];
        clean = λ j b known absent.
            let (e, absent') = set-absent j k res.next res.dirty_elems absent in
            let old = sym (set_other j k res.next res.realized_map e) ∙ known in
            let under = c.below j b old in
            rw (store_away res.next b (fill k) res.heap (λ eq. omega arith))
              (c.clean j b old absent');
        keys = set-KeysMatch k res.next res.dirty_elems c.keys;
      };
      has = set_there k k res.next res.realized_map (h.equal_refl k);
      marked = set_there k k res.next res.dirty_elems (h.equal_refl k);
      same = λ g j. elim (Bool-cases (h.equal j k)) [
        | inl e ↦
            element-some ops fill g (filled k res) j res.next
              (set_there j k res.next res.realized_map e)
            ∙ ap g (store_here res.next (fill k) res.heap ∙ sym (fill_congr j k e))
            ∙ sym (element-none ops fill g res j (get_congr j k res.realized_map e ∙ free))
        | inr e ↦
            let other = set_other j k res.next res.realized_map e in
            elim (Option-cases (Hash.get j res.realized_map)) [
              | inl free' ↦
                  element-none ops fill g (filled k res) j (other ∙ free')
                  ∙ sym (element-none ops fill g res j free')
              | inr (b, old) ↦
                  let under = c.below j b old in
                  element-some ops fill g (filled k res) j b (other ∙ old)
                  ∙ ap g (store_away res.next b (fill k) res.heap (λ eq. omega arith))
                  ∙ sym (element-some ops fill g res j b old)
            ]
      ];
    }

    pub index-Indexed :
        (k : K) (res : IncMap K R)
        → Consistent ops fill res
        → Indexed k (index fill k res).0 res (index fill k res).1
    unfolding index
    index-Indexed k res c = elim (Option-cases (Hash.get k res.realized_map)) [
      | inl free ↦ rw (index, free) (index_fresh k res c free)
      | inr (a, at) ↦ rw (index, at) (index_old k a res c at)
    ]
