-- ===== src/Resources/IncMap/Used.antt =====
-- distsys/resources/incmap.go: `Index` of a map of resources, followed by a call on the element.
use pgo_eval.Base.{
  ◌≡◌, refl, sym, ap, ◌∙◌, true, some, List, if◌then◌else◌, arith, Bool-cases, Option-cases, inl,
  inr,
}
use pgo_eval.Hasher.{Hasher}
use pgo_eval.HashMap as Hash
use pgo_eval.HashMap.{HashMap}
use pgo_eval.HashMap.Lookup.{get_congr}
use pgo_eval.Context.Sections.Contract.{Resource}
use pgo_eval.Resources.IncMap.{IncMap, store, index, read_at, write_at}
use pgo_eval.Resources.IncMap.Indexed.{index-Indexed}
use pgo_eval.Resources.IncMap.Consistent.{
  element, element-some, element-none, Consistent, store_here, store_away, store-Consistent,
}

module _ {K V R S : Type 0} ⦃h : Hasher K⦄ (ops : Resource V R S) (fill : K → R) where
  -- One element was changed by `f`, and no saved state was.
  pub record Used (k : K) (f : R → R) (res res' : IncMap K R) : Type 0 where
    pub saved : (j : K) → element ops fill ops.saved res' j ≡ element ops fill ops.saved res j
    pub now :
        (j : K)
        → element ops fill ops.now res' j ≡ (
            if h.equal j k
            then ops.now (f (element ops fill (λ r. r) res k))
            else element ops fill ops.now res j)

  element_apply :
      {T : Type 0} (g : R → T) (res : IncMap K R) (k : K)
      → element ops fill g res k ≡ g (element ops fill (λ r. r) res k)
  element_apply g res k = elim (Option-cases (Hash.get k res.realized_map)) [
    | inl free ↦
        element-none ops fill g res k free ∙ ap g (sym (element-none ops fill (λ r. r) res k free))
    | inr (a, at) ↦
        element-some ops fill g res k a at ∙ ap g (sym (element-some ops fill (λ r. r) res k a at))
  ]

  module _ (fill-clean : (k : K) → ops.saved (fill k) ≡ ops.now (fill k))
      (fill_congr : (j k : K) → h.equal j k ≡ true → fill j ≡ fill k) where
    element_congr :
        {T : Type 0} (g : R → T) (res : IncMap K R) (j k : K)
        → h.equal j k ≡ true
        → element ops fill g res j ≡ element ops fill g res k
    element_congr g res j k e = elim (Option-cases (Hash.get k res.realized_map)) [
      | inl free ↦
          element-none ops fill g res j (get_congr j k res.realized_map e ∙ free)
          ∙ ap g (fill_congr j k e)
          ∙ sym (element-none ops fill g res k free)
      | inr (a, at) ↦
          element-some ops fill g res j a (get_congr j k res.realized_map e ∙ at)
          ∙ sym (element-some ops fill g res k a at)
    ]

    -- The state after `Index` and a change of the element that it returned.
    abbrev stored : K → (R → R) → IncMap K R → IncMap K R
    stored k f res =
        let (a, res') = index fill k res in
        record res' { heap = store a (f (res'.heap a)) res'.heap }

    -- `Index` returns the element that the index had, or has from now on.
    element-index :
        (k : K) (res : IncMap K R)
        → Consistent ops fill res
        → (index fill k res).1.heap (index fill k res).0 ≡ element ops fill (λ r. r) res k
    element-index k res c =
        let i = index-Indexed ops fill fill-clean fill_congr k res c in
        sym (element-some ops fill (λ r. r) (index fill k res).1 k (index fill k res).0 i.has)
        ∙ i.same (λ r. r) k

    element-stored :
        (g : R → S) (k : K) (f : R → R) (res : IncMap K R)
        → Consistent ops fill res
        → (j : K)
        → element ops fill g (stored k f res) j ≡ (
            if h.equal j k
            then g (f (element ops fill (λ r. r) res k))
            else element ops fill g res j)
    element-stored g k f res c j =
        let (a, res') = index fill k res in
        let i = index-Indexed ops fill fill-clean fill_congr k res c in
        let r = f (res'.heap a) in
        elim (Bool-cases (h.equal j k)) [
          | inl e ↦
              element-some ops fill g (stored k f res) j a
                (get_congr j k res'.realized_map e ∙ i.has)
              ∙ ap g (store_here a r res'.heap ∙ ap f (element-index k res c))
              ∙ rw e refl
          | inr e ↦ elim (Option-cases (Hash.get j res'.realized_map)) [
            | inl free ↦
                element-none ops fill g (stored k f res) j free
                ∙ sym (element-none ops fill g res' j free)
                ∙ i.same g j
                ∙ rw e refl
            | inr (b, at) ↦
                element-some ops fill g (stored k f res) j b at
                ∙ ap g (
                    store_away a b r res'.heap (λ eq.
                      let same = i.consistent.apart j k a (at ∙ ap some eq) i.has in
                      let no' : ⊥ = ground arith in no'))
                ∙ sym (element-some ops fill g res' j b at)
                ∙ i.same g j
                ∙ rw e refl
          ]
        ]

    stored-Used :
        (k : K) (f : R → R) (res : IncMap K R)
        → ((r : R) → ops.saved (f r) ≡ ops.saved r)
        → Consistent ops fill res
        → Used k f res (stored k f res) × Consistent ops fill (stored k f res)
    stored-Used k f res keep c =
        let (a, res') = index fill k res in
        let i = index-Indexed ops fill fill-clean fill_congr k res c in
        (
          record {
            saved = λ j. element-stored ops.saved k f res c j ∙ elim (Bool-cases (h.equal j k)) [
              | inl e ↦ rw e (
                  keep (element ops fill (λ r. r) res k)
                  ∙ sym (element_apply ops.saved res k)
                  ∙ sym (element_congr ops.saved res j k e))
              | inr e ↦ rw e refl
            ];
            now = element-stored ops.now k f res c;
          },
          store-Consistent ops fill k a (f (res'.heap a)) res' i.consistent i.has i.marked,
        )

    pub read_at-Used :
        (k : K) (is : List V) (res : IncMap K R)
        → Consistent ops fill res
        → ((read_at ops fill k is res).0 ≡ (ops.read_at is (element ops fill (λ r. r) res k)).0)
          × Used k (λ r. (ops.read_at is r).1) res (read_at ops fill k is res).1
          × Consistent ops fill (read_at ops fill k is res).1
    unfolding read_at
    read_at-Used k is res c =
        let (used, c') = stored-Used k (λ r. (ops.read_at is r).1) res (ops.saved-read_at is) c in
        (ap (λ r. (ops.read_at is r).0) (element-index k res c), used, c')

    pub write_at-Used :
        (k : K) (is : List V) (v : V) (res : IncMap K R)
        → Consistent ops fill res
        → ((write_at ops fill k is v res).0
            ≡ (ops.write_at is v (element ops fill (λ r. r) res k)).0)
          × Used k (λ r. (ops.write_at is v r).1) res (write_at ops fill k is v res).1
          × Consistent ops fill (write_at ops fill k is v res).1
    unfolding write_at
    write_at-Used k is v res c =
        let (used, c') =
          stored-Used k (λ r. (ops.write_at is v r).1) res (ops.saved-write_at is v) c in
        (ap (λ r. (ops.write_at is v r).0) (element-index k res c), used, c')
