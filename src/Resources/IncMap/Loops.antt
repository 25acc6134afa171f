-- ===== src/Resources/IncMap/Loops.antt =====
-- distsys/resources/incmap.go and hashmap.go: the loops over the dirty elements.
use pgo_eval.Base.{
  ℕ, ◌≡◌, refl, sym, ap, ◌∙◌, Bool, true, false, ◌&&◌, ◌||◌, Option, none, some, List, [], ◌∷◌,
  ◌==◌, if◌then◌else◌, ◌>>=◌, arith, Bool-cases, Option-cases, inl, inr, ==_iff,
}
use pgo_eval.Hasher.{Hasher}
use pgo_eval.HashMap as Hash
use pgo_eval.HashMap.{HashMap}
use pgo_eval.HashMap.Lookup.{get_congr}
use pgo_eval.HashMap.Keys.{contains, present}
use pgo_eval.Context.Sections.Contract.{Resource}
use pgo_eval.Resources.IncMap.{store, each_dirty, pre_commit_dirty}

abbrev pub at_address : Option ℕ → ℕ → Bool
at_address none a = false
at_address (some b) a = a == b

module _ {K : Type 0} ⦃h : Hasher K⦄ where
  -- Some key of the list has the element at address `a`.
  abbrev pub holds : HashMap K ℕ → List K → ℕ → Bool
  holds dirty [] a = false
  holds dirty (k ∷ ks) a = at_address (Hash.get k dirty) a || holds dirty ks a

  pub contains-holds :
      (dirty : HashMap K ℕ) (k : K) (ks : List K) (a : ℕ)
      → Hash.get k dirty ≡ some a
      → contains k ks ≡ true
      → holds dirty ks a ≡ true
  contains-holds dirty k [] a at c = c
  contains-holds dirty k (j ∷ ks) a at c = elim (Bool-cases (h.equal k j)) [
    | inl e ↦ rw (sym (get_congr k j dirty e) ∙ at) (ground arith)
    | inr e ↦ let rest = contains-holds dirty k ks a at (ground arith) in ground arith
  ]

  abbrev pub AllThere : HashMap K ℕ → List K → Type 0
  AllThere dirty ks = (k : K) → contains k ks ≡ true → present (Hash.get k dirty) ≡ true

  pub found :
      (dirty : HashMap K ℕ) (k : K)
      → present (Hash.get k dirty) ≡ true
      → (a : ℕ) × (Hash.get k dirty ≡ some a)
  found dirty k there = elim (Option-cases (Hash.get k dirty)) [
    | inl e ↦ let bad : false ≡ true = ap present (sym e) ∙ there in let no : ⊥ = cc in absurd no
    | inr known ↦ known
  ]

  head_found :
      (dirty : HashMap K ℕ) (k : K) (ks : List K)
      → AllThere dirty (k ∷ ks)
      → (a : ℕ) × (Hash.get k dirty ≡ some a)
  head_found dirty k ks all = found dirty k (all k (rw (h.equal_refl k)))

  tail_there :
      (dirty : HashMap K ℕ) (k : K) (ks : List K) → AllThere dirty (k ∷ ks) → AllThere dirty ks
  tail_there dirty k ks all j c = all j (ground arith)

store_state :
    {R S : Type 0} (f : R → R) (g src : R → S)
    → ((r : R) → g (f r) ≡ src r)
    → (a b : ℕ) (heap : ℕ → R)
    → g (store a (f (heap a)) heap b) ≡ (if b == a then src (heap b) else g (heap b))
unfolding store
store_state f g src p a b heap = elim (Bool-cases (b == a)) [
  | inl e ↦ rw (e, p (heap a), (==_iff b a).0 e) refl
  | inr e ↦ rw e refl
]

module _ {K R : Type 0} ⦃h : Hasher K⦄ where
  -- What a loop did, through a state `g` that its body sets from `src`.
  pub record Ended (f : R → R) (dirty : HashMap K ℕ) (ks : List K) (heap heap' : ℕ → R)
      : Type 1 where
    pub states :
        {S : Type 0} (g src : R → S)
        → ((r : R) → g (f r) ≡ src r)
        → ((r : R) → src (f r) ≡ src r)
        → (b : ℕ) → g (heap' b) ≡ (if holds dirty ks b then src (heap b) else g (heap b))

  pub each_dirty-Ended :
      (f : R → R) (dirty : HashMap K ℕ) (ks : List K) (heap : ℕ → R)
      → AllThere dirty ks
      → (heap' : ℕ → R) × (each_dirty f ks dirty heap ≡ some heap') × Ended f dirty ks heap heap'
  unfolding each_dirty
  each_dirty-Ended f dirty [] heap all = (heap, refl, record { states = λ g src p q b. refl })
  each_dirty-Ended f dirty (k ∷ ks) heap all =
      let (a, known) = head_found dirty k ks all in
      let (heap', run, rest) =
        each_dirty-Ended f dirty ks (store a (f (heap a)) heap) (tail_there dirty k ks all) in
      (
        heap',
        rw (known, ◌>>=◌) run,
        record {
          states = λ g src p q b.
              rest.states g src p q b
              ∙ rw (known, store_state f g src p a b heap, store_state f src src q a b heap)
                  (ground arith);
        },
      )

module _ {V R S : Type 0} (ops : Resource V R S) where
  store_pre_commit :
      {T : Type 0} (g : R → T)
      → ((r : R) → g (ops.pre_commit r).1 ≡ g r)
      → (a b : ℕ) (heap : ℕ → R) → g (store a (ops.pre_commit (heap a)).1 heap b) ≡ g (heap b)
  store_pre_commit g p a b heap =
      store_state (λ r. (ops.pre_commit r).1) g g p a b heap ∙ ground arith

module _ {V R S K : Type 0} ⦃h : Hasher K⦄ (ops : Resource V R S) where
  -- `PreCommit` asks every dirty element, and changes no state.
  pub pre_commit_dirty-states :
      (dirty : HashMap K ℕ) (ks : List K) (heap : ℕ → R)
      → AllThere dirty ks
      → (ok : Bool) × (heap' : ℕ → R) × (pre_commit_dirty ops ks dirty heap ≡ some (ok, heap'))
        × ((b : ℕ) → ops.saved (heap' b) ≡ ops.saved (heap b))
        × ((b : ℕ) → ops.now (heap' b) ≡ ops.now (heap b))
  unfolding pre_commit_dirty
  pre_commit_dirty-states dirty [] heap all = (true, heap, refl, λ b. refl, λ b. refl)
  pre_commit_dirty-states dirty (k ∷ ks) heap all =
      let (a, known) = head_found dirty k ks all in
      let r = ops.pre_commit (heap a) in
      let (ok, heap', run, saved, now) =
        pre_commit_dirty-states dirty ks (store a r.1 heap) (tail_there dirty k ks all) in
      (
        r.0 && ok,
        heap',
        rw (known, ◌>>=◌, run),
        λ b. saved b ∙ store_pre_commit ops ops.saved ops.saved-pre_commit a b heap,
        λ b. now b ∙ store_pre_commit ops ops.now ops.now-pre_commit a b heap,
      )
