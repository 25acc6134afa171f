-- ===== src/Crdt/VClock/Order.antt =====
-- distsys/resources/aworset.go: `compare` decides the pointwise order of two clocks.
pub mod Unique
use pgo_eval.Base.{
  ℕ, ◌≤◌, ◌<◌, ◌+◌, ◌≡◌, ◌⊎◌, refl, sym, ap, Bool, true, false, not, ◌&&◌, ◌||◌, Option, none, some,
  List, [], ◌∷◌, ◌∙◌, if◌then◌else◌, arith, Bool-cases, Option-cases, inl, inr,
}
use pgo_eval.Base.Int.{ℤ, ltb_ℤ, pos_part, neg_part, eq_of_parts, ◌≤ℤ◌}
use pgo_eval.Hasher.{Hasher, equal_congr}
use pgo_eval.Maps.{MapLib, lookup, Distinct}
use pgo_eval.Maps.Folds.{get_congr, lookup_congr}
use pgo_eval.Tla.{TlaValue}
use pgo_eval.Crdt.GCounter.{GCounter, or_zero}
use pgo_eval.Crdt.GCounter.Merge.{Same}
use pgo_eval.Crdt.VClock.{
  Compared, less, equal, greater, concurrent, compare_counts, get_or_default, collect_keys,
  compare_keys, compare,
}

none≢some : {A : Type 0} {a : A} → none ≡ some a → ⊥
none≢some e = cc

abbrev seen : {V : Type 0} → Option V → Bool
seen none = false
seen (some _) = true

module _ {K : Type 0} ⦃h : Hasher K⦄ (lib : MapLib K) (tla : TlaValue K) where
  open lib use {Map, get, set, entries}

  -- The count of a node is behind, or ahead.
  abbrev pub Behind : GCounter lib → GCounter lib → K → Type 0
  Behind a b k = ltb_ℤ (get_or_default lib tla a k) (get_or_default lib tla b k) ≡ true

  abbrev pub NotBehind : GCounter lib → GCounter lib → K → Type 0
  NotBehind a b k = ltb_ℤ (get_or_default lib tla a k) (get_or_default lib tla b k) ≡ false

  -- What each verdict says of the clocks `a` and `b`, over the nodes in `P`.
  abbrev Verdict : (K → Type 0) → GCounter lib → GCounter lib → Compared → Type 0
  Verdict P a b less = ((k : K) → P k → NotBehind b a k) × ((k : K) × Behind a b k)
  Verdict P a b equal = ((k : K) → P k → NotBehind b a k) × ((k : K) → P k → NotBehind a b k)
  Verdict P a b greater = ((k : K) → P k → NotBehind a b k) × ((k : K) × Behind b a k)
  Verdict P a b concurrent = ((k : K) × Behind a b k) × ((k : K) × Behind b a k)

  count_congr :
      (a : GCounter lib) (j k : K)
      → h.equal j k ≡ true
      → get_or_default lib tla a j ≡ get_or_default lib tla a k
  unfolding get_or_default
  count_congr a j k e = ap or_zero (get_congr lib a j k e)

  extend :
      (P : K → Type 0) (Q : K → Type 0) (a b : GCounter lib) (k : K)
      → ((j : K) → Q j → P j ⊎ (h.equal j k ≡ true))
      → ((j : K) → P j → NotBehind a b j)
      → NotBehind a b k
      → (j : K) → Q j
      → NotBehind a b j
  extend P Q a b k cover all new j q = elim (cover j q) [
    | inl p ↦ all j p
    | inr e ↦ rw (count_congr a j k e, count_congr b j k e) new
  ]

  not_both : (x y : ℤ) → ltb_ℤ x y ≡ true → ltb_ℤ y x ≡ false
  not_both x y e = ground arith

  -- One more node.
  compare_counts-Verdict :
      (P : K → Type 0) (Q : K → Type 0) (a b : GCounter lib) (res : Compared) (k : K)
      → ((j : K) → Q j → P j ⊎ (h.equal j k ≡ true))
      → Verdict P a b res
      → Verdict Q a b (compare_counts res (get_or_default lib tla a k) (get_or_default lib tla b k))
  unfolding compare_counts
  compare_counts-Verdict P Q a b less k cover v =
      elim (Bool-cases (ltb_ℤ (get_or_default lib tla b k) (get_or_default lib tla a k))) [
        | inl gt ↦ rw gt (v.1, (k, gt))
        | inr no_gt ↦ rw no_gt (extend P Q b a k cover v.0 no_gt, v.1)
      ]
  compare_counts-Verdict P Q a b equal k cover v =
      elim (Bool-cases (ltb_ℤ (get_or_default lib tla b k) (get_or_default lib tla a k))) [
        | inl gt ↦ rw gt (
          extend P Q a b k cover v.1
              (not_both (get_or_default lib tla b k) (get_or_default lib tla a k) gt),
          (k, gt),
        )
        | inr no_gt ↦
            elim (Bool-cases (ltb_ℤ (get_or_default lib tla a k) (get_or_default lib tla b k))) [
              | inl lt ↦ rw (no_gt, lt) (extend P Q b a k cover v.0 no_gt, (k, lt))
              | inr no_lt ↦
                  rw (no_gt, no_lt)
                    (extend P Q b a k cover v.0 no_gt, extend P Q a b k cover v.1 no_lt)
            ]
      ]
  compare_counts-Verdict P Q a b greater k cover v =
      elim (Bool-cases (ltb_ℤ (get_or_default lib tla a k) (get_or_default lib tla b k))) [
        | inl lt ↦ rw lt ((k, lt), v.1)
        | inr no_lt ↦ rw no_lt (extend P Q a b k cover v.0 no_lt, v.1)
      ]
  compare_counts-Verdict P Q a b concurrent k cover v = v

  abbrev Listed : {V : Type 0} → List (K × V) → K → Type 0
  Listed {V} es j = (v : V) × (lookup j es ≡ some v)

  Verdict-mono :
      (P : K → Type 0) (Q : K → Type 0) (a b : GCounter lib) (res : Compared)
      → ((j : K) → Q j → P j)
      → Verdict P a b res
      → Verdict Q a b res
  Verdict-mono P Q a b less sub v = (λ j q. v.0 j (sub j q), v.1)
  Verdict-mono P Q a b equal sub v = (λ j q. v.0 j (sub j q), λ j q. v.1 j (sub j q))
  Verdict-mono P Q a b greater sub v = (λ j q. v.0 j (sub j q), v.1)
  Verdict-mono P Q a b concurrent sub v = v

  Listed-cons :
      (P : K → Type 0) {V : Type 0} (k : K) (x : V) (ks : List (K × V)) (j : K)
      → P j ⊎ Listed ((k, x) ∷ ks) j
      → (P j ⊎ (h.equal j k ≡ true)) ⊎ Listed ks j
  Listed-cons P k x ks j (inl p) = inl (inl p)
  Listed-cons P k x ks j (inr (v, e)) = elim (Bool-cases (h.equal j k)) [
    | inl same ↦ inl (inr same)
    | inr other ↦ inr (v, rw other at e)
  ]

  compare_keys-Verdict :
      (P : K → Type 0) (a b : GCounter lib) (res : Compared) (ks : List (K × Bool))
      → Verdict P a b res
      → Verdict (λ j. P j ⊎ Listed ks j) a b (compare_keys lib tla a b res ks)
  unfolding compare_keys
  compare_keys-Verdict P a b res [] v =
      Verdict-mono P (λ j. P j ⊎ Listed {V = Bool} [] j) a b res
        (λ j q. elim q [ inl p ↦ p | inr l ↦ absurd (none≢some l.1) ]) v
  compare_keys-Verdict P a b res ((k, x) ∷ ks) v =
      let res' = compare_counts res (get_or_default lib tla a k) (get_or_default lib tla b k) in
      Verdict-mono (λ j. (P j ⊎ (h.equal j k ≡ true)) ⊎ Listed ks j)
        (λ j. P j ⊎ Listed ((k, x) ∷ ks) j) a b (compare_keys lib tla a b res' ks)
        (Listed-cons P k x ks)
        (compare_keys-Verdict (λ j. P j ⊎ (h.equal j k ≡ true)) a b res' ks
          (compare_counts-Verdict P (λ j. P j ⊎ (h.equal j k ≡ true)) a b res k (λ j q. q) v))

  -- Every key of either clock is collected.
  collect_keys-seen :
      (keys : Map Bool) (es fs : List (K × ℤ)) (j : K)
      → (seen (get keys j) || (seen (lookup j es) || seen (lookup j fs))) ≡ true
      → seen (get (collect_keys lib tla keys es fs) j) ≡ true
  unfolding collect_keys
  collect_keys-seen keys [] [] j l = ground arith
  collect_keys-seen keys ((k1, v) ∷ es) [] j l =
      collect_keys-seen (set (set keys k1 true) tla.default_value true) es [] j
        (rw (lib.get-set, lib.get-set) (ground arith))
  collect_keys-seen keys [] ((k2, w) ∷ fs) j l =
      collect_keys-seen (set (set keys tla.default_value true) k2 true) [] fs j
        (rw (lib.get-set, lib.get-set) (ground arith))
  collect_keys-seen keys ((k1, v) ∷ es) ((k2, w) ∷ fs) j l =
      collect_keys-seen (set (set keys k1 true) k2 true) es fs j
        (rw (lib.get-set, lib.get-set) (ground arith))

  -- What each verdict says of the clocks `a` and `b`.
  abbrev pub Ordered : GCounter lib → GCounter lib → Compared → Type 0
  Ordered a b less = ((k : K) → NotBehind b a k) × ((k : K) × Behind a b k)
  Ordered a b equal = ((k : K) → NotBehind b a k) × ((k : K) → NotBehind a b k)
  Ordered a b greater = ((k : K) → NotBehind a b k) × ((k : K) × Behind b a k)
  Ordered a b concurrent = ((k : K) × Behind a b k) × ((k : K) × Behind b a k)

  -- A node that was not collected has no count in either clock.
  unlisted :
      (a b : GCounter lib) (j : K)
      → (Listed (entries (collect_keys lib tla lib.empty (entries a) (entries b))) j)
        ⊎ ((get a j ≡ none) × (get b j ≡ none))
  unlisted a b j =
      elim (Option-cases (get (collect_keys lib tla lib.empty (entries a) (entries b)) j)) [
        | inr (v, e) ↦ inl (v, sym (lib.get-entries _ j) ∙ e)
        | inl e ↦
            let all = collect_keys-seen lib.empty (entries a) (entries b) j in
            inr
              (lib.get-entries a j ∙ ground (arith, all), lib.get-entries b j ∙ ground (arith, all))
      ]

  nodes_apart :
      (a b : GCounter lib) (j : K)
      → get a j ≡ none
      → get b j ≡ none
      → NotBehind b a j × NotBehind a b j
  unfolding get_or_default
  nodes_apart a b j p q = (rw (p, q), rw (p, q))

  widen-ab :
      (a b : GCounter lib)
      → ((j : K)
          → ⊥ ⊎ Listed (entries (collect_keys lib tla lib.empty (entries a) (entries b))) j
          → NotBehind a b j)
      → (j : K) → NotBehind a b j
  widen-ab a b all j = elim (unlisted a b j) [
    | inl l ↦ all j (inr l)
    | inr (p, q) ↦ (nodes_apart a b j p q).1
  ]

  widen-ba :
      (a b : GCounter lib)
      → ((j : K)
          → ⊥ ⊎ Listed (entries (collect_keys lib tla lib.empty (entries a) (entries b))) j
          → NotBehind b a j)
      → (j : K) → NotBehind b a j
  widen-ba a b all j = elim (unlisted a b j) [
    | inl l ↦ all j (inr l)
    | inr (p, q) ↦ (nodes_apart a b j p q).0
  ]

  everyone :
      (a b : GCounter lib) (res : Compared)
      → Verdict
          (λ j. ⊥ ⊎ Listed (entries (collect_keys lib tla lib.empty (entries a) (entries b))) j)
          a
          b
          res
      → Ordered a b res
  everyone a b less v = (λ j. widen-ba a b v.0 j, v.1)
  everyone a b equal v = (λ j. widen-ba a b v.0 j, λ j. widen-ab a b v.1 j)
  everyone a b greater v = (λ j. widen-ab a b v.0 j, v.1)
  everyone a b concurrent v = v

  -- `compare` decides the pointwise order of two clocks, a missing count being zero: `LT` if no
  -- count of the first is ahead and some count is behind, `GT` the other way round, `EQ` if none is
  -- ahead or behind, and `CC` if one is ahead and one is behind.
  pub compare-Ordered : (a b : GCounter lib) → Ordered a b (compare lib tla a b)
  unfolding compare
  compare-Ordered a b =
      everyone a b (compare lib tla a b)
        (compare_keys-Verdict (λ _. ⊥) a b equal _ (λ _ q. absurd q, λ _ q. absurd q))
