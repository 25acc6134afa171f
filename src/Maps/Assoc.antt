-- ===== src/Maps/Assoc.antt =====
-- Association lists meet what is asked of the map library: the latest entry of a key comes first,
-- and older ones are skipped by the iterator.
use pgo_eval.Base.{
  ◌≡◌, refl, none, List, [], ◌∷◌, if◌then◌else◌, length, arith, Bool-cases, inl, inr,
}
use pgo_eval.Hasher.{Hasher, equal_symm, equal_congr}
use pgo_eval.Maps.{MapLib, lookup, Distinct}

module _ {K : Type 0} ⦃h : Hasher K⦄ where
  module _ {V : Type 0} where
    unfoldable pub remove : List (K × V) → K → List (K × V)
    remove [] k = []
    remove ((j, v) ∷ es) k = let rest = remove es k in if h.equal k j then rest else (j, v) ∷ rest

    -- The entries that are not shadowed by an earlier one.
    unfoldable pub visible : List (K × V) → List (K × V)
    visible [] = []
    visible ((j, v) ∷ es) = (j, v) ∷ remove (visible es) j

    pub lookup-remove :
        (es : List (K × V)) (k j : K)
        → lookup j (remove es k) ≡ (if h.equal j k then none else lookup j es)
    unfolding remove
    lookup-remove [] k j = ground arith
    lookup-remove ((i, v) ∷ es) k j = ground (
      arith,
      lookup-remove es k j,
      equal_congr j k i,
      equal_congr k i j,
      equal_symm k j,
      equal_symm i j,
    )

    pub Distinct-remove : (es : List (K × V)) (k : K) → Distinct es → Distinct (remove es k)
    unfolding remove
    Distinct-remove [] k d = tt
    Distinct-remove ((i, v) ∷ es) k d = elim (Bool-cases (h.equal k i)) [
      | inl same ↦ rw same (Distinct-remove es k d.1)
      | inr other ↦ rw other (rw lookup-remove (ground (arith, d.0)), Distinct-remove es k d.1)
    ]

    pub visible-Distinct : (es : List (K × V)) → Distinct (visible es)
    unfolding visible
    visible-Distinct [] = tt
    visible-Distinct ((i, v) ∷ es) =
        (rw (lookup-remove, h.equal_refl i), Distinct-remove (visible es) i (visible-Distinct es))

    pub lookup-visible : (es : List (K × V)) (k : K) → lookup k es ≡ lookup k (visible es)
    unfolding visible
    lookup-visible [] k = refl
    lookup-visible ((i, v) ∷ es) k =
        rw (lookup-remove (visible es) i k) (ground (arith, lookup-visible es k))

  unfoldable pub assoc_maps : MapLib K
  unfolding remove visible
  assoc_maps = record {
    Map = λ V. List (K × V);
    empty = [];
    get = λ m k. lookup k m;
    set = λ m k v. (k, v) ∷ m;
    delete = λ m k. remove m k;
    len = λ m. length (visible m);
    entries = λ m. visible m;
    get-empty = λ k. refl;
    get-set = λ m k j v. refl;
    get-delete = λ m k j. lookup-remove m k j;
    get-entries = λ m k. lookup-visible m k;
    entries-Distinct = λ m. visible-Distinct m;
    len-entries = λ m. refl;
  }
