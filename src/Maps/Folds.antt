-- ===== src/Maps/Folds.antt =====
-- Loops over the iterator of a map that write into another map: what they leave at each key.
use pgo_eval.Base.{
  ◌≡◌, refl, sym, ap, Bool, true, Option, none, some, List, [], ◌∷◌, ◌∙◌, if◌then◌else◌, arith,
  Bool-cases, inl, inr,
}
use pgo_eval.Hasher.{Hasher, equal_congr}
use pgo_eval.Maps.{MapLib, lookup, Distinct}

-- The value that passes the test, else what was there.
abbrev pub pick : {V : Type 0} → (V → Bool) → Option V → Option V → Option V
pick p none old = old
pick p (some v) old = if p v then some v else old

-- A loop leaves a key alone that the iterator does not yield.
abbrev pub join_option : {V W : Type 0} → (Option V → W → Option V) → Option V → Option W → Option V
join_option join a none = a
join_option join a (some w) = join a w

module _ {K : Type 0} ⦃h : Hasher K⦄ where
  pub lookup_congr {ℓ} :
      {V : Type ℓ} (j k : K) (es : List (K × V)) → h.equal j k ≡ true → lookup j es ≡ lookup k es
  lookup_congr j k [] e = refl
  lookup_congr j k ((i, v) ∷ es) e = ground (arith, lookup_congr j k es e, equal_congr j k i e)

  module _ (lib : MapLib K) where
    open lib use {Map, get, set}

    pub get_congr : {V : Type 0} (m : Map V) (j k : K) → h.equal j k ≡ true → get m j ≡ get m k
    get_congr m j k e =
        lib.get-entries m j ∙ lookup_congr j k (lib.entries m) e ∙ sym (lib.get-entries m k)

    -- A loop that folds each entry of `es` into `m` by a function of the two values.
    unfoldable pub fold_into :
        {V W : Type 0} → (Map V → K → W → Map V) → Map V → List (K × W) → Map V
    fold_into step m [] = m
    fold_into step m ((k, w) ∷ es) = fold_into step (step m k w) es

    -- What one round does at each key: it joins the old value with the new one.
    abbrev pub Joins : {V W : Type 0} → (Map V → K → W → Map V) → (Option V → W → Option V) → Type 0
    Joins {V} {W} step join =
        (m : Map V) (k : K) (w : W) (j : K)
        → get (step m k w) j ≡ (if h.equal j k then join (get m k) w else get m j)

    -- Over the entries of a map, each key is met at most once.
    pub get-fold_into :
        {V W : Type 0} (step : Map V → K → W → Map V) (join : Option V → W → Option V)
        → Joins step join
        → (es : List (K × W)) → Distinct es
        → (m : Map V) (j : K)
        → get (fold_into step m es) j ≡ join_option join (get m j) (lookup j es)
    unfolding fold_into
    get-fold_into step join joins [] d m j = refl
    get-fold_into step join joins ((k, w) ∷ es) d m j =
        get-fold_into step join joins es d.1 (step m k w) j ∙ (elim (Bool-cases (h.equal j k)) [
          | inl same ↦
              rw (lookup_congr j k es same, d.0, joins m k w j, same) (rw (get_congr m j k same))
          | inr other ↦ rw (joins m k w j, other)
        ])

    -- A loop that copies the entries which pass a test.
    pub get-fold_keep :
        {V : Type 0} (keep : K → V → Bool) (step : Map V → K → V → Map V)
        → ((j k : K) (v : V) → h.equal j k ≡ true → keep j v ≡ keep k v)
        → ((m : Map V) (k : K) (v : V) → step m k v ≡ (if keep k v then set m k v else m))
        → (es : List (K × V)) → Distinct es
        → (m : Map V) (j : K) → get (fold_into step m es) j ≡ pick (keep j) (lookup j es) (get m j)
    unfolding fold_into
    get-fold_keep keep step congr steps [] d m j = refl
    get-fold_keep keep step congr steps ((k, v) ∷ es) d m j =
        get-fold_keep keep step congr steps es d.1 (step m k v) j
        ∙ (elim (Bool-cases (h.equal j k)) [
          | inl same ↦
              rw (lookup_congr j k es same, d.0, same, steps m k v, congr j k v same)
                (ground (arith, lib.get-set m k j v))
          | inr other ↦
              rw (other, steps m k v)
                (ap (pick (keep j) (lookup j es)) (ground (arith, lib.get-set m k j v)))
        ])
