-- ===== src/Maps.antt =====
-- `immutable.Map` of github.com/benbjohnson/immutable, a persistent hash map that is not part of
-- the repository: a parameter of every component that keeps one, with its documented behaviour.
-- `entries` is what an `Iterator` yields, in its order, which the library leaves open.
pub mod Assoc
pub mod Folds
use pgo_eval.Base.{
  ℕ, ◌≡◌, Bool, true, false, ◌||◌, Option, none, some, List, [], ◌∷◌, if◌then◌else◌, length,
}
use pgo_eval.Hasher.{Hasher}

module _ {K : Type 0} ⦃h : Hasher K⦄ where
  -- The value of the first entry with an equal key.
  abbrev pub lookup {ℓ} : {V : Type ℓ} → K → List (K × V) → Option V
  lookup k [] = none
  lookup k ((j, v) ∷ es) = if h.equal k j then some v else lookup k es

  -- No two entries have equal keys.
  abbrev pub Distinct {ℓ} : {V : Type ℓ} → List (K × V) → Type ℓ
  Distinct [] = Unit
  Distinct ((j, v) ∷ es) = (lookup j es ≡ none) × Distinct es

pub record MapLib (K : Type 0) ⦃h : Hasher K⦄ : Type 1 where
  pub Map : Type 0 → Type 0
  pub empty : {V : Type 0} → Map V
  pub get : {V : Type 0} → Map V → K → Option V
  pub set : {V : Type 0} → Map V → K → V → Map V
  pub delete : {V : Type 0} → Map V → K → Map V
  pub len : {V : Type 0} → Map V → ℕ
  pub entries : {V : Type 0} → Map V → List (K × V)
  pub get-empty : {V : Type 0} (k : K) → get (empty {V = V}) k ≡ none
  pub get-set :
      {V : Type 0} (m : Map V) (k j : K) (v : V)
      → get (set m k v) j ≡ (if h.equal j k then some v else get m j)
  pub get-delete :
      {V : Type 0} (m : Map V) (k j : K)
      → get (delete m k) j ≡ (if h.equal j k then none else get m j)
  pub get-entries : {V : Type 0} (m : Map V) (k : K) → get m k ≡ lookup k (entries m)
  pub entries-Distinct : {V : Type 0} (m : Map V) → Distinct (entries m)
  pub len-entries : {V : Type 0} (m : Map V) → len m ≡ length (entries m)
