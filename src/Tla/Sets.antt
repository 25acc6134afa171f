-- ===== src/Tla/Sets.antt =====
-- distsys/tla/symbols.go and builtins.go: the operators on sets.
pub mod Algebra
use pgo_eval.Base.{
  ℕ, zero, suc, Bool, true, false, not, Option, none, some, List, [], ◌∷◌, if◌then◌else◌, ltb,
  ◌>>=◌,
}
use pgo_eval.Base.Int.{pos}
use pgo_eval.Int32.{wrap}
use pgo_eval.Hasher.{Hasher}
use pgo_eval.Maps.{MapLib}
use pgo_eval.Maps.Folds.{fold_into}
use pgo_eval.Tla.Values.{Values}

abbrev pub is_some {ℓ} : {A : Type ℓ} → Option A → Bool
is_some none = false
is_some (some a) = true

module _ {V : Type 0} ⦃h : Hasher V⦄ (lib : MapLib V) (values : Values lib) where
  open lib use {Map, empty, get, set, delete, len, entries}
  open values use {as_set, make_set, make_bool, make_number}

  -- Whether a set has an element.
  abbrev pub has : Map Bool → V → Bool
  has m v = is_some (get m v)

  unfoldable pub in_symbol : V → V → Option V
  in_symbol lhs rhs = do s ← as_set rhs; some (make_bool (has s lhs))

  unfoldable pub not_in_symbol : V → V → Option V
  not_in_symbol lhs rhs = do s ← as_set rhs; some (make_bool (not (has s lhs)))

  -- One round of the loops that build a set from the elements which pass a test.
  unfoldable pub keep_if : (V → Bool) → Map Bool → V → Bool → Map Bool
  keep_if test m elem mark = if test elem then set m elem true else m

  unfoldable pub intersect : V → V → Option V
  unfolding keep_if
  intersect lhs rhs = do
    l ← as_set lhs
    r ← as_set rhs
    some (make_set (fold_into lib (keep_if (λ v. has r v)) empty (entries l)))

  unfoldable pub backslash : V → V → Option V
  unfolding keep_if
  backslash lhs rhs = do
    l ← as_set lhs
    r ← as_set rhs
    some (make_set (fold_into lib (keep_if (λ v. not (has r v))) empty (entries l)))

  unfoldable pub put_in : Map Bool → V → Bool → Map Bool
  put_in m elem mark = set m elem true

  -- The elements of the smaller set are put into the bigger one.
  unfoldable pub union_maps : Map Bool → Map Bool → Map Bool
  unfolding put_in
  union_maps l r =
      if ltb (len l) (len r)
      then fold_into lib put_in r (entries l)
      else fold_into lib put_in l (entries r)

  unfoldable pub union : V → V → Option V
  unfolding union_maps
  union lhs rhs = do l ← as_set lhs; r ← as_set rhs; some (make_set (union_maps l r))

  unfoldable pub all_in : Map Bool → List (V × Bool) → Bool
  all_in r [] = true
  all_in r ((elem, mark) ∷ es) = if has r elem then all_in r es else false

  unfoldable pub subset_or_equal : V → V → Option V
  unfolding all_in
  subset_or_equal lhs rhs = do
    l ← as_set lhs
    r ← as_set rhs
    some (make_bool (all_in r (entries l)))

  -- The loop of `SUBSET`: the set that it has shrunk to, after each element.
  unfoldable pub shrink : Map Bool → Map Bool → List (V × Bool) → Map Bool
  shrink built shrinking [] = set built (make_set shrinking) true
  shrink built shrinking ((elem, mark) ∷ es) =
      shrink (set built (make_set shrinking) true) (delete shrinking elem) es

  unfoldable pub prefix_subset : V → Option V
  unfolding shrink
  prefix_subset v = do s ← as_set v; some (make_set (shrink empty s (entries s)))

  unfoldable pub cardinality : V → Option V
  cardinality v = do s ← as_set v; some (make_number (wrap (pos (len s))))

  unfoldable pub is_finite_set : V → Option V
  is_finite_set v = do s ← as_set v; some (make_bool true)

  -- `SetRefinement`; the predicate panics where it is `none`.
  unfoldable pub refine : (V → Option Bool) → Map Bool → List (V × Bool) → Option (Map Bool)
  refine pred m [] = some m
  refine pred m ((elem, mark) ∷ es) =
      pred elem >>= λ b. refine pred (if b then set m elem true else m) es

  unfoldable pub set_refinement : V → (V → Option Bool) → Option V
  unfolding refine
  set_refinement v pred = do s ← as_set v; m ← refine pred empty (entries s); some (make_set m)

  -- `none` also where no element is found.
  unfoldable pub choose_from : (V → Option Bool) → List (V × Bool) → Option V
  choose_from pred [] = none
  choose_from pred ((elem, mark) ∷ es) =
      let later = choose_from pred es in pred elem >>= λ b. if b then some elem else later

  unfoldable pub choose : V → (V → Option Bool) → Option V
  unfolding choose_from
  choose v pred = do s ← as_set v; choose_from pred (entries s)

  -- `SelectElement`
  unfoldable pub select_from : ℕ → List (V × Bool) → Option V
  select_from idx [] = none
  select_from zero ((elem, mark) ∷ es) = some elem
  select_from (suc idx) ((elem, mark) ∷ es) = select_from idx es

  unfoldable pub select_element : ℕ → V → Option V
  unfolding select_from
  select_element idx v = do s ← as_set v; select_from idx (entries s)
