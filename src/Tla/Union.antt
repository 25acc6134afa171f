-- ===== src/Tla/Union.antt =====
-- distsys/tla/symbols.go, `ModulePrefixUnionSymbol`: `UNION`. The inner loop tests an iterator over
-- the inner set, which it never moves, and takes its elements from the iterator over the outer one,
-- which yields the zero value once it has come to its end.
use pgo_eval.Base.{
  ℕ, zero, suc, ◌≡◌, refl, Bool, true, false, ◌&&◌, if◌then◌else◌, Bool-cases, Option, none, some,
  List, [], ◌∷◌, ◌>>=◌, inl, inr, Option-cases,
}
use pgo_eval.Hasher.{Hasher}
use pgo_eval.Maps.{MapLib}
use pgo_eval.Tla.Values.{Values}

module _ {V : Type 0} ⦃h : Hasher V⦄ (lib : MapLib V) (values : Values lib) (nil_value : V) where
  open lib use {Map, empty, set, entries}
  open values use {as_set, make_set}

  abbrev first_or_nil : List (V × Bool) → V
  first_or_nil [] = nil_value
  first_or_nil ((elem, mark) ∷ es) = elem

  abbrev rest : List (V × Bool) → List (V × Bool)
  rest [] = []
  rest (e ∷ es) = es

  -- The inner loop, with fuel, over a set that has an element: `es` is what the outer iterator has
  -- left. `none` means that the fuel has run out.
  unfoldable pub spin : ℕ → List (V × Bool) → Map Bool → Option (Map Bool)
  spin zero es m = none
  spin (suc fuel) es m = spin fuel (rest es) (set m (first_or_nil es) true)

  unfoldable pub inner_loop : ℕ → List (V × Bool) → List (V × Bool) → Map Bool → Option (Map Bool)
  unfolding spin
  inner_loop fuel [] es m = some m
  inner_loop fuel (e ∷ inner) es m = spin fuel es m

  -- The outer loop. The inner one leaves the outer iterator alone where it ends.
  unfoldable pub outer_loop : ℕ → List (V × Bool) → Map Bool → Option (Map Bool)
  unfolding inner_loop
  outer_loop fuel [] m = some m
  outer_loop fuel ((elem, mark) ∷ es) m = do
    s ← as_set elem
    m' ← inner_loop fuel (entries s) es m
    outer_loop fuel es m'

  unfoldable pub prefix_union : ℕ → V → Option V
  unfolding outer_loop
  prefix_union fuel v = do s ← as_set v; m ← outer_loop fuel (entries s) empty; some (make_set m)

  spin-none : (fuel : ℕ) (es : List (V × Bool)) (m : Map Bool) → spin fuel es m ≡ none
  unfolding spin
  spin-none zero es m = refl
  spin-none (suc fuel) es m = spin-none fuel (rest es) (set m (first_or_nil es) true)

  abbrev is_empty : List (V × Bool) → Bool
  is_empty [] = true
  is_empty (x ∷ es) = false

  abbrev is_empty_set : Option (Map Bool) → Bool
  is_empty_set none = false
  is_empty_set (some s) = is_empty (entries s)

  -- Every element is a set with no elements.
  abbrev pub all_empty : List (V × Bool) → Bool
  all_empty [] = true
  all_empty ((elem, mark) ∷ es) = is_empty_set (as_set elem) && all_empty es

  inner_loop-is_empty :
      (fuel : ℕ) (inner es : List (V × Bool)) (m : Map Bool)
      → inner_loop fuel inner es m ≡ (if is_empty inner then some m else none)
  unfolding inner_loop
  inner_loop-is_empty fuel [] es m = refl
  inner_loop-is_empty fuel (x ∷ inner) es m = spin-none fuel es m

  outer_loop-all_empty :
      (fuel : ℕ) (es : List (V × Bool)) (m : Map Bool)
      → outer_loop fuel es m ≡ (if all_empty es then some m else none)
  unfolding outer_loop
  outer_loop-all_empty fuel [] m = refl
  outer_loop-all_empty fuel ((elem, mark) ∷ es) m = elim (Option-cases (as_set elem)) [
    | inl no_set ↦ rw no_set refl
    | inr (s, is_set) ↦ elim (Bool-cases (is_empty (entries s))) [
      | inl e ↦
          rw (is_set, inner_loop-is_empty fuel (entries s) es m, e) (outer_loop-all_empty fuel es m)
      | inr e ↦ rw (is_set, inner_loop-is_empty fuel (entries s) es m, e) refl
    ]
  ]

  -- `UNION` of a set whose elements are all empty sets is the empty set, with any fuel, and `UNION`
  -- of any other set yields nothing, with any fuel: it does not end, or panics.
  pub prefix_union-all_empty :
      (fuel : ℕ) (v : V) (s : Map Bool)
      → as_set v ≡ some s
      → prefix_union fuel v ≡ (if all_empty (entries s) then some (make_set empty) else none)
  unfolding prefix_union
  prefix_union-all_empty fuel v s e = elim (Bool-cases (all_empty (entries s))) [
    | inl all ↦ rw (e, outer_loop-all_empty fuel (entries s) empty, all) refl
    | inr some_not ↦ rw (e, outer_loop-all_empty fuel (entries s) empty, some_not) refl
  ]
