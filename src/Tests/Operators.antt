-- ===== src/Tests/Operators.antt =====
-- Examples for distsys/tla/symbols.go and builtins.go.
use pgo_eval.Base.{
  ℕ, ◌≡◌, ◌⊎◌, refl, Bool, true, false, not, ◌&&◌, ◌||◌, none, some, List, [], ◌∷◌, ◌>>=◌, arith,
  map, ◌<◌, ◌^◌, ◌-◌,
}
use pgo_eval.Base.Int.{pos}
use pgo_eval.Tla.Sets.{has, in_symbol, intersect, backslash, union}
use pgo_eval.Tla.Sets.Algebra.{operators-in}
use pgo_eval.Tla.Quantifiers.{
  sets_of, quantified_universal, quantified_existential, set_comprehension, cross_product,
}
use pgo_eval.Tla.Quantifiers.Meaning.{
  quantifiers-meaning, comprehension-existential, Every, Somewhere,
}
use pgo_eval.Tla.Numbers.{dot_dot}
use pgo_eval.Tla.Numbers.Ranges.{between, max_int32, dot_dot-between, dot_dot-overflow}
use pgo_eval.Tla.Tuples.{sub_seq, o_symbol}
use pgo_eval.Tla.Tuples.Sequences.{sub_seq-o_symbol}
use pgo_eval.Tla.Functions.{keys_helper, element}
use pgo_eval.Tla.Functions.Update.{follow, keys_helper-update, apply-get, apply-element}
use pgo_eval.Tla.Union.{prefix_union, prefix_union-all_empty}
use pgo_eval.Tests.Nested.{Nested, nil, nested, nested_maps, nested_keys}
open nested_maps use {Map, empty, set, entries}
open nested use {make_set, make_bool, make_number, make_tuple, make_function}

abbrev n1 : Nested
n1 = make_number (pos 1)

abbrev n2 : Nested
n2 = make_number (pos 2)

abbrev n3 : Nested
n3 = make_number (pos 3)

abbrev low_map : Map Bool
low_map = set (set empty n2 true) n1 true

abbrev high_map : Map Bool
high_map = set (set empty n3 true) n2 true

abbrev low : Nested
low = make_set low_map

abbrev high : Nested
high = make_set high_map

operators-in_example :
    ((union nested_maps nested low high >>= in_symbol nested_maps nested n3)
      ≡ some (make_bool (has nested_maps nested low_map n3 || has nested_maps nested high_map n3)))
    × ((intersect nested_maps nested low high >>= in_symbol nested_maps nested n3)
        ≡ some
            (make_bool (has nested_maps nested low_map n3 && has nested_maps nested high_map n3)))
    × ((backslash nested_maps nested low high >>= in_symbol nested_maps nested n3)
        ≡ some (
            make_bool
              (has nested_maps nested low_map n3 && not (has nested_maps nested high_map n3))))
operators-in_example =
    operators-in nested_maps nested low high low_map high_map n3 (nested.as_set-make_set low_map)
      (nested.as_set-make_set high_map)

sets_of_both :
    sets_of nested_maps nested (low ∷ high ∷ [])
    ≡ some (map (λ e. e.0) (entries low_map) ∷ map (λ e. e.0) (entries high_map) ∷ [])
unfolding sets_of
sets_of_both = rw (nested.as_set-make_set low_map, nested.as_set-make_set high_map) refl

-- Whether the two elements are equal.
abbrev pairwise : List Nested → Bool
pairwise (a ∷ b ∷ rest) = nested_keys.equal a b
pairwise _ = false

quantifiers-meaning_example :
    (let sets = map (λ e. e.0) (entries low_map) ∷ map (λ e. e.0) (entries high_map) ∷ [] in
      ((quantified_universal nested_maps nested (low ∷ high ∷ []) (λ a. some (pairwise a))
            ≡ some (make_bool true))
          × Every sets [] pairwise
        ⊎ (quantified_universal nested_maps nested (low ∷ high ∷ []) (λ a. some (pairwise a))
            ≡ some (make_bool false))
          × Somewhere sets [] (λ a. not (pairwise a)))
      × ((quantified_existential nested_maps nested (low ∷ high ∷ []) (λ a. some (pairwise a))
              ≡ some (make_bool true))
            × Somewhere sets [] pairwise
          ⊎ (quantified_existential nested_maps nested (low ∷ high ∷ []) (λ a. some (pairwise a))
              ≡ some (make_bool false))
            × Every sets [] (λ a. not (pairwise a))))
quantifiers-meaning_example =
    quantifiers-meaning nested_maps nested (low ∷ high ∷ [])
      (map (λ e. e.0) (entries low_map) ∷ map (λ e. e.0) (entries high_map) ∷ [])
      (λ a. some (pairwise a)) pairwise sets_of_both (λ a. refl)

comprehension-existential_example :
    ((set_comprehension nested_maps nested (low ∷ high ∷ []) (λ a. some (make_tuple a))
        >>= in_symbol nested_maps nested n1)
      ≡ quantified_existential nested_maps nested
          (low ∷ high ∷ [])
          (λ a. some (nested_keys.equal n1 (make_tuple a))))
    × ((cross_product nested_maps nested (low ∷ high ∷ []) >>= in_symbol nested_maps nested n1)
        ≡ quantified_existential nested_maps nested
            (low ∷ high ∷ [])
            (λ a. some (nested_keys.equal n1 (make_tuple a))))
comprehension-existential_example =
    comprehension-existential nested_maps nested (low ∷ high ∷ [])
      (map (λ e. e.0) (entries low_map) ∷ map (λ e. e.0) (entries high_map) ∷ [])
      (λ a. some (make_tuple a)) make_tuple n1 sets_of_both (λ a. refl)

small : (n : ℕ) → n < 2 ^ 31 → nested.as_number (make_number (pos n)) ≡ some (pos n)
small n l = nested.as_number-make_number (pos n) l

dot_dot-between_example :
    (dot_dot nested_maps nested 4 n1 n3 >>= in_symbol nested_maps nested n2)
    ≡ some (make_bool (between (pos 1) (pos 3) (pos 2)))
dot_dot-between_example =
    dot_dot-between nested_maps nested 4 n1 n3 (pos 1) (pos 3) (pos 2) (small 1 (omega arith))
      (small 3 (omega arith)) (omega arith) refl (omega arith) (omega arith)

dot_dot-overflow_example : dot_dot nested_maps nested 1000 n1 (make_number max_int32) ≡ none
dot_dot-overflow_example =
    dot_dot-overflow nested_maps nested 1000 n1 (make_number max_int32) (pos 1)
      (small 1 (omega arith)) (small (2 ^ 31 - 1) (omega arith))

abbrev triple : List Nested
triple = n1 ∷ n2 ∷ n3 ∷ []

sub_seq-o_symbol_example :
    (sub_seq nested_maps nested (make_tuple triple) (make_number (pos 1)) (make_number (pos 2))
      >>= λ front.
          sub_seq nested_maps nested (make_tuple triple) (make_number (pos 3)) (make_number (pos 3))
          >>= λ back. o_symbol nested_maps nested front back)
    ≡ some (make_tuple triple)
sub_seq-o_symbol_example =
    sub_seq-o_symbol nested_maps nested (make_tuple triple) triple 2
      (nested.as_tuple-make_tuple triple) (omega arith) (omega arith)

-- A function from 1 to a tuple, updated at the second element of the tuple.
abbrev pointed : Nested
pointed = make_function (nested_maps.set nested_maps.empty n1 (make_tuple triple))

pointed_at : follow nested_maps nested pointed (n1 ∷ n2 ∷ []) ≡ some n2
unfolding element
pointed_at =
    let fn : Map Nested = nested_maps.set nested_maps.empty n1 (make_tuple triple) in
    rw
      (
        apply-get nested_maps nested pointed n1 fn (nested.as_function-make_function fn),
        nested_maps.get-set nested_maps.empty n1 n1 (make_tuple triple),
        nested_keys.equal_refl n1,
        apply-element nested_maps nested (make_tuple triple) n2 triple
            (nested.as_tuple-make_tuple triple),
        small 2 (omega arith),
      )
      refl

keys_helper-update_example :
    (w : Nested) × (keys_helper nested_maps nested pointed (n1 ∷ n2 ∷ []) (λ v. some n3) ≡ some w)
    × (follow nested_maps nested w (n1 ∷ n2 ∷ []) ≡ some n3)
keys_helper-update_example =
    keys_helper-update nested_maps nested pointed n2 n3 (n1 ∷ n2 ∷ []) (λ v. some n3) pointed_at
      refl

abbrev empties : Map Bool
empties = set empty (make_set empty) true

-- `UNION {{}}` and `UNION {{1, 2}}`
prefix_union-all_empty_example :
    (prefix_union nested_maps nested nil 0 (make_set empties) ≡ some (make_set empty))
    × (prefix_union nested_maps nested nil 100 (make_set (set empty low true)) ≡ none)
unfolding nested
prefix_union-all_empty_example = (
  prefix_union-all_empty nested_maps nested nil 0 (make_set empties) empties
      (nested.as_set-make_set empties),
  prefix_union-all_empty nested_maps nested nil 100 (make_set (set empty low true))
      (set empty low true) (nested.as_set-make_set (set empty low true)),
)
