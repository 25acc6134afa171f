-- ===== src/Tla/Functions.antt =====
-- distsys/tla/symbols.go, builtins.go and value.go: functions and records, and what applies and
-- updates them. A tuple is applied and updated as well.
pub mod Update
use pgo_eval.Base.{
  ℕ, zero, suc, ◌-◌, Bool, true, ◌||◌, Option, none, some, List, [], ◌∷◌, if◌then◌else◌, ltb,
  length, get_elem?, set as set_elem, ◌>>=◌,
}
use pgo_eval.Base.Int.{ℤ, pos, ltb_ℤ, pos_part}
use pgo_eval.Hasher.{Hasher}
use pgo_eval.Maps.{MapLib}
use pgo_eval.Maps.Folds.{fold_into}
use pgo_eval.Tla.Values.{Values}

module _ {V : Type 0} ⦃h : Hasher V⦄ (lib : MapLib V) (values : Values lib) where
  open lib use {Map, empty, get, set, entries}
  open values use {as_set, as_number, as_tuple, as_function, make_set, make_tuple, make_function}

  unfoldable pub colon_greater_than : V → V → V
  colon_greater_than lhs rhs = make_function (set empty lhs rhs)

  unfoldable pub double_at_sign : V → V → Option V
  double_at_sign lhs rhs = do
    l ← as_function lhs
    r ← as_function rhs
    some (make_function (fold_into lib set l (entries r)))

  unfoldable pub put_key : Map Bool → V → V → Map Bool
  put_key m key value = set m key true

  unfoldable pub domain_symbol : V → Option V
  unfolding put_key
  domain_symbol v = do
    fn ← as_function v
    some (make_set (fold_into lib put_key empty (entries fn)))

  -- The element of a tuple at a TLA+ index, which starts at 1.
  unfoldable pub element : List V → V → Option V
  element vs argument = do
    idx ← as_number argument
    if ltb_ℤ idx (pos 1) || ltb_ℤ (pos (length vs)) idx
        then none
        else get_elem? vs (pos_part idx - 1)

  unfoldable pub apply_function : V → V → Option V
  unfolding element
  apply_function v argument = elim (as_tuple v) [
    | some vs ↦ element vs argument
    | none ↦ as_function v >>= λ fn. get fn argument
  ]

  -- `keysHelper` of `FunctionSubstitution`.
  unfoldable pub keys_helper : V → List V → (V → Option V) → Option V
  unfolding element
  keys_helper source [] value = value source
  keys_helper source (key ∷ keys) value =
      let in_function = λ (fn : Map V). get fn key >>= λ val.
      keys_helper val keys value >>= λ val'. some (make_function (set fn key val')) in
      let in_tuple = λ (vs : List V). element vs key >>= λ val.
      keys_helper val keys value >>= λ val'.
      as_number key >>= λ idx. some (make_tuple (set_elem vs (pos_part idx - 1) val')) in
      elim (as_function source) [ some fn ↦ in_function fn | none ↦ as_tuple source >>= in_tuple ]

  pub record Substitution : Type 0 where
    pub keys : List V
    pub value : V → Option V

  unfoldable pub function_substitution : V → List Substitution → Option V
  unfolding keys_helper
  function_substitution source [] = some source
  function_substitution source (s ∷ ss) =
      keys_helper source s.keys s.value >>= λ source'. function_substitution source' ss

  unfoldable pub make_record : List (V × V) → V
  make_record pairs = make_function (fold_into lib set empty pairs)

  -- The two inner loops of `MakeRecordSet`: every record so far with every value of a field.
  unfoldable pub extend_record : V → Map V → Map Bool → List (V × Bool) → Map Bool
  extend_record key fn m [] = m
  extend_record key fn m ((val, mark) ∷ vals) =
      extend_record key fn (set m (make_function (set fn key val)) true) vals

  unfoldable pub extend_records :
      V → List (V × Bool) → Map Bool → List (V × Bool) → Option (Map Bool)
  unfolding extend_record
  extend_records key vals m [] = some m
  extend_records key vals m ((acc, mark) ∷ accs) =
      as_function acc >>= λ fn. extend_records key vals (extend_record key fn m vals) accs

  unfoldable pub record_set_from : Map Bool → List (V × V) → Option (Map Bool)
  unfolding extend_records
  record_set_from m [] = some m
  record_set_from m ((key, value) ∷ pairs) = do
    vals ← as_set value
    m' ← extend_records key (entries vals) empty (entries m)
    record_set_from m' pairs

  unfoldable pub make_record_set : List (V × V) → Option V
  unfolding record_set_from
  make_record_set pairs =
      record_set_from (set empty (make_function empty) true) pairs >>= λ m. some (make_set m)

  unfoldable pub pair_with : V → List (V × Bool) → List (V × V)
  pair_with to [] = []
  pair_with to ((key, mark) ∷ keys) = (key, to) ∷ pair_with to keys

  unfoldable pub make_function_set : V → V → Option V
  unfolding pair_with make_record_set
  make_function_set from to = do
    f ← as_set from
    t ← as_set to
    make_record_set (pair_with to (entries f))
