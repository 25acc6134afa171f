-- ===== src/Tla/Quantifiers.antt =====
-- distsys/tla/builtins.go and value.go: the constructs that range over several sets. Each has a
-- recursive `helper` over the sets, with one loop in the next; `args` holds the elements that the
-- outer loops have come to. Predicates and bodies panic where they are `none`.
pub mod Meaning
use pgo_eval.Base.{
  Bool, true, false, Option, none, some, List, [], ◌∷◌, ◌++◌, map, if◌then◌else◌, ◌>>=◌,
}
use pgo_eval.Hasher.{Hasher}
use pgo_eval.Maps.{MapLib}
use pgo_eval.Tla.Values.{Values}

module _ {ℓ} {V : Type ℓ} where
  -- One loop of `QuantifiedUniversal`: it stops where the result is false.
  unfoldable pub until_false : List V → (V → Option Bool) → Option Bool
  until_false [] f = some true
  until_false (elem ∷ elems) f =
      let later = until_false elems f in f elem >>= λ b. if b then later else some false

  unfoldable pub until_true : List V → (V → Option Bool) → Option Bool
  until_true [] f = some false
  until_true (elem ∷ elems) f =
      let later = until_true elems f in f elem >>= λ b. if b then some true else later

  unfoldable pub universal_from : List (List V) → List V → (List V → Option Bool) → Option Bool
  unfolding until_false
  universal_from [] args pred = pred args
  universal_from (elems ∷ sets) args pred =
      until_false elems (λ elem. universal_from sets (args ++ elem ∷ []) pred)

  unfoldable pub existential_from : List (List V) → List V → (List V → Option Bool) → Option Bool
  unfolding until_true
  existential_from [] args pred = pred args
  existential_from (elems ∷ sets) args pred =
      until_true elems (λ elem. existential_from sets (args ++ elem ∷ []) pred)

  -- A loop that adds to a result.
  unfoldable pub for_each : {S : Type 0} → List V → (V → S → Option S) → S → Option S
  for_each [] f s = some s
  for_each (elem ∷ elems) f s = f elem s >>= for_each elems f

  unfoldable pub build_from :
      {S : Type 0} → List (List V) → List V → (List V → S → Option S) → S → Option S
  unfolding for_each
  build_from [] args body s = body args s
  build_from (elems ∷ sets) args body s =
      for_each elems (λ elem. build_from sets (args ++ elem ∷ []) body) s

module _ {V : Type 0} ⦃h : Hasher V⦄ (lib : MapLib V) (values : Values lib) where
  open lib use {Map, empty, set, entries}
  open values use {as_set, make_set, make_bool, make_tuple, make_function}

  -- The elements of each of the sets, in the order of its iterator.
  unfoldable pub sets_of : List V → Option (List (List V))
  sets_of [] = some []
  sets_of (v ∷ vs) = do s ← as_set v; rest ← sets_of vs; some (map (λ e. e.0) (entries s) ∷ rest)

  unfoldable pub quantified_universal : List V → (List V → Option Bool) → Option V
  unfolding sets_of universal_from
  quantified_universal vs pred = do
    sets ← sets_of vs
    b ← universal_from sets [] pred
    some (make_bool b)

  unfoldable pub quantified_existential : List V → (List V → Option Bool) → Option V
  unfolding sets_of existential_from
  quantified_existential vs pred = do
    sets ← sets_of vs
    b ← existential_from sets [] pred
    some (make_bool b)

  unfoldable pub set_comprehension : List V → (List V → Option V) → Option V
  unfolding sets_of build_from
  set_comprehension vs body = do
    sets ← sets_of vs
    m ← build_from sets [] (λ args m. body args >>= λ v. some (set m v true)) empty
    some (make_set m)

  unfoldable pub cross_product : List V → Option V
  unfolding sets_of build_from
  cross_product vs = do
    sets ← sets_of vs
    m ← build_from sets [] (λ args m. some (set m (make_tuple args) true)) empty
    some (make_set m)

  -- The key of a function of several arguments is their tuple.
  unfoldable pub key_of : List V → V
  key_of (arg ∷ []) = arg
  key_of args = make_tuple args

  unfoldable pub function_from : List (List V) → (List V → Option V) → Option V
  unfolding key_of build_from
  function_from sets body = do
    m ← build_from sets [] (λ args m. body args >>= λ v. some (set m (key_of args) v)) empty
    some (make_function m)

  unfoldable pub make_function_of : List V → (List V → Option V) → Option V
  unfolding sets_of function_from
  make_function_of [] body = none
  make_function_of (v ∷ vs) body = sets_of (v ∷ vs) >>= λ sets. function_from sets body
