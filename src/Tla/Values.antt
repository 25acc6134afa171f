-- ===== src/Tla/Values.antt =====
-- distsys/tla/value.go: the kinds of TLA+ values, as an interface. `as_set` and its like are `AsSet`
-- and its like, `none` where they panic with `ErrTLAType`; `make_set` and its like put a Go value
-- into a TLA+ one. A set is the map `immutable.Map[Value, bool]` of its elements, a function a map,
-- and a tuple the list that an `immutable.List` holds.
use pgo_eval.Base.{String, ◌≡◌, Bool, true, Option, none, some, List}
use pgo_eval.Base.Int.{ℤ}
use pgo_eval.Int32.{IsInt32}
use pgo_eval.Hasher.{Hasher}
use pgo_eval.Maps.{MapLib}

pub record Values {V : Type 0} ⦃h : Hasher V⦄ (lib : MapLib V) : Type 0 where
  pub as_bool : V → Option Bool
  pub make_bool : Bool → V
  pub as_number : V → Option ℤ
  pub make_number : ℤ → V
  pub as_string : V → Option String
  pub make_string : String → V
  pub as_set : V → Option (lib.Map Bool)
  pub make_set : lib.Map Bool → V
  pub as_tuple : V → Option (List V)
  pub make_tuple : List V → V
  pub as_function : V → Option (lib.Map V)
  pub make_function : lib.Map V → V
  pub as_bool-make_bool : (b : Bool) → as_bool (make_bool b) ≡ some b
  pub as_number-make_number : (n : ℤ) → IsInt32 n → as_number (make_number n) ≡ some n
  pub as_number-IsInt32 : (v : V) {n : ℤ} → as_number v ≡ some n → IsInt32 n
  pub as_string-make_string : (s : String) → as_string (make_string s) ≡ some s
  pub as_set-make_set : (m : lib.Map Bool) → as_set (make_set m) ≡ some m
  pub as_tuple-make_tuple : (vs : List V) → as_tuple (make_tuple vs) ≡ some vs
  pub as_function-make_function : (m : lib.Map V) → as_function (make_function m) ≡ some m
  -- a value is of one kind
  pub as_tuple-as_function : (v : V) {m : lib.Map V} → as_function v ≡ some m → as_tuple v ≡ none
  pub equal-make_number :
      (m n : ℤ) → IsInt32 m → IsInt32 n → h.equal (make_number m) (make_number n) ≡ true → m ≡ n
  pub equal-make_string :
      (s : String) (v : V) → h.equal (make_string s) v ≡ true → v ≡ make_string s
