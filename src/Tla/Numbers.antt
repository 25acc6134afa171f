-- ===== src/Tla/Numbers.antt =====
-- distsys/tla/symbols.go: the operators on numbers, which are `int32` and wrap around. Exponents go
-- through floating point numbers and are not modelled.
pub mod Ranges
use pgo_eval.Base.{
  ℕ, zero, suc, ◌/◌, ◌%◌, Bool, true, false, not, Option, none, some, if◌then◌else◌, ltb, ◌==◌,
  ◌>>=◌,
}
use pgo_eval.Base.Int.{ℤ, pos, negsuc, ◌+ℤ◌, ◌-ℤ◌, ◌*ℤ◌, sub_ℕ, ltb_ℤ}
use pgo_eval.Int32.{wrap}
use pgo_eval.Hasher.{Hasher}
use pgo_eval.Maps.{MapLib}
use pgo_eval.Tla.Values.{Values}

-- The absolute value.
abbrev pub size : ℤ → ℕ
size (pos n) = n
size (negsuc n) = suc n

abbrev pub is_negative : ℤ → Bool
is_negative (pos n) = false
is_negative (negsuc n) = true

abbrev pub negate : ℤ → ℤ
negate a = pos 0 -ℤ a

-- Go's `/` and `%` round towards zero; the remainder has the sign of the dividend.
unfoldable pub quotient : ℤ → ℤ → ℤ
quotient a b =
    let q = size a / size b in
    if is_negative a
    then (if is_negative b then pos q else sub_ℕ 0 q)
    else if is_negative b
    then sub_ℕ 0 q
    else pos q

unfoldable pub remainder : ℤ → ℤ → ℤ
remainder a b = let r = size a % size b in if is_negative a then sub_ℕ 0 r else pos r

module _ {V : Type 0} ⦃h : Hasher V⦄ (lib : MapLib V) (values : Values lib) where
  open lib use {Map, empty, set}
  open values use {as_number, make_number, make_bool, make_set}

  -- An operator that reads two numbers, and one that tests them.
  unfoldable pub arithmetic : (ℤ → ℤ → ℤ) → V → V → Option V
  arithmetic op lhs rhs = do
    l ← as_number lhs
    r ← as_number rhs
    some (make_number (wrap (op l r)))

  unfoldable pub comparison : (ℤ → ℤ → Bool) → V → V → Option V
  comparison op lhs rhs = do l ← as_number lhs; r ← as_number rhs; some (make_bool (op l r))

  unfoldable pub plus : V → V → Option V
  unfolding arithmetic
  plus = arithmetic ◌+ℤ◌

  unfoldable pub minus : V → V → Option V
  unfolding arithmetic
  minus = arithmetic ◌-ℤ◌

  unfoldable pub asterisk : V → V → Option V
  unfolding arithmetic
  asterisk = arithmetic ◌*ℤ◌

  unfoldable pub less_than_or_equal : V → V → Option V
  unfolding comparison
  less_than_or_equal = comparison (λ l r. not (ltb_ℤ r l))

  unfoldable pub greater_than_or_equal : V → V → Option V
  unfolding comparison
  greater_than_or_equal = comparison (λ l r. not (ltb_ℤ l r))

  unfoldable pub less_than : V → V → Option V
  unfolding comparison
  less_than = comparison ltb_ℤ

  unfoldable pub greater_than : V → V → Option V
  unfolding comparison
  greater_than = comparison (λ l r. ltb_ℤ r l)

  unfoldable pub div : V → V → Option V
  unfolding quotient
  div lhs rhs = do
    r ← as_number rhs
    l ← as_number lhs
    if size r == 0 then none else some (make_number (wrap (quotient l r)))

  unfoldable pub percent : V → V → Option V
  unfolding remainder
  percent lhs rhs = do
    r ← as_number rhs
    l ← as_number lhs
    if ltb_ℤ (pos 0) r then some (make_number (wrap (remainder l r))) else none

  unfoldable pub negation : V → Option V
  negation v = do n ← as_number v; some (make_number (wrap (negate n)))

  -- The loop of `..`, with fuel; `none` means that the fuel has run out.
  unfoldable pub dots : ℕ → ℤ → ℤ → Map Bool → Option (Map Bool)
  dots zero i to m = none
  dots (suc fuel) i to m =
      let rest = dots fuel (wrap (i +ℤ pos 1)) to (set m (make_number i) true) in
      if ltb_ℤ to i then some m else rest

  unfoldable pub dot_dot : ℕ → V → V → Option V
  unfolding dots
  dot_dot fuel lhs rhs = do
    from ← as_number lhs
    to ← as_number rhs
    m ← dots fuel from to empty
    some (make_set m)
