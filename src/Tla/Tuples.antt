-- ===== src/Tla/Tuples.antt =====
-- distsys/tla/symbols.go: the operators on tuples, which are 1-indexed. An `immutable.List` is a
-- list: `Append` adds at its end, and `Slice` yields the elements from an index up to another.
pub mod Sequences
use pgo_eval.Base.{
  ℕ, zero, suc, ◌+◌, ◌-◌, Bool, true, false, ◌||◌, Option, none, some, List, [], ◌∷◌, ◌++◌,
  if◌then◌else◌, ltb, length, get_elem?, take, drop, ◌>>=◌,
}
use pgo_eval.Base.Int.{ℤ, pos, ltb_ℤ, pos_part}
use pgo_eval.Int32.{wrap}
use pgo_eval.Hasher.{Hasher}
use pgo_eval.Maps.{MapLib}
use pgo_eval.Tla.Values.{Values}

-- `Slice`
unfoldable pub slice {ℓ} : {A : Type ℓ} → ℕ → ℕ → List A → List A
slice from to vs = take (to - from) (drop from vs)

-- The loop of `\o`, which appends one element after another.
unfoldable pub append_all {ℓ} : {A : Type ℓ} → List A → List A → List A
append_all vs [] = vs
append_all vs (elem ∷ elems) = append_all (vs ++ elem ∷ []) elems

module _ {V : Type 0} ⦃h : Hasher V⦄ (lib : MapLib V) (values : Values lib) where
  open values use {as_number, as_tuple, make_number, make_tuple}

  unfoldable pub len_symbol : V → Option V
  len_symbol v = do vs ← as_tuple v; some (make_number (wrap (pos (length vs))))

  unfoldable pub o_symbol : V → V → Option V
  unfolding append_all
  o_symbol lhs rhs = do l ← as_tuple lhs; r ← as_tuple rhs; some (make_tuple (append_all l r))

  unfoldable pub append : V → V → Option V
  append lhs rhs = do l ← as_tuple lhs; some (make_tuple (l ++ rhs ∷ []))

  unfoldable pub head : V → Option V
  head v = do vs ← as_tuple v; get_elem? vs 0

  unfoldable pub tail : V → Option V
  unfolding slice
  tail v = do
    vs ← as_tuple v
    if ltb 0 (length vs) then some (make_tuple (slice 1 (length vs) vs)) else none

  unfoldable pub sub_seq : V → V → V → Option V
  unfolding slice
  sub_seq v m n = do
    vs ← as_tuple v
    from ← as_number m
    to ← as_number n
    if ltb_ℤ to from
        then some (make_tuple [])
        else if ltb_ℤ from (pos 1) || ltb_ℤ (pos (length vs)) to
        then none
        else some (make_tuple (slice (pos_part from - 1) (pos_part to) vs))
