-- ===== src/Tla/Numbers/Ranges.antt =====
-- The set `from..to`, and where its loop ends.
use pgo_eval.Base.{
  ℕ, zero, suc, ◌+◌, ◌<◌, ◌≡◌, ◌≢◌, refl, Bool, true, false, not, ◌&&◌, ◌||◌, none, some, ◌>>=◌,
  arith, Bool-cases, inl, inr, ◌-◌, ◌^◌,
}
use pgo_eval.Base.Int.{ℤ, pos, negsuc, ◌+ℤ◌, ltb_ℤ, pos_part, neg_part, +ℤ_parts, eq_of_parts}
use pgo_eval.Int32.{wrap, IsInt32, wrap-eq_self, wrap-IsInt32}
use pgo_eval.Hasher.{Hasher}
use pgo_eval.Maps.{MapLib}
use pgo_eval.Tla.Values.{Values}
use pgo_eval.Tla.Sets.{has, in_symbol}
use pgo_eval.Tla.Sets.Algebra.{has-set}
use pgo_eval.Tla.Numbers.{dots, dot_dot}

abbrev pub max_int32 : ℤ
max_int32 = pos (2 ^ 31 - 1)

-- `i <= k <= to`
abbrev pub between : ℤ → ℤ → ℤ → Bool
between i to k = not (ltb_ℤ k i) && not (ltb_ℤ to k)

next-IsInt32 :
    (i to : ℤ) → IsInt32 i → ltb_ℤ to max_int32 ≡ true → ltb_ℤ to i ≡ false → IsInt32 (i +ℤ pos 1)
unfolding ◌+ℤ◌
next-IsInt32 (pos n) to h l e = ground arith
next-IsInt32 (negsuc n) to h l e = ground arith

next_parts : (i : ℤ) → pos_part (i +ℤ pos 1) + neg_part i ≡ pos_part i + 1 + neg_part (i +ℤ pos 1)
next_parts i = omega (arith, +ℤ_parts i (pos 1))

between_self : (i to : ℤ) → ltb_ℤ to i ≡ false → between i to i ≡ true
between_self i to e = ground arith

between-next : (i to k : ℤ) → k ≢ i → between i to k ≡ between (i +ℤ pos 1) to k
between-next i to k ne = ground (arith, next_parts i, eq_of_parts k i)

not_past : (i : ℤ) → IsInt32 i → ltb_ℤ max_int32 i ≡ false
not_past (pos n) r = ground arith
not_past (negsuc n) r = ground arith

module _ {V : Type 0} ⦃h : Hasher V⦄ (lib : MapLib V) (values : Values lib) where
  open lib use {Map, set}
  open values use {make_number, as_number, make_bool, equal-make_number}

  added :
      (i to k : ℤ) (b : Bool)
      → IsInt32 i
      → IsInt32 k
      → ltb_ℤ to i ≡ false
      → ((b || h.equal (make_number k) (make_number i)) || between (i +ℤ pos 1) to k)
        ≡ (b || between i to k)
  added i to k b ri rk e = elim (Bool-cases (h.equal (make_number k) (make_number i))) [
    | inl same ↦ rw same (rw (equal-make_number k i rk ri same, between_self i to e) (ground arith))
    | inr other ↦
        rw
          (
            other,
            between-next i to k
                (λ eq. let yes_k = h.equal_refl (make_number i) in let no_k = rw eq at other in cc),
          )
          (ground arith)
  ]

  dots-has :
      (fuel : ℕ) (i to : ℤ) (m : Map Bool)
      → IsInt32 i
      → ltb_ℤ to max_int32 ≡ true
      → 0 < fuel
      → pos_part to + neg_part i + 1 < fuel + (pos_part i + neg_part to)
      → (m' : Map Bool) × (dots lib values fuel i to m ≡ some m')
        × ((k : ℤ)
            → IsInt32 k
            → has lib values m' (make_number k)
              ≡ (has lib values m (make_number k) || between i to k))
  unfolding dots
  dots-has zero i to m r l z f = elim z [ ]
  dots-has (suc fuel) i to m r l z f = elim (Bool-cases (ltb_ℤ to i)) [
    | inl past ↦ (m, rw past refl, λ k rk. ground arith)
    | inr more ↦
        let r' = next-IsInt32 i to r l more in
        let (m', e, hs) =
          dots-has fuel (i +ℤ pos 1) to (set m (make_number i) true) r' l (ground arith)
            (omega (arith, next_parts i)) in
        (
          m',
          rw (more, wrap-eq_self (i +ℤ pos 1) r') e,
          λ k rk.
              rw (hs k rk, has-set lib values m (make_number i) (make_number k) true)
                (added i to k (has lib values m (make_number k)) r rk more),
        )
  ]

  -- With fuel for one more round than `from..to` has elements, where `to` is below the greatest
  -- `int32`, the loop of `..` ends, and the set has the numbers between the two and no others.
  pub dot_dot-between :
      (fuel : ℕ) (lhs rhs : V) (from to k : ℤ)
      → as_number lhs ≡ some from
      → as_number rhs ≡ some to
      → IsInt32 k
      → ltb_ℤ to max_int32 ≡ true
      → 0 < fuel
      → pos_part to + neg_part from + 1 < fuel + (pos_part from + neg_part to)
      → (dot_dot lib values fuel lhs rhs >>= in_symbol lib values (make_number k))
        ≡ some (make_bool (between from to k))
  unfolding dot_dot in_symbol
  dot_dot-between fuel lhs rhs from to k el er rk l z f =
      let (m, e, hs) = dots-has fuel from to lib.empty (values.as_number-IsInt32 lhs el) l z f in
      rw (el, er, e, values.as_set-make_set)
        (rw (hs k rk, lib.get-empty {V = Bool} (make_number k)) refl)

  dots-overflow :
      (fuel : ℕ) (i : ℤ) (m : Map Bool) → IsInt32 i → dots lib values fuel i max_int32 m ≡ none
  unfolding dots
  dots-overflow zero i m r = refl
  dots-overflow (suc fuel) i m r =
      rw (not_past i r) (dots-overflow fuel (wrap (i +ℤ pos 1)) _ (wrap-IsInt32 (i +ℤ pos 1)))

  -- The loop of `..` never ends where `to` is the greatest `int32`: no amount of fuel is enough.
  pub dot_dot-overflow :
      (fuel : ℕ) (lhs rhs : V) (from : ℤ)
      → as_number lhs ≡ some from
      → as_number rhs ≡ some max_int32
      → dot_dot lib values fuel lhs rhs ≡ none
  unfolding dot_dot
  dot_dot-overflow fuel lhs rhs from el er =
      rw (el, er, dots-overflow fuel from lib.empty (values.as_number-IsInt32 lhs el)) refl
