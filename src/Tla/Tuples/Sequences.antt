-- ===== src/Tla/Tuples/Sequences.antt =====
-- Taking tuples apart and putting them together again.
use pgo_eval.Base.{
  ℕ, zero, suc, ◌+◌, ◌-◌, ◌≤◌, ◌<◌, ◌^◌, ◌≡◌, refl, sym, ap, ◌∙◌, none, some, List, [], ◌∷◌, ◌++◌,
  length, take, drop, take-append-drop, length-drop, ◌⊎◌, inl, inr, ◌>>=◌, arith,
}
use native.Mathlib.Nat.{sub-zero}
use mathlib.Core.List.{append-nil, append_assoc}
use pgo_eval.Base.Int.{pos}
use pgo_eval.Hasher.{Hasher}
use pgo_eval.Maps.{MapLib}
use pgo_eval.Tla.Values.{Values}
use pgo_eval.Tla.Tuples.{slice, append_all, o_symbol, append, head, tail, sub_seq}

module _ {ℓ} {A : Type ℓ} where
  append_all-append : (vs ws : List A) → append_all vs ws ≡ vs ++ ws
  unfolding append_all
  append_all-append vs [] = sym (append-nil vs)
  append_all-append vs (w ∷ ws) = append_all-append (vs ++ w ∷ []) ws ∙ append_assoc vs (w ∷ []) ws

  take_past : (n : ℕ) (vs : List A) → length vs ≤ n → take n vs ≡ vs
  take_past zero [] l = refl
  take_past zero (v ∷ vs) l = absurd (omega arith)
  take_past (suc n) [] l = refl
  take_past (suc n) (v ∷ vs) l = ap (λ (t : List A). v ∷ t) (take_past n vs (omega arith))

  drop_past : (k : ℕ) (vs : List A) → length vs ≤ k → drop k vs ≡ []
  drop_past zero [] l = refl
  drop_past zero (v ∷ vs) l = absurd (omega arith)
  drop_past (suc k) [] l = refl
  drop_past (suc k) (v ∷ vs) l = drop_past k vs (omega arith)

  slice-front : (k : ℕ) (vs : List A) → slice 0 k vs ≡ take k vs
  unfolding slice
  slice-front k vs = rw sub-zero refl

  slice-back : (k : ℕ) (vs : List A) → slice k (length vs) vs ≡ drop k vs
  unfolding slice
  slice-back k vs = take_past (length vs - k) (drop k vs) (omega (arith, length-drop k vs))

module _ {V : Type 0} ⦃h : Hasher V⦄ (lib : MapLib V) (values : Values lib) where
  open values use {as_tuple, make_tuple, make_number}

  front_part :
      (v : V) (vs : List V) (k : ℕ)
      → as_tuple v ≡ some vs
      → k ≤ length vs
      → length vs < 2 ^ 31 - 1
      → sub_seq lib values v (make_number (pos 1)) (make_number (pos k))
        ≡ some (make_tuple (take k vs))
  unfolding sub_seq
  front_part v vs zero e l s =
      rw
        (
          e,
          values.as_number-make_number (pos 1) (omega arith),
          values.as_number-make_number (pos 0) (omega arith),
        )
        refl
  front_part v vs (suc k) e l s =
      rw
        (
          e,
          values.as_number-make_number (pos 1) (omega arith),
          values.as_number-make_number (pos (suc k)) (omega arith),
        )
        (ground (arith, slice-front (suc k) vs))

  back_part :
      (v : V) (vs : List V) (k : ℕ)
      → as_tuple v ≡ some vs
      → k ≤ length vs
      → length vs < 2 ^ 31 - 1
      → sub_seq lib values v (make_number (pos (k + 1))) (make_number (pos (length vs)))
        ≡ some (make_tuple (drop k vs))
  unfolding sub_seq
  back_part v vs k e l s =
      rw
        (
          e,
          values.as_number-make_number (pos (k + 1)) (omega arith),
          values.as_number-make_number (pos (length vs)) (omega arith),
        )
        (ground (arith, slice-back k vs, drop_past k vs))

  pub o_symbol-append :
      (lhs rhs : V) (l r : List V)
      → as_tuple lhs ≡ some l
      → as_tuple rhs ≡ some r
      → o_symbol lib values lhs rhs ≡ some (make_tuple (l ++ r))
  unfolding o_symbol
  o_symbol-append lhs rhs l r el er = rw (el, er, append_all-append l r) refl

  joined :
      (l r : List V)
      → o_symbol lib values (make_tuple l) (make_tuple r) ≡ some (make_tuple (l ++ r))
  joined l r =
      o_symbol-append (make_tuple l) (make_tuple r) l r (values.as_tuple-make_tuple l)
        (values.as_tuple-make_tuple r)

  pub tail_part :
      (v w : V) (vs : List V)
      → as_tuple v ≡ some (w ∷ vs)
      → tail lib values v ≡ some (make_tuple vs)
  unfolding tail
  tail_part v w vs e = rw e (ground (arith, slice-back 1 (w ∷ vs)))

  append_part : (w : V) → append lib values (make_tuple []) w ≡ some (make_tuple (w ∷ []))
  unfolding append
  append_part w = rw (values.as_tuple-make_tuple []) refl

  pub head_part : (v w : V) (vs : List V) → as_tuple v ≡ some (w ∷ vs) → head lib values v ≡ some w
  unfolding head
  head_part v w vs e = rw e refl

  -- Cutting a tuple, whose length and one more are `int32` numbers, anywhere with `SubSeq`, also at its ends, and joining the parts with `\o` yields
  -- the tuple again.
  pub sub_seq-o_symbol :
      (v : V) (vs : List V) (k : ℕ)
      → as_tuple v ≡ some vs
      → k ≤ length vs
      → length vs < 2 ^ 31 - 1
      → (sub_seq lib values v (make_number (pos 1)) (make_number (pos k)) >>= λ front.
          sub_seq lib values v (make_number (pos (k + 1))) (make_number (pos (length vs)))
          >>= λ back. o_symbol lib values front back)
        ≡ some (make_tuple vs)
  sub_seq-o_symbol v vs k e l s =
      rw (front_part v vs k e l s, back_part v vs k e l s)
        (joined (take k vs) (drop k vs) ∙ ap (λ t. some (make_tuple t)) (take-append-drop k vs))

  -- The head of a tuple that is not empty, as a tuple of its own, joined with its tail is the tuple;
  -- and the empty tuple has neither head nor tail.
  pub head-tail :
      (v : V) (vs : List V)
      → as_tuple v ≡ some vs
      → ((vs ≡ []) × (head lib values v ≡ none) × (tail lib values v ≡ none))
        ⊎ ((head lib values v >>= λ first. tail lib values v >>= λ rest.
              append lib values (make_tuple []) first >>= λ front. o_symbol lib values front rest)
            ≡ some (make_tuple vs))
  unfolding head tail
  head-tail v [] e = inl (refl, rw e refl, rw e refl)
  head-tail v (w ∷ vs) e =
      inr (rw (head_part v w vs e, tail_part v w vs e, append_part w) (joined (w ∷ []) vs))
