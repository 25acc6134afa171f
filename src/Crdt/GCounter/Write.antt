-- ===== src/Crdt/GCounter/Write.antt =====
-- distsys/resources/gcounter.go: `Write` adds to the sum that `Read` returns.
use pgo_eval.Base.{
  ◌≡◌, refl, sym, ap, some, List, [], ◌∷◌, ◌∙◌, ◌>>=◌, arith, Option-cases, inl, inr,
}
use pgo_eval.Base.Int.{ℤ, pos, ◌+ℤ◌, +ℤ_comm, +ℤ_assoc, eq_of_parts}
use pgo_eval.Int32.{wrap, wrap-add, wrap-eq_self, wrap_swap}
use pgo_eval.Hasher.{Hasher}
use pgo_eval.Maps.{MapLib, lookup}
use pgo_eval.Maps.Assoc.{remove, lookup-remove, Distinct-remove}
use pgo_eval.Tla.{TlaValue}
use pgo_eval.Crdt.GCounter.{GCounter, or_zero, total, read, write}
use pgo_eval.Crdt.GCounter.Read.{remove_absent, total_first, total_congr}

zero-+ℤ : (a : ℤ) → pos 0 +ℤ a ≡ a
unfolding ◌+ℤ◌
zero-+ℤ a = ground (arith, eq_of_parts (pos 0 +ℤ a) a)

wrap_zero : (a : ℤ) → wrap (pos 0 +ℤ wrap a) ≡ wrap (pos 0 +ℤ a)
wrap_zero a = ap wrap (+ℤ_comm (pos 0) (wrap a)) ∙ wrap-add a (pos 0) ∙ ap wrap (+ℤ_comm a (pos 0))

module _ {K : Type 0} ⦃h : Hasher K⦄ (lib : MapLib K) where
  open lib use {get, set, entries}

  -- What is added at the start of a sum may be added at its end.
  total_shift :
      (acc n : ℤ) (es : List (K × ℤ))
      → total lib (wrap (acc +ℤ n)) es ≡ wrap (total lib acc es +ℤ n)
  unfolding total
  total_shift acc n [] = refl
  total_shift acc n ((k, v) ∷ es) =
      ap (λ a. total lib a es) (wrap_swap acc n v) ∙ total_shift (wrap (acc +ℤ v)) n es

  -- The sum, with the count of one node in front.
  total-old :
      (c : GCounter lib) (id : K)
      → total lib (wrap (pos 0 +ℤ or_zero (get c id))) (remove (entries c) id)
        ≡ total lib (pos 0) (entries c)
  total-old c id = elim (Option-cases (get c id)) [
    | inl e ↦ rw (
      e,
      zero-+ℤ (pos 0),
      wrap-eq_self (pos 0) (omega arith),
      remove_absent id (entries c) (sym (lib.get-entries c id) ∙ e),
    )
    | inr (v, e) ↦ rw e (
        sym (
          total_first lib (pos 0) id v (entries c) (lib.entries-Distinct c)
            (sym (lib.get-entries c id) ∙ e)))
  ]

  -- `Write` of a number does not panic, and adds the number to what `Read` returns, with the
  -- wrap-around of `int32`, whichever node writes.
  pub read-write :
      (tla : TlaValue K) (id value : K) (n : ℤ) (c : GCounter lib)
      → tla.as_number value ≡ some n
      → (c' : GCounter lib) × (write lib tla id value c ≡ some c')
        × (read lib tla c' ≡ tla.make_number (wrap (total lib (pos 0) (entries c) +ℤ n)))
  unfolding write read
  read-write tla id value n c number =
      let old = or_zero (get c id) in
      let c' = set c id (wrap (old +ℤ n)) in
      let written : lookup id (entries c') ≡ some (wrap (old +ℤ n)) =
        sym (lib.get-entries c' id) ∙ rw (lib.get-set c id id (wrap (old +ℤ n)), h.equal_refl id) in
      let rest : (j : K) → lookup j (remove (entries c') id) ≡ lookup j (remove (entries c) id) =
        λ j.
          rw
            (
              lookup-remove,
              lookup-remove,
              ← lib.get-entries c' j,
              ← lib.get-entries c j,
              lib.get-set c id j (wrap (old +ℤ n)),
            )
            (ground arith) in
      (
        c',
        rw (number, ◌>>=◌),
        ap tla.make_number (
            total_first lib (pos 0) id (wrap (old +ℤ n)) (entries c') (lib.entries-Distinct c')
              written
            ∙ total_congr lib (wrap (pos 0 +ℤ wrap (old +ℤ n))) (remove (entries c') id)
                (remove (entries c) id) (Distinct-remove (entries c') id (lib.entries-Distinct c'))
                (Distinct-remove (entries c) id (lib.entries-Distinct c)) rest
            ∙ ap (λ a. total lib a (remove (entries c) id))
                (wrap_zero (old +ℤ n)
                  ∙ ap wrap (sym (+ℤ_assoc (pos 0) old n))
                  ∙ sym (wrap-add (pos 0 +ℤ old) n))
            ∙ total_shift (wrap (pos 0 +ℤ old)) n (remove (entries c) id)
            ∙ ap (λ a. wrap (a +ℤ n)) (total-old c id)),
      )
