-- ===== src/Tests/Attempts.antt =====
-- Examples for critical sections over two local resources.
use text.Mathlib.Text.{◌==◌ as str_eq}
use pgo_eval.Base.{
  ℕ, ◌+◌, ◌≡◌, refl, String, Bool, true, false, none, some, List, [], if◌then◌else◌, Bool-cases,
  inl, inr,
}
use pgo_eval.Resources.Local
use pgo_eval.Resources.Local.{Local}
use pgo_eval.Resources.Local.Indexed.{local_resource}
use pgo_eval.Context.Sections.Contract.{Resource}
use pgo_eval.Context.Sections.{
  Body, done, read_then, write_then, ensure_then, Context, ensure_resource, attempt, is_some,
}
use pgo_eval.Context.Sections.Run.{BodyFits}
use pgo_eval.Context.Sections.Atomic.{AtRest, AllOrNothing, attempt-AllOrNothing}

-- Numbers are not indexed.
abbrev locals : Resource ℕ (Local ℕ) ℕ
locals = local_resource 0 (λ f i. f) (λ f is v. v)

abbrev cell : ℕ → Local ℕ
cell n = record { has_old_value = false; value = n; old_value = 0 }

abbrev two_cells : Context locals
two_cells = record {
  resources =
      λ k. if str_eq k "x" then some (cell 1) else if str_eq k "y" then some (cell 2) else none;
  dirty = [];
  named = λ k. true;
}

-- `y := x + 1`, and a variable `p` that a call makes new and sets to `x`
abbrev body : Body ℕ (Local ℕ)
body =
    read_then "x" []
      (λ v. write_then "y" [] (v + 1) (ensure_then "p" (cell 0) (write_then "p" [] v done)))

abbrev same_order : List String → List String
same_order hs = hs

two_cells-AtRest : AtRest locals two_cells
unfolding local_resource Local.read_value
two_cells-AtRest = record {
  dirty = refl;
  clean = λ h. elim (Bool-cases (str_eq h "x")) [
    | inl x ↦ rw x
    | inr e ↦ elim (Bool-cases (str_eq h "y")) [ inl y ↦ rw (e, y) | inr other ↦ rw (e, other) ]
  ];
}

body-BodyFits : BodyFits locals two_cells body
unfolding is_some local_resource ensure_resource Local.read_value
body-BodyFits = ((refl, refl), λ v. ((refl, refl), (refl, ((refl, refl), tt))))

attempt-AllOrNothing_example :
    (ok : Bool) × (ctx : Context locals) × (attempt locals same_order body two_cells
      ≡ some (ok, ctx))
    × AtRest locals ctx
    × AllOrNothing locals body two_cells ok ctx
attempt-AllOrNothing_example =
    attempt-AllOrNothing locals same_order body two_cells (λ hs h. refl) two_cells-AtRest
      body-BodyFits
