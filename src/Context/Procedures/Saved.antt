-- ===== src/Context/Procedures/Saved.antt =====
-- What a call saves in its frame.
use text.Mathlib.Text.{◌==◌ as str_eq}
use text.Mathlib.TextEquality.{eq_iff}
use text.Mathlib.TextPositions.{eq_refl}
use pgo_eval.Base.{
  String, ◌≡◌, refl, sym, ap, ◌∙◌, ◌⊎◌, inl, inr, Bool, true, false, ◌||◌, some, List, [], ◌∷◌,
  if◌then◌else◌, >>=-eq-some, Bool-cases, arith,
}
use pgo_eval.Hasher.{Hasher, equal_symm}
use pgo_eval.Maps.{MapLib}
use pgo_eval.Tla.Values.{Values}
use pgo_eval.Context.Sections.{contains}
use pgo_eval.Context.Procedures.{Store, put, ensure_local, Tables, pass_arg, rest_args, save_vars}

some_inj {ℓ} : {A : Type ℓ} (a b : A) → some a ≡ some b → a ≡ b
some_inj a b e = cc

pub or_right : (a : Bool) {b : Bool} → b ≡ true → (a || b) ≡ true
or_right true e = refl
or_right false e = e

pub same_name : (a b : String) → str_eq a b ≡ true → a ≡ b
same_name a b e = (eq_iff a b).0 e

module _ {V : Type 0} ⦃h : Hasher V⦄ (lib : MapLib V) (values : Values lib) (nil_value : V)
    (tables : Tables V) where
  open lib use {Map, get, set}
  open values use {make_string}

  pub equal-names : (x y : String) → h.equal (make_string x) (make_string y) ≡ str_eq x y
  equal-names x y = elim (Bool-cases (h.equal (make_string x) (make_string y))) [
    | inl same ↦
        let e = values.equal-make_string x (make_string y) same in
        let x_is = values.as_string-make_string x in
        let y_is = values.as_string-make_string y in
        let names : y ≡ x = some_inj y x (cc) in rw same (sym ((eq_iff x y).1 (sym names)))
    | inr other ↦ elim (Bool-cases (str_eq x y)) [
      | inr differ ↦ other ∙ sym differ
      | inl same ↦ let r = h.equal_refl (make_string x) in absurd (let e = same_name x y same in cc)
    ]
  ]

  ensure_own : (name : String) (s : Store V) → ensure_local nil_value name s name ≡ some nil_value
  unfolding ensure_local put
  ensure_own name s = rw (eq_refl name) refl

  -- One round of the loop, at the variable `y`.
  saved_step :
      (name y : String) (names : List String) (b : Map V) (v : V)
      → v ≡ nil_value
      → (if contains y names
          then some nil_value
          else get (set b (make_string name) v) (make_string y))
        ≡ (if contains y (name ∷ names) then some nil_value else get b (make_string y))
  saved_step name y names b v value =
      rw (lib.get-set b (make_string name) (make_string y) v, equal-names y name, value)
        (ground arith)

  -- The frame holds the default for every variable of the procedure.
  pub save_vars-saved :
      (names : List String) (args : List V) (b b' : Map V) (s s' : Store V)
      → save_vars lib values nil_value tables names args b s ≡ some (b', s')
      → (y : String)
      → get b' (make_string y)
        ≡ (if contains y names then some nil_value else get b (make_string y))
  unfolding save_vars
  save_vars-saved [] args b b' s s' e y =
      let same_b : b ≡ b' = cc in ap (λ m. get m (make_string y)) (sym same_b)
  save_vars-saved (name ∷ names) args b b' s s' e y =
      let s1 : Store V = ensure_local nil_value name s in
      let (v, r, e1) = >>=-eq-some (s1 name) _ e in
      let (s2, p, e2) = >>=-eq-some (pass_arg lib values nil_value tables name args s1) _ e1 in
      let value : v ≡ nil_value = some_inj v nil_value (sym r ∙ ensure_own name s) in
      save_vars-saved names (rest_args lib values nil_value tables args)
        (set b (make_string name) v) b' s2 s' e2 y
      ∙ saved_step name y names b v value

  pub set_key :
      (name : String) (b : Map V) (v0 w k : V)
      → get (set b (make_string name) v0) k ≡ some w
      → (k ≡ make_string name) ⊎ (get b k ≡ some w)
  set_key name b v0 w k e = elim (Bool-cases (h.equal k (make_string name))) [
    | inl same ↦ inl (values.equal-make_string name k (equal_symm (make_string name) k ∙ same))
    | inr other ↦ inr (rw (lib.get-set b (make_string name) k v0, other) at e)
  ]

  -- The keys of the frame are the names of the variables, and those that were there before.
  pub save_vars-keys :
      (names : List String) (args : List V) (b b' : Map V) (s s' : Store V)
      → save_vars lib values nil_value tables names args b s ≡ some (b', s')
      → (k v : V) → get b' k ≡ some v
      → ((x : String) × (k ≡ make_string x) × (contains x names ≡ true))
        ⊎ ((w : V) × (get b k ≡ some w))
  unfolding save_vars
  save_vars-keys [] args b b' s s' e k v g = let same_b : b ≡ b' = cc in inr (v, rw same_b g)
  save_vars-keys (name ∷ names) args b b' s s' e k v g =
      let s1 : Store V = ensure_local nil_value name s in
      let (v0, r, e1) = >>=-eq-some (s1 name) _ e in
      let (s2, p, e2) = >>=-eq-some (pass_arg lib values nil_value tables name args s1) _ e1 in
      elim (save_vars-keys names (rest_args lib values nil_value tables args)
        (set b (make_string name) v0) b' s2 s' e2 k v g) [
          | inl (x, is_x, c) ↦ inl (x, is_x, or_right (str_eq x name) c)
          | inr (w, there) ↦ elim (set_key name b v0 w k there) [
            | inl is_name ↦ inl (name, is_name, rw (eq_refl name) refl)
            | inr before ↦ inr (w, before)
          ]
        ]
