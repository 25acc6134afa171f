-- ===== src/Context/Procedures/Restore.antt =====
-- What the loop of a return leaves in the variables.
use text.Mathlib.Text.{◌==◌ as str_eq}
use pgo_eval.Base.{
  String, ◌≡◌, refl, ap, ◌∙◌, inl, inr, Option, none, some, List, [], ◌∷◌, Bool-cases,
}
use pgo_eval.Hasher.{Hasher}
use pgo_eval.Maps.{MapLib, lookup, Distinct}
use pgo_eval.Maps.Folds.{lookup_congr}
use pgo_eval.Tla.Values.{Values}
use pgo_eval.Context.Procedures.{Store, put, write, Tables, restore}
use pgo_eval.Context.Procedures.Saved.{equal-names}

module _ {V : Type 0} ⦃h : Hasher V⦄ (lib : MapLib V) (values : Values lib) (nil_value : V)
    (tables : Tables V) where
  open lib use {Map, empty, get, set, entries}
  open values use {as_string, make_string, as_tuple, as_function, make_function, make_tuple}

  -- Every entry is for a variable that exists.
  abbrev pub Restorable : List (V × V) → Store V → Type 0
  Restorable [] s = Unit
  Restorable ((k, v) ∷ es) s =
      ((x : String) × (k ≡ make_string x) × (w : V) × (s x ≡ some w)) × Restorable es s

  pub put_there :
      (name x : String) (v w : V) (s : Store V)
      → s x ≡ some w
      → (w' : V) × (put name v s x ≡ some w')
  unfolding put
  put_there name x v w s e = elim (Bool-cases (str_eq x name)) [
    | inl same ↦ (v, rw same refl)
    | inr other ↦ (w, rw other e)
  ]

  pub Restorable-put :
      (es : List (V × V)) (name : String) (v : V) (s : Store V)
      → Restorable es s
      → Restorable es (put name v s)
  Restorable-put [] name v s r = tt
  Restorable-put ((k, u) ∷ es) name v s ((x, is_x, w, e), rest) =
      let (w', e') = put_there name x v w s e in
      ((x, is_x, w', e'), Restorable-put es name v s rest)

  abbrev pub or_else : Option V → Option V → Option V
  or_else none o = o
  or_else (some v) o = some v

  pub write_lem :
      (x : String) (v w : V) (s : Store V) → s x ≡ some w → write x v s ≡ some (put x v s)
  unfolding write
  write_lem x v w s e = rw e refl

  restore_step :
      (k v w : V) (x : String) (es : List (V × V)) (s : Store V)
      → k ≡ make_string x
      → s x ≡ some w
      → restore lib values nil_value tables ((k, v) ∷ es) s
        ≡ restore lib values nil_value tables es (put x v s)
  unfolding restore
  restore_step k v w x es s is_x e =
      rw (is_x, values.as_string-make_string x, write_lem x v w s e) refl

  restored_entry :
      (k v : V) (x y : String) (es : List (V × V)) (s : Store V)
      → k ≡ make_string x
      → lookup k es ≡ none
      → or_else (lookup (make_string y) es) (put x v s y)
        ≡ or_else (lookup (make_string y) ((k, v) ∷ es)) (s y)
  unfolding put
  restored_entry k v x y es s is_x absent =
      let same_eq : h.equal (make_string y) k ≡ str_eq y x =
        ap (h.equal (make_string y)) is_x ∙ equal-names lib values nil_value tables y x in
      elim (Bool-cases (str_eq y x)) [
        | inl same ↦
            let none_left : lookup (make_string y) es ≡ none =
              lookup_congr (make_string y) k es (same_eq ∙ same) ∙ absent in
            rw (same_eq, same, none_left) refl
        | inr other ↦ rw (same_eq, other) refl
      ]

  pub restore_lem :
      (es : List (V × V)) (s : Store V)
      → Distinct es
      → Restorable es s
      → (r : Store V) × (restore lib values nil_value tables es s ≡ some r)
        × ((y : String) → r y ≡ or_else (lookup (make_string y) es) (s y))
  unfolding restore
  restore_lem [] s d all = (s, refl, λ y. refl)
  restore_lem ((k, v) ∷ es) s d ((x, is_x, w, e), all) =
      let (r, f, g) = restore_lem es (put x v s) d.1 (Restorable-put es x v s all) in
      (r, restore_step k v w x es s is_x e ∙ f, λ y. g y ∙ restored_entry k v x y es s is_x d.0)

  pub Restorable-all :
      (es : List (V × V)) (s : Store V)
      → ((k v : V)
          → lookup k es ≡ some v
          → (x : String) × (k ≡ make_string x) × (w : V) × (s x ≡ some w))
      → Restorable es s
  Restorable-all [] s named = tt
  Restorable-all ((k, v) ∷ es) s named = (
    named k v (rw (h.equal_refl k) refl),
    Restorable-all es s (λ k' v' e. elim (Bool-cases (h.equal k' k)) [
      | inl same ↦ named k' v (rw same refl)
      | inr other ↦ named k' v' (rw other e)
    ]),
  )
