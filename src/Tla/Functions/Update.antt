-- ===== src/Tla/Functions/Update.antt =====
-- What an update of a function or a tuple leaves at the keys.
use pgo_eval.Base.{
  ◌≡◌, refl, ap, ◌∙◌, Option, none, some, List, [], ◌∷◌, ◌>>=◌, >>=-eq-some, arith, Option-cases,
  ◌-◌, set as set_elem, length-set, get_elem?-set_self, inl, inr,
}
use pgo_eval.Base.Int.{ℤ, pos_part}
use pgo_eval.Hasher.{Hasher}
use pgo_eval.Maps.{MapLib}
use pgo_eval.Tla.Values.{Values}
use pgo_eval.Tla.Functions.{element, apply_function, keys_helper}

some_inj {ℓ} : {A : Type ℓ} (a b : A) → some a ≡ some b → a ≡ b
some_inj a b e = cc

module _ {V : Type 0} ⦃h : Hasher V⦄ (lib : MapLib V) (values : Values lib) where
  open lib use {Map, get, set}
  open values use {as_number, as_tuple, as_function, make_function, make_tuple}

  -- A value applied to one key after another.
  abbrev pub follow : V → List V → Option V
  follow v [] = some v
  follow v (key ∷ keys) = apply_function lib values v key >>= λ w. follow w keys

  pub apply-get :
      (v key : V) (fn : Map V)
      → as_function v ≡ some fn
      → apply_function lib values v key ≡ get fn key
  unfolding apply_function
  apply-get v key fn e = rw (values.as_tuple-as_function v e, apply_function) (rw e refl)

  pub apply-element :
      (v key : V) (vs : List V)
      → as_tuple v ≡ some vs
      → apply_function lib values v key ≡ element lib values vs key
  unfolding apply_function
  apply-element v key vs e = rw (e, apply_function) refl

  element-set :
      (vs : List V) (key val new : V) (idx : ℤ)
      → as_number key ≡ some idx
      → element lib values vs key ≡ some val
      → element lib values (set_elem vs (pos_part idx - 1) new) key ≡ some new
  unfolding element
  element-set vs key val new idx n e =
      let e' = rw n at e in
      rw (n, length-set vs (pos_part idx - 1) new)
        (ground (arith, get_elem?-set_self vs (pos_part idx - 1) new))

  follow-function :
      (w key val new : V) (keys : List V) (fn : Map V)
      → make_function (set fn key val) ≡ w
      → follow val keys ≡ some new
      → follow w (key ∷ keys) ≡ some new
  follow-function w key val new keys fn e p = rw (← e) (
      rw
        (
          apply-get (make_function (set fn key val)) key (set fn key val)
              (values.as_function-make_function (set fn key val)),
          lib.get-set fn key key val,
          h.equal_refl key,
        )
        p)

  follow-tuple :
      (w key val val' new : V) (keys vs : List V) (idx : ℤ)
      → make_tuple (set_elem vs (pos_part idx - 1) val') ≡ w
      → as_number key ≡ some idx
      → element lib values vs key ≡ some val
      → follow val' keys ≡ some new
      → follow w (key ∷ keys) ≡ some new
  follow-tuple w key val val' new keys vs idx e n g p =
      let vs' : List V = set_elem vs (pos_part idx - 1) val' in
      rw (← e) (
        rw
          (
            apply-element (make_tuple vs') key vs' (values.as_tuple-make_tuple vs'),
            element-set vs key val val' idx n g,
          )
          p)

  keys_helper-follow :
      (v w : V) (keys : List V) (value : V → Option V)
      → keys_helper lib values v keys value ≡ some w
      → (old new : V) × (follow v keys ≡ some old)
        × (value old ≡ some new)
        × (follow w keys ≡ some new)
  unfolding keys_helper
  keys_helper-follow v w [] value e = (v, w, refl, e, refl)
  keys_helper-follow v w (key ∷ keys) value e = elim (Option-cases (as_function v)) [
    | inr (fn, f) ↦
        let (val, g, e1) = >>=-eq-some (get fn key) _ (rw (f, keys_helper) at e) in
        let (val', k, e2) = >>=-eq-some (keys_helper lib values val keys value) _ e1 in
        let (old, new, p, q, r) = keys_helper-follow val val' keys value k in
        (old, new, rw (apply-get v key fn f, g) p, q, follow-function w key val' new keys fn (cc) r)
    | inl no_f ↦
        let (vs, t, e1) = >>=-eq-some (as_tuple v) _ (rw (no_f, keys_helper) at e) in
        let (val, g, e2) = >>=-eq-some (element lib values vs key) _ e1 in
        let (val', k, e3) = >>=-eq-some (keys_helper lib values val keys value) _ e2 in
        let (idx, n, e4) = >>=-eq-some (as_number key) _ e3 in
        let (old, new, p, q, r) = keys_helper-follow val val' keys value k in
        (
          old,
          new,
          rw (apply-element v key vs t, g) p,
          q,
          follow-tuple w key val val' new keys vs idx (cc) n g r,
        )
  ]

  keys_helper-function :
      (v key : V) (keys : List V) (value : V → Option V) (fn : Map V)
      → as_function v ≡ some fn
      → keys_helper lib values v (key ∷ keys) value ≡ (
          get fn key >>= λ val.
          keys_helper lib values val keys value >>= λ val'. some (make_function (set fn key val')))
  unfolding keys_helper
  keys_helper-function v key keys value fn f = rw (f, keys_helper) refl

  keys_helper-tuple :
      (v key : V) (keys : List V) (value : V → Option V) (vs : List V)
      → as_function v ≡ none
      → as_tuple v ≡ some vs
      → keys_helper lib values v (key ∷ keys) value ≡ (
          element lib values vs key >>= λ val. keys_helper lib values val keys value >>= λ val'.
          as_number key >>= λ idx. some (make_tuple (set_elem vs (pos_part idx - 1) val')))
  unfolding keys_helper
  keys_helper-tuple v key keys value vs f t = rw (f, t, keys_helper) refl

  element-number :
      (vs : List V) (key val : V)
      → element lib values vs key ≡ some val
      → (idx : ℤ) × (as_number key ≡ some idx)
  unfolding element
  element-number vs key val e = let (idx, n, f) = >>=-eq-some (as_number key) _ e in (idx, n)

  apply-none :
      (v key : V)
      → as_function v ≡ none
      → as_tuple v ≡ none
      → apply_function lib values v key ≡ none
  unfolding apply_function
  apply-none v key f t = rw (t, apply_function) (rw f refl)

  keys_helper-total :
      (v old new : V) (keys : List V) (value : V → Option V)
      → follow v keys ≡ some old
      → value old ≡ some new
      → (w : V) × (keys_helper lib values v keys value ≡ some w)
  unfolding keys_helper
  keys_helper-total v old new [] value p q = (new, (ap value (some_inj v old p)) ∙ q)
  keys_helper-total v old new (key ∷ keys) value p q =
      let (val, g, p') = >>=-eq-some (apply_function lib values v key) _ p in
      let (val', k) = keys_helper-total val old new keys value p' q in
      elim (Option-cases (as_function v)) [
        | inr (fn, f) ↦ (
          make_function (set fn key val'),
          rw (keys_helper-function v key keys value fn f, rw (apply-get v key fn f) at g, k) refl,
        )
        | inl no_f ↦ elim (Option-cases (as_tuple v)) [
          | inl no_t ↦ absurd (let g' = apply-none v key no_f no_t in cc)
          | inr (vs, t) ↦
              let g' = rw (apply-element v key vs t) at g in
              let (idx, n) = element-number vs key val g' in
              (
                make_tuple (set_elem vs (pos_part idx - 1) val'),
                rw (keys_helper-tuple v key keys value vs no_f t, g', k, n) refl,
              )
        ]
      ]

  -- An update by a path of keys, through functions and tuples nested in any way: if the path leads
  -- to a value and the new value can be computed from it, then the update does not panic, and the
  -- path leads to the new value afterwards.
  pub keys_helper-update :
      (v old new : V) (keys : List V) (value : V → Option V)
      → follow v keys ≡ some old
      → value old ≡ some new
      → (w : V) × (keys_helper lib values v keys value ≡ some w) × (follow w keys ≡ some new)
  keys_helper-update v old new keys value p q =
      let (w, e) = keys_helper-total v old new keys value p q in
      let (old', new', p', q', r) = keys_helper-follow v w keys value e in
      (w, e, r ∙ let same : old' ≡ old = cc in cc)
