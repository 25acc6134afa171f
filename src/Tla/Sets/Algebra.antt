-- ===== src/Tla/Sets/Algebra.antt =====
-- What the operators on sets say of membership.
use pgo_eval.Base.{
  ◌≡◌, refl, ap, ◌∙◌, ◌↔◌, ◌⊎◌, inl, inr, Bool, true, false, not, ◌&&◌, ◌||◌, Option, none, some,
  List, [], ◌∷◌, if◌then◌else◌, ◌>>=◌, arith, Bool-cases,
}
use pgo_eval.Hasher.{Hasher}
use pgo_eval.Maps.{MapLib, lookup}
use pgo_eval.Maps.Folds.{fold_into, get_congr}
use pgo_eval.Tla.Values.{Values}
use pgo_eval.Tla.Sets.{
  is_some, has, in_symbol, keep_if, intersect, backslash, put_in, union_maps, union, all_in,
  subset_or_equal, refine, set_refinement, choose_from, choose,
}

module _ {V : Type 0} ⦃h : Hasher V⦄ (lib : MapLib V) (values : Values lib) where
  open lib use {Map, empty, get, set, len, entries}
  open values use {as_set, make_set, make_bool}

  has-lookup : (m : Map Bool) (x : V) → has lib values m x ≡ is_some (lookup x (entries m))
  has-lookup m x = ap is_some (lib.get-entries m x)

  has_congr :
      (m : Map Bool) (x y : V) → h.equal x y ≡ true → has lib values m x ≡ has lib values m y
  has_congr m x y e = ap is_some (get_congr lib m x y e)

  -- A loop whose rounds add their element if it passes a test.
  has-fold :
      (step : Map Bool → V → Bool → Map Bool) (test : V → Bool)
      → ((m : Map Bool) (k : V) (w : Bool) (x : V)
          → has lib values (step m k w) x ≡ (has lib values m x || (h.equal x k && test x)))
      → (es : List (V × Bool)) (m : Map Bool) (x : V)
      → has lib values (fold_into lib step m es) x
        ≡ (has lib values m x || (is_some (lookup x es) && test x))
  unfolding fold_into
  has-fold step test adds [] m x = ground arith
  has-fold step test adds ((k, w) ∷ es) m x =
      has-fold step test adds es (step m k w) x ∙ rw (adds m k w x) (ground arith)

  pub has-set :
      (m : Map Bool) (k x : V) (b : Bool)
      → has lib values (set m k b) x ≡ (has lib values m x || h.equal x k)
  has-set m k x b = rw (lib.get-set m k x b) (ground arith)

  has-keep_if :
      (test : V → Bool)
      → ((x y : V) → h.equal x y ≡ true → test x ≡ test y)
      → (m : Map Bool) (k : V) (w : Bool) (x : V)
      → has lib values (keep_if lib values test m k w) x
        ≡ (has lib values m x || (h.equal x k && test x))
  unfolding keep_if
  has-keep_if test congr m k w x = ground (arith, has-set m k x true, congr x k)

  has-keep :
      (test : V → Bool)
      → ((x y : V) → h.equal x y ≡ true → test x ≡ test y)
      → (l : Map Bool) (x : V)
      → has lib values (fold_into lib (keep_if lib values test) empty (entries l)) x
        ≡ (has lib values l x && test x)
  has-keep test congr l x =
      has-fold (keep_if lib values test) test (has-keep_if test congr) (entries l) empty x
      ∙ rw (lib.get-empty {V = Bool} x, has-lookup l x) refl

  has-put_in :
      (m : Map Bool) (k : V) (w : Bool) (x : V)
      → has lib values (put_in lib values m k w) x ≡ (has lib values m x || (h.equal x k && true))
  unfolding put_in
  has-put_in m k w x = ground (arith, has-set m k x true)

  has-union_maps :
      (l r : Map Bool) (x : V)
      → has lib values (union_maps lib values l r) x ≡ (has lib values l x || has lib values r x)
  unfolding union_maps
  has-union_maps l r x = ground (
    arith,
    has-lookup l x,
    has-lookup r x,
    has-fold (put_in lib values) (λ y. true) has-put_in (entries l) r x,
    has-fold (put_in lib values) (λ y. true) has-put_in (entries r) l x,
  )

  -- The union, the intersection and the difference of two sets have the elements that are in one of
  -- them, in both, and in the first only; none of the operators panics.
  pub operators-in :
      (lhs rhs : V) (l r : Map Bool) (x : V)
      → as_set lhs ≡ some l
      → as_set rhs ≡ some r
      → ((union lib values lhs rhs >>= in_symbol lib values x)
          ≡ some (make_bool (has lib values l x || has lib values r x)))
        × ((intersect lib values lhs rhs >>= in_symbol lib values x)
            ≡ some (make_bool (has lib values l x && has lib values r x)))
        × ((backslash lib values lhs rhs >>= in_symbol lib values x)
            ≡ some (make_bool (has lib values l x && not (has lib values r x))))
  unfolding union intersect backslash in_symbol
  operators-in lhs rhs l r x el er = (
    rw (el, er, values.as_set-make_set) (rw (has-union_maps l r x) refl),
    rw (el, er, values.as_set-make_set) (rw (has-keep (has lib values r) (has_congr r) l x) refl),
    rw (el, er, values.as_set-make_set)
        (rw (has-keep (λ v. not (has lib values r v)) (λ y z e. ap not (has_congr r y z e)) l x)
          refl),
  )

  -- Every element of the first set is one of the second.
  abbrev pub Subset : Map Bool → Map Bool → Type 0
  Subset l r = (x : V) → (not (has lib values l x) || has lib values r x) ≡ true

  all_in_sound :
      (r : Map Bool) (es : List (V × Bool)) (x : V)
      → all_in lib values r es ≡ true
      → (not (is_some (lookup x es)) || has lib values r x) ≡ true
  unfolding all_in
  all_in_sound r [] x e = refl
  all_in_sound r ((k, w) ∷ es) x e = ground (arith, has_congr r x k, all_in_sound r es x)

  all_in_complete :
      (r : Map Bool) (es : List (V × Bool))
      → ((x : V) → (not (is_some (lookup x es)) || has lib values r x) ≡ true)
      → all_in lib values r es ≡ true
  unfolding all_in
  all_in_complete r [] a = refl
  all_in_complete r ((k, w) ∷ es) a =
      let rest = all_in_complete r es (λ x. ground (arith, a x)) in
      ground (arith, a k, h.equal_refl k)

  -- `⊆` of two sets is a Boolean, and is true exactly if every element of the first set is one of
  -- the second.
  pub subset_or_equal-Subset :
      (lhs rhs : V) (l r : Map Bool)
      → as_set lhs ≡ some l
      → as_set rhs ≡ some r
      → (b : Bool) × (subset_or_equal lib values lhs rhs ≡ some (make_bool b))
        × ((b ≡ true) ↔ Subset l r)
  unfolding subset_or_equal
  subset_or_equal-Subset lhs rhs l r el er = (
    all_in lib values r (entries l),
    rw (el, er) refl,
    (
      λ e x. rw (has-lookup l x) (all_in_sound r (entries l) x e),
      λ s. all_in_complete r (entries l) (λ x. rw (← has-lookup l x) (s x)),
    ),
  )

  has-refine :
      (pred : V → Option Bool) (test : V → Bool)
      → ((x : V) → pred x ≡ some (test x))
      → (es : List (V × Bool)) (m : Map Bool)
      → refine lib values pred m es ≡ some (fold_into lib (keep_if lib values test) m es)
  unfolding refine fold_into keep_if
  has-refine pred test total [] m = refl
  has-refine pred test total ((k, w) ∷ es) m =
      rw (total k) (has-refine pred test total es (if test k then set m k true else m))

  choose_from_lem :
      (pred : V → Option Bool) (test : V → Bool)
      → ((x : V) → pred x ≡ some (test x))
      → ((x y : V) → h.equal x y ≡ true → test x ≡ test y)
      → (es : List (V × Bool))
      → ((e : V) × (choose_from lib values pred es ≡ some e)
          × (is_some (lookup e es) ≡ true)
          × (test e ≡ true))
        ⊎ ((choose_from lib values pred es ≡ none)
            × ((x : V) → (is_some (lookup x es) && test x) ≡ false))
  unfolding choose_from
  choose_from_lem pred test total congr [] = inr (refl, λ x. refl)
  choose_from_lem pred test total congr ((k, w) ∷ es) = elim (Bool-cases (test k)) [
    | inl yes_k ↦ inl (k, rw (total k, yes_k) refl, rw (h.equal_refl k) refl, yes_k)
    | inr no_k ↦ elim (choose_from_lem pred test total congr es) [
      | inl (e, c, m, t) ↦ inl (e, rw (total k, no_k) c, ground arith, t)
      | inr (c, all) ↦ inr (rw (total k, no_k) c, λ x. ground (arith, all x, congr x k))
    ]
  ]

  -- For a predicate that never panics and does not tell equal values apart, `CHOOSE` over a set
  -- yields an element of the set that satisfies it, or panics where no element does; and `{x \in S :
  -- P(x)}` has the elements that satisfy it.
  pub choose-refinement :
      (v : V) (s : Map Bool) (pred : V → Option Bool) (test : V → Bool)
      → as_set v ≡ some s
      → ((x : V) → pred x ≡ some (test x))
      → ((x y : V) → h.equal x y ≡ true → test x ≡ test y)
      → (((e : V) × (choose lib values v pred ≡ some e)
            × (has lib values s e ≡ true)
            × (test e ≡ true))
          ⊎ ((choose lib values v pred ≡ none)
              × ((x : V) → (has lib values s x && test x) ≡ false)))
        × ((x : V)
            → (set_refinement lib values v pred >>= in_symbol lib values x)
              ≡ some (make_bool (has lib values s x && test x)))
  unfolding choose set_refinement in_symbol
  choose-refinement v s pred test e total congr = (
    elim (choose_from_lem pred test total congr (entries s)) [
      | inl (c, f, m, t) ↦ inl (c, rw e f, rw (has-lookup s c) m, t)
      | inr (f, all) ↦ inr (rw e f, λ x. rw (has-lookup s x) (all x))
    ],
    λ x.
        rw (e, has-refine pred test total (entries s) empty, values.as_set-make_set)
          (rw (has-keep test congr s x) refl),
  )
