-- ===== src/Tla/Quantifiers/Meaning.antt =====
-- What the constructs that range over several sets compute.
use pgo_eval.Base.{
  ◌≡◌, refl, ◌⊎◌, inl, inr, Bool, true, false, not, ◌||◌, Option, some, List, [], ◌∷◌, ◌++◌, ◌>>=◌,
  arith, Bool-cases,
}
use pgo_eval.Hasher.{Hasher}
use pgo_eval.Maps.{MapLib}
use pgo_eval.Tla.Values.{Values}
use pgo_eval.Tla.Sets.{has, in_symbol}
use pgo_eval.Tla.Sets.Algebra.{has-set}
use pgo_eval.Tla.Quantifiers.{
  until_false, until_true, universal_from, existential_from, for_each, build_from, sets_of,
  quantified_universal, quantified_existential, set_comprehension, cross_product,
}

module _ {V : Type 0} where
  abbrev All : (V → Type 0) → List V → Type 0
  All P [] = Unit
  All P (x ∷ xs) = P x × All P xs

  abbrev Any : (V → Type 0) → List V → Type 0
  Any P [] = ⊥
  Any P (x ∷ xs) = P x ⊎ Any P xs

  -- The test holds of `args` followed by any elements of the sets, one of each.
  abbrev pub Every : List (List V) → List V → (List V → Bool) → Type 0
  Every [] args test = test args ≡ true
  Every (elems ∷ sets) args test = All (λ elem. Every sets (args ++ elem ∷ []) test) elems

  -- It holds of `args` followed by some elements of the sets.
  abbrev pub Somewhere : List (List V) → List V → (List V → Bool) → Type 0
  Somewhere [] args test = test args ≡ true
  Somewhere (elems ∷ sets) args test = Any (λ elem. Somewhere sets (args ++ elem ∷ []) test) elems

  until_false-All :
      (f : V → Option Bool) (P Q : V → Type 0)
      → ((x : V) → (f x ≡ some true) × P x ⊎ (f x ≡ some false) × Q x)
      → (xs : List V)
      → (until_false xs f ≡ some true) × All P xs ⊎ (until_false xs f ≡ some false) × Any Q xs
  unfolding until_false
  until_false-All f P Q split [] = inl (refl, tt)
  until_false-All f P Q split (x ∷ xs) = elim (split x) [
    | inr (e, q) ↦ inr (rw e refl, inl q)
    | inl (e, p) ↦ elim (until_false-All f P Q split xs) [
      | inl (r, ps) ↦ inl (rw e r, (p, ps))
      | inr (r, qs) ↦ inr (rw e r, inr qs)
    ]
  ]

  until_true-Any :
      (f : V → Option Bool) (P Q : V → Type 0)
      → ((x : V) → (f x ≡ some true) × P x ⊎ (f x ≡ some false) × Q x)
      → (xs : List V)
      → (until_true xs f ≡ some true) × Any P xs ⊎ (until_true xs f ≡ some false) × All Q xs
  unfolding until_true
  until_true-Any f P Q split [] = inr (refl, tt)
  until_true-Any f P Q split (x ∷ xs) = elim (split x) [
    | inl (e, p) ↦ inl (rw e refl, inl p)
    | inr (e, q) ↦ elim (until_true-Any f P Q split xs) [
      | inl (r, ps) ↦ inl (rw e r, inr ps)
      | inr (r, qs) ↦ inr (rw e r, (q, qs))
    ]
  ]

  module _ (pred : List V → Option Bool) (test : List V → Bool)
      (total : (args : List V) → pred args ≡ some (test args)) where
    universal_from-Every :
        (sets : List (List V)) (args : List V)
        → (universal_from sets args pred ≡ some true) × Every sets args test
          ⊎ (universal_from sets args pred ≡ some false) × Somewhere sets args (λ a. not (test a))
    unfolding universal_from
    universal_from-Every [] args = elim (Bool-cases (test args)) [
      | inl holds ↦ inl (rw (total args, holds) refl, holds)
      | inr fails ↦ inr (rw (total args, fails) refl, rw fails refl)
    ]
    universal_from-Every (elems ∷ sets) args =
        until_false-All (λ elem. universal_from sets (args ++ elem ∷ []) pred)
          (λ elem. Every sets (args ++ elem ∷ []) test)
          (λ elem. Somewhere sets (args ++ elem ∷ []) (λ a. not (test a)))
          (λ elem. universal_from-Every sets (args ++ elem ∷ [])) elems

    existential_from-Somewhere :
        (sets : List (List V)) (args : List V)
        → (existential_from sets args pred ≡ some true) × Somewhere sets args test
          ⊎ (existential_from sets args pred ≡ some false) × Every sets args (λ a. not (test a))
    unfolding existential_from
    existential_from-Somewhere [] args = elim (Bool-cases (test args)) [
      | inl holds ↦ inl (rw (total args, holds) refl, holds)
      | inr fails ↦ inr (rw (total args, fails) refl, rw fails refl)
    ]
    existential_from-Somewhere (elems ∷ sets) args =
        until_true-Any (λ elem. existential_from sets (args ++ elem ∷ []) pred)
          (λ elem. Somewhere sets (args ++ elem ∷ []) test)
          (λ elem. Every sets (args ++ elem ∷ []) (λ a. not (test a)))
          (λ elem. existential_from-Somewhere sets (args ++ elem ∷ [])) elems

module _ {V : Type 0} ⦃h : Hasher V⦄ (lib : MapLib V) (values : Values lib) where
  open values use {make_bool, make_tuple}

  -- Over values that are sets, with a predicate that never panics: `\A` is true where the predicate
  -- holds of every choice of elements, and false where it fails of some; `\E` is true where it holds
  -- of some choice, and false where it fails of every one.
  pub quantifiers-meaning :
      (vs : List V) (sets : List (List V)) (pred : List V → Option Bool) (test : List V → Bool)
      → sets_of lib values vs ≡ some sets
      → ((args : List V) → pred args ≡ some (test args))
      → ((quantified_universal lib values vs pred ≡ some (make_bool true)) × Every sets [] test
          ⊎ (quantified_universal lib values vs pred ≡ some (make_bool false))
            × Somewhere sets [] (λ a. not (test a)))
        × ((quantified_existential lib values vs pred ≡ some (make_bool true))
              × Somewhere sets [] test
            ⊎ (quantified_existential lib values vs pred ≡ some (make_bool false))
              × Every sets [] (λ a. not (test a)))
  unfolding quantified_universal quantified_existential
  quantifiers-meaning vs sets pred test e total = (
    elim (universal_from-Every pred test total sets []) [
      | inl (u, p) ↦ inl (rw (e, u) refl, p)
      | inr (u, p) ↦ inr (rw (e, u) refl, p)
    ],
    elim (existential_from-Somewhere pred test total sets []) [
      | inl (u, p) ↦ inl (rw (e, u) refl, p)
      | inr (u, p) ↦ inr (rw (e, u) refl, p)
    ],
  )

  -- A part of a loop that puts values into a set, and whether one of them equals `x`.
  abbrev Adds : V → (lib.Map Bool → Option (lib.Map Bool)) → Option Bool → Type 0
  Adds x build found =
      (b : Bool) × (found ≡ some b)
      × ((m : lib.Map Bool)
          → (m' : lib.Map Bool) × (build m ≡ some m')
            × (has lib values m' x ≡ (has lib values m x || b)))

  for_each-Adds :
      (x : V) (build : V → lib.Map Bool → Option (lib.Map Bool)) (found : V → Option Bool)
      → ((elem : V) → Adds x (build elem) (found elem))
      → (elems : List V) → Adds x (for_each elems build) (until_true elems found)
  unfolding for_each until_true
  for_each-Adds x build found each [] = (false, refl, λ m. (m, refl, ground arith))
  for_each-Adds x build found each (elem ∷ elems) =
      let (b, e, step) = each elem in
      let (c, f, rest) = for_each-Adds x build found each elems in
      (
        b || c,
        rw (e, f) (ground arith),
        λ m.
            let (m1, e1, h1) = step m in let (m2, e2, h2) = rest m1 in (m2, rw e1 e2, ground arith),
      )

  build_from-Adds :
      (x : V) (f : List V → V) (body : List V → lib.Map Bool → Option (lib.Map Bool))
      → ((args : List V) (m : lib.Map Bool) → body args m ≡ some (lib.set m (f args) true))
      → (sets : List (List V)) (args : List V)
      → Adds x
          (build_from sets args body)
          (existential_from sets args (λ a. some (h.equal x (f a))))
  unfolding build_from existential_from
  build_from-Adds x f body adds [] args = (
    h.equal x (f args),
    refl,
    λ m. (lib.set m (f args) true, adds args m, has-set lib values m (f args) x true),
  )
  build_from-Adds x f body adds (elems ∷ sets) args =
      for_each-Adds x (λ elem. build_from sets (args ++ elem ∷ []) body)
        (λ elem. existential_from sets (args ++ elem ∷ []) (λ a. some (h.equal x (f a))))
        (λ elem. build_from-Adds x f body adds sets (args ++ elem ∷ [])) elems

  -- Over values that are sets, with a body that never panics: a value is in `{f(y) : y \in S}` exactly
  -- if `\E y \in S` that it equals `f(y)`, and in a product of sets exactly if it equals the tuple of
  -- some choice of elements, also for several sets or none.
  pub comprehension-existential :
      (vs : List V) (sets : List (List V)) (body : List V → Option V) (f : List V → V) (x : V)
      → sets_of lib values vs ≡ some sets
      → ((args : List V) → body args ≡ some (f args))
      → ((set_comprehension lib values vs body >>= in_symbol lib values x)
          ≡ quantified_existential lib values vs (λ args. some (h.equal x (f args))))
        × ((cross_product lib values vs >>= in_symbol lib values x)
            ≡ quantified_existential lib values vs (λ args. some (h.equal x (make_tuple args))))
  unfolding set_comprehension cross_product quantified_existential in_symbol
  comprehension-existential vs sets body f x e total =
      let (b, p, build) =
        build_from-Adds x f (λ args m. body args >>= λ v. some (lib.set m v true))
          (λ args m. rw (total args) refl) sets [] in
      let (m, q, r) = build lib.empty in
      let (b', p', build') =
        build_from-Adds x make_tuple (λ args m. some (lib.set m (make_tuple args) true))
          (λ args m. refl) sets [] in
      let (m', q', r') = build' lib.empty in
      (
        rw (e, p, q, values.as_set-make_set) (rw (r, lib.get-empty {V = Bool} x) refl),
        rw (e, p', q', values.as_set-make_set) (rw (r', lib.get-empty {V = Bool} x) refl),
      )
