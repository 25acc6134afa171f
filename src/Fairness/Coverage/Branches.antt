-- ===== src/Fairness/Coverage/Branches.antt =====
-- distsys/fairness.go: the two guarantees of the policy, for whole attempts of a section.
use text.Mathlib.Text.{◌==◌ as str_eq}
use text.Mathlib.TextEquality.{eq_iff}
use native.Mathlib.Nat.{add-zero, zero-add}
use mathlib.Core.List.{append_assoc}
use pgo_eval.Base.{
  ℕ, ◌+◌, ◌-◌, ◌^◌, ◌<◌, ◌≡◌, ◌⊎◌, inl, inr, refl, ap, subst, String, some, List, [], ◌∷◌, ◌++◌,
  arith, length, dec_lt, ◌>>=◌, ◌∙◌, length-append, Bool-cases,
}
use pgo_eval.Fairness.{CounterRecord, RoundRobin, matches, begin_critical_section}
use pgo_eval.Fairness.Radix.{
  AllFit, SameShape, product, value, value-lt-product, product-SameShape, increment-Stepped, counts,
  counts-eq_of_value,
}
use pgo_eval.Fairness.Next.{visit, next-visit}
use pgo_eval.Fairness.Coverage.{
  Plan, PlanFits, choices, attempt, attempts, Follows, at, IsReady, length-snoc, reach,
  SameShape-trans, SameShape-sym,
}

-- The entry that a call uses belongs to its branching point, and what it keeps still fits.
record Visited (id : String) (ceiling : ℕ) (v : CounterRecord × List CounterRecord) : Type 0 where
  same_id : v.0.id ≡ id
  same_ceiling : v.0.ceiling ≡ ceiling
  fit : AllFit (v.0 ∷ v.1)

visit-Visited :
    (id : String) (ceiling random : ℕ) (back : List CounterRecord)
    → 0 < ceiling
    → ceiling < 2 ^ 64
    → AllFit back
    → Visited id ceiling (visit id ceiling random back)
unfolding visit matches
visit-Visited id ceiling random [] pos wide fit = record {
  same_id = refl;
  same_ceiling = refl;
  fit = (record { below = omega arith; wide = wide }, tt);
}
visit-Visited id ceiling random (r ∷ rs) pos wide fit = elim (Bool-cases (matches id ceiling r)) [
  | inl same ↦
      rw same (record {
        same_id = ground (arith, eq_iff r.id id);
        same_ceiling = ground arith;
        fit = fit;
      })
  | inr other ↦ rw other (record {
    same_id = refl;
    same_ceiling = refl;
    fit = (record { below = omega arith; wide = wide }, tt);
  })
]

record Chosen (plan : Plan) (random : ℕ → ℕ) (pc : String) (front back : List CounterRecord)
    : Type 0 where
  es : List CounterRecord
  rest : List CounterRecord
  run :
      choices plan random (at pc (front ++ back) (length front))
      ≡ some (counts es, at pc (front ++ (es ++ rest)) (length front + length es))
  follows : Follows plan es
  fit : AllFit (es ++ rest)

-- The calls of a body never panic, whatever stack they find.
choices_total :
    (plan : Plan) (random : ℕ → ℕ) (pc : String) (front back : List CounterRecord)
    → PlanFits plan
    → AllFit back
    → Chosen plan random pc front back
unfolding choices
choices_total [] random pc front back p fit = record {
  es = [];
  rest = back;
  run = rw add-zero;
  follows = tt;
  fit = fit;
}
choices_total ((id, ceiling) ∷ plan) random pc front back p fit =
    let n = random (length front) in
    let v = visit id ceiling n back in
    let seen = visit-Visited id ceiling n back p.0 p.1 fit in
    let step = next-visit id ceiling n front pc back p.0 fit in
    let ih = choices_total plan random pc (front ++ v.0 ∷ []) v.1 p.2 seen.fit.1 in
    let run =
      rw
        (
          append_assoc front (v.0 ∷ []) v.1,
          append_assoc front (v.0 ∷ []) (ih.es ++ ih.rest),
          length-snoc front v.0 (length ih.es),
          length-append front (v.0 ∷ []),
        )
        at ih.run in
    record {
      es = v.0 ∷ ih.es;
      rest = ih.rest;
      run = rw (step, ◌>>=◌, run, ◌>>=◌);
      follows = (seen.same_id, seen.same_ceiling, ih.follows);
      fit = (seen.fit.0, ih.fit);
    }

increment_begin :
    (pc : String) (cnt : RoundRobin)
    → AllFit cnt.counter_stack
    → (stack : List CounterRecord) × (begin_critical_section pc cnt ≡ some (at pc stack 0))
      × AllFit stack
unfolding begin_critical_section
increment_begin pc cnt fit = elim (Bool-cases (str_eq pc cnt.pc)) [
  | inl same ↦
      let (stack, carry, run, step) = increment-Stepped cnt.counter_stack fit in
      (stack, rw (same, run, ◌>>=◌), step.fit)
  | inr other ↦
      let (stack, carry, run, step) = increment-Stepped [] tt in
      (stack, rw (other, run, ◌>>=◌), step.fit)
]

abbrev pub ChoicesFit : Plan → List ℕ → Type 0
ChoicesFit [] [] = Unit {0}
ChoicesFit [] (n ∷ ns) = ⊥
ChoicesFit ((id, ceiling) ∷ plan) [] = ⊥
ChoicesFit ((id, ceiling) ∷ plan) (n ∷ ns) = (n < ceiling) × ChoicesFit plan ns

counts-ChoicesFit :
    (plan : Plan) (es rest : List CounterRecord)
    → Follows plan es
    → AllFit (es ++ rest)
    → ChoicesFit plan (counts es)
counts-ChoicesFit [] [] rest f fit = tt
counts-ChoicesFit [] (e ∷ es) rest f fit = elim f [ ]
counts-ChoicesFit ((id, ceiling) ∷ plan) [] rest f fit = elim f [ ]
counts-ChoicesFit ((id, ceiling) ∷ plan) (e ∷ es) rest f fit =
    (rw f.1 at fit.0.below, counts-ChoicesFit plan es rest f.2 fit.1)

-- For every stack whose counts fit their ceilings, every body whose ceilings are positive and below
-- 2 ^ 64, and every random source, an attempt does not panic; each choice is below its ceiling; and
-- the stack then begins with one fitting entry for each branching point of the body, in order.
pub attempt_total :
    (pc : String) (plan : Plan) (random : ℕ → ℕ) (cnt : RoundRobin)
    → PlanFits plan
    → AllFit cnt.counter_stack
    → (ns : List ℕ) × (cnt' : RoundRobin) × (attempt pc plan random cnt ≡ some (ns, cnt'))
      × ChoicesFit plan ns
      × ((es : List CounterRecord) × (rest : List CounterRecord) × IsReady pc plan cnt' es rest)
unfolding attempt
attempt_total pc plan random cnt p fit =
    let (stack, begun, fit') = increment_begin pc cnt fit in
    let c = choices_total plan random pc [] stack p fit' in
    (
      counts c.es,
      at pc (c.es ++ c.rest) (length c.es),
      rw (begun, ◌>>=◌) (rw zero-add at c.run),
      counts-ChoicesFit plan c.es c.rest c.follows c.fit,
      (c.es, c.rest, record { here = refl; stack = refl; follows = c.follows; fit = c.fit }),
    )

-- The stack on which the plan's entries have the wanted counts.
aim : List CounterRecord → List ℕ → List CounterRecord
aim [] ns = []
aim (e ∷ es) [] = []
aim (e ∷ es) (n ∷ ns) = record e { count = n } ∷ aim es ns

SameShape-refl : (rs : List CounterRecord) → SameShape rs rs
SameShape-refl [] = tt
SameShape-refl (r ∷ rs) = (refl, refl, SameShape-refl rs)

record Aimed (plan : Plan) (es rest : List CounterRecord) (ns : List ℕ) : Type 0 where
  shape : SameShape (es ++ rest) (aim es ns ++ rest)
  follows : Follows plan (aim es ns)
  fit : AllFit (aim es ns ++ rest)
  reads : counts (aim es ns) ≡ ns

aim-Aimed :
    (plan : Plan) (es rest : List CounterRecord) (ns : List ℕ)
    → Follows plan es
    → AllFit (es ++ rest)
    → ChoicesFit plan ns
    → Aimed plan es rest ns
unfolding aim
aim-Aimed [] [] rest [] f fit c = record {
  shape = SameShape-refl rest;
  follows = tt;
  fit = fit;
  reads = refl;
}
aim-Aimed [] (e ∷ es) rest ns f fit c = elim f [ ]
aim-Aimed [] [] rest (n ∷ ns) f fit c = elim c [ ]
aim-Aimed ((id, ceiling) ∷ plan) [] rest ns f fit c = elim f [ ]
aim-Aimed ((id, ceiling) ∷ plan) (e ∷ es) rest [] f fit c = elim c [ ]
aim-Aimed ((id, ceiling) ∷ plan) (e ∷ es) rest (n ∷ ns) f fit c =
    let a = aim-Aimed plan es rest ns f.2 fit.1 c.1 in
    record {
      shape = (refl, refl, a.shape);
      follows = (f.0, f.1, a.follows);
      fit = (record { below = rw f.1 c.0; wide = fit.0.wide }, a.fit);
      reads = ap (◌∷◌ n) a.reads;
    }

counts-cancel :
    (plan : Plan) (es fs rest rest' : List CounterRecord)
    → Follows plan es
    → Follows plan fs
    → counts (es ++ rest) ≡ counts (fs ++ rest')
    → counts es ≡ counts fs
counts-cancel [] [] [] rest rest' f g e = refl
counts-cancel [] (x ∷ es) fs rest rest' f g e = elim f [ ]
counts-cancel [] [] (y ∷ fs) rest rest' f g e = elim g [ ]
counts-cancel ((id, ceiling) ∷ plan) [] fs rest rest' f g e = elim f [ ]
counts-cancel ((id, ceiling) ∷ plan) (x ∷ es) [] rest rest' f g e = elim g [ ]
counts-cancel ((id, ceiling) ∷ plan) (x ∷ es) (y ∷ fs) rest rest' f g e =
    let tails : counts (es ++ rest) ≡ counts (fs ++ rest') = cc in
    let ih = counts-cancel plan es fs rest rest' f.2 g.2 tails in cc

-- The attempts still to make before the one that shows the number `t`, `v` being the last shown.
wait : (v t p : ℕ) → v < p → t < p → (d : ℕ) × (d < p) × ((v + d + 1 ≡ t) ⊎ (v + d + 1 ≡ t + p))
wait v t p hv ht = elim (dec_lt v t) [
  | yes lt ↦ (t - v - 1, omega arith, inl (omega arith))
  | no ge ↦ (t + p - v - 1, omega arith, inr (omega arith))
]

-- Round robin is fair. For a body whose ceilings are positive and below 2 ^ 64, from a state that
-- one attempt of it leaves (`IsReady`), and as long as it asks for the same branching points, every
-- combination of choices below the ceilings comes up in one of the next attempts, of which there
-- are at most as many as the product of the ceilings on the stack.
pub every_branch_taken :
    (pc : String) (plan : Plan) (random : ℕ → ℕ) (cnt : RoundRobin) (es rest : List CounterRecord)
    (wanted : List ℕ)
    → PlanFits plan
    → IsReady pc plan cnt es rest
    → ChoicesFit plan wanted
    → (n : ℕ) × (n < product (es ++ rest))
      × ((cnt' : RoundRobin) × (attempts n pc plan random cnt ≡ some (wanted, cnt')))
every_branch_taken pc plan random cnt es rest wanted p ready c =
    let a = aim-Aimed plan es rest wanted ready.follows ready.fit c in
    let goal = value (aim es wanted ++ rest) in
    let radix = product-SameShape (es ++ rest) (aim es wanted ++ rest) a.shape in
    let below = rw (← radix) at (value-lt-product (aim es wanted ++ rest) a.fit) in
    let (n, few, far) =
      wait (value (es ++ rest)) goal (product (es ++ rest))
        (value-lt-product (es ++ rest) ready.fit) below in
    let r = reach n pc plan random cnt es rest goal p ready far below in
    let shape =
      SameShape-trans (r.es' ++ r.rest') (es ++ rest) (aim es wanted ++ rest)
        (SameShape-sym (es ++ rest) (r.es' ++ r.rest') r.shape) a.shape in
    let same =
      counts-eq_of_value (r.es' ++ r.rest') (aim es wanted ++ rest) shape r.ready.fit a.fit
        r.arrived in
    let seen =
      counts-cancel plan r.es' (aim es wanted) r.rest' rest r.ready.follows a.follows same
      ∙ a.reads in
    (n, few, (r.cnt', subst (λ ns. attempts n pc plan random cnt ≡ some (ns, r.cnt')) seen r.run))
