-- ===== src/Fairness/Coverage.antt =====
-- distsys/fairness.go: what a whole critical section sees of the policy. `Run` of
-- distsys/mpcalctx.go calls `BeginCriticalSection` once for each attempt, and the body asks for a
-- branch at each of its branching points, listed here with their ceilings.
pub mod Branches
use text.Mathlib.Text.{◌==◌ as str_eq}
use text.Mathlib.TextPositions.{eq_refl}
use native.Mathlib.Nat.{add-zero, zero-add}
use mathlib.Core.List.{append-nil, append_assoc}
use pgo_eval.Base.{
  ℕ, suc, zero, ◌+◌, ◌*◌, ◌^◌, ◌≤◌, ◌<◌, ◌≡◌, ◌⊎◌, inl, inr, refl, sym, ap, subst, String, Option,
  some, List, [], ◌∷◌, ◌++◌, arith, length, dec_lt, ◌>>=◌, true, ◌∙◌, length-append,
}
use pgo_eval.Fairness.{
  CounterRecord, RoundRobin, matches, increment, begin_critical_section, next_fairness_counter,
}
use pgo_eval.Fairness.Radix.{
  Fits, AllFit, SameShape, product, value, value-lt-product, Stepped, increment-Stepped, counts,
  counts-eq_of_value,
}
use pgo_eval.Fairness.Next.{fresh, visit, next-visit}

-- The branching points of a body, in order: identifier and ceiling.
abbrev pub Plan : Type 0
Plan = List (String × ℕ)

abbrev pub PlanFits : Plan → Type 0
PlanFits [] = Unit {0}
PlanFits ((id, ceiling) ∷ plan) = (0 < ceiling) × (ceiling < 2 ^ 64) × PlanFits plan

-- The calls of a body; `random` gives the result of `rand.Uint32()` for each call.
pub choices : Plan → (ℕ → ℕ) → RoundRobin → Option (List ℕ × RoundRobin)
choices [] random cnt = some ([], cnt)
choices ((id, ceiling) ∷ plan) random cnt = do
  (n, cnt') ← next_fairness_counter id ceiling (random cnt.counter_idx) cnt
  (ns, cnt'') ← choices plan random cnt'
  some (n ∷ ns, cnt'')

pub attempt : String → Plan → (ℕ → ℕ) → RoundRobin → Option (List ℕ × RoundRobin)
attempt pc plan random cnt = do cnt' ← begin_critical_section pc cnt; choices plan random cnt'

-- `n` attempts, then one more, whose choices are returned.
pub attempts : ℕ → String → Plan → (ℕ → ℕ) → RoundRobin → Option (List ℕ × RoundRobin)
attempts zero pc plan random cnt = attempt pc plan random cnt
attempts (suc n) pc plan random cnt = do
  (ns, cnt') ← attempt pc plan random cnt
  attempts n pc plan random cnt'

-- The entries belong to the branching points of the plan.
abbrev pub Follows : Plan → List CounterRecord → Type 0
Follows [] [] = Unit {0}
Follows [] (e ∷ es) = ⊥
Follows ((id, ceiling) ∷ plan) [] = ⊥
Follows ((id, ceiling) ∷ plan) (e ∷ es) = (e.id ≡ id) × (e.ceiling ≡ ceiling) × Follows plan es

-- A counter at the start of the calls of a body, or between two of them.
abbrev at : String → List CounterRecord → ℕ → RoundRobin
at pc stack idx = record { pc = pc; counter_stack = stack; counter_idx = idx }

visit_same :
    (id : String) (ceiling random : ℕ) (e : CounterRecord) (es : List CounterRecord)
    → e.id ≡ id
    → e.ceiling ≡ ceiling
    → visit id ceiling random (e ∷ es) ≡ (e, es)
unfolding visit matches
visit_same id ceiling random e es p q = rw (p, q, eq_refl) (ground arith)

length-snoc {ℓ} :
    {A : Type ℓ} (xs : List A) (x : A) (n : ℕ) → length (xs ++ x ∷ []) + n ≡ length xs + suc n
length-snoc xs x n = rw length-append (omega arith)

-- Where the stack follows the plan, the calls read its counts and leave it alone.
choices-Follows :
    (plan : Plan) (random : ℕ → ℕ) (pc : String) (front es rest : List CounterRecord)
    → PlanFits plan
    → Follows plan es
    → AllFit (es ++ rest)
    → choices plan random (at pc (front ++ (es ++ rest)) (length front))
      ≡ some (counts es, at pc (front ++ (es ++ rest)) (length front + length es))
unfolding choices
choices-Follows [] random pc front [] rest p f fit = rw add-zero
choices-Follows [] random pc front (e ∷ es) rest p f fit = elim f [ ]
choices-Follows ((id, ceiling) ∷ plan) random pc front [] rest p f fit = elim f [ ]
choices-Follows ((id, ceiling) ∷ plan) random pc front (e ∷ es) rest p f fit =
    let back = es ++ rest in
    let same = visit_same id ceiling (random (length front)) e back f.0 f.1 in
    let step =
      rw same at (next-visit id ceiling (random (length front)) front pc (e ∷ back) p.0 fit) in
    let ih = choices-Follows plan random pc (front ++ e ∷ []) es rest p.2 f.2 fit.1 in
    let one : length (front ++ e ∷ []) ≡ length front + 1 = length-append front (e ∷ []) in
    let ih' = rw (append_assoc front (e ∷ []) back, length-snoc front e (length es), one) at ih in
    rw (step, ◌>>=◌, ih', ◌>>=◌)

-- A state of the policy in which the stack begins with entries for the plan of the section `pc`.
pub record IsReady (pc : String) (plan : Plan) (cnt : RoundRobin) (es rest : List CounterRecord)
    : Type 0 where
  pub here : cnt.pc ≡ pc
  pub stack : cnt.counter_stack ≡ es ++ rest
  pub follows : Follows plan es
  pub fit : AllFit (es ++ rest)

-- An increment keeps the shape of the stack, so it splits in the same way.
record Split (plan : Plan) (rest stack' : List CounterRecord) : Type 0 where
  es' : List CounterRecord
  rest' : List CounterRecord
  joined : stack' ≡ es' ++ rest'
  follows : Follows plan es'

split :
    (plan : Plan) (es rest stack' : List CounterRecord)
    → Follows plan es
    → SameShape (es ++ rest) stack'
    → Split plan rest stack'
split [] [] rest stack' f h = record { es' = []; rest' = stack'; joined = refl; follows = tt }
split [] (e ∷ es) rest stack' f h = elim f [ ]
split ((id, ceiling) ∷ plan) [] rest stack' f h = elim f [ ]
split ((id, ceiling) ∷ plan) (e ∷ es) rest [] f h = elim h [ ]
split ((id, ceiling) ∷ plan) (e ∷ es) rest (s ∷ stack') f h =
    let more = split plan es rest stack' f.2 h.2 in
    record {
      es' = s ∷ more.es';
      rest' = more.rest';
      joined = ap (◌∷◌ s) more.joined;
      follows = (sym h.0 ∙ f.0, sym h.1 ∙ f.1, more.follows);
    }

-- An attempt on a ready policy: the number of the stack goes up by one, and the choices are the
-- counts that the plan's entries have then.
record Attempted (pc : String) (plan : Plan) (random : ℕ → ℕ) (cnt : RoundRobin)
    (es rest : List CounterRecord) : Type 0 where
  es' : List CounterRecord
  rest' : List CounterRecord
  carry : ℕ
  cnt' : RoundRobin
  run : attempt pc plan random cnt ≡ some (counts es', cnt')
  ready : IsReady pc plan cnt' es' rest'
  step : Stepped (es ++ rest) (es' ++ rest') carry

attempt-IsReady :
    (pc : String) (plan : Plan) (random : ℕ → ℕ) (cnt : RoundRobin) (es rest : List CounterRecord)
    → PlanFits plan
    → IsReady pc plan cnt es rest
    → Attempted pc plan random cnt es rest
unfolding attempt begin_critical_section
attempt-IsReady pc plan random cnt es rest p ready =
    let (stack', carry, run, step) = increment-Stepped (es ++ rest) ready.fit in
    let parts = split plan es rest stack' ready.follows step.shape in
    let step' = subst (λ s. Stepped (es ++ rest) s carry) parts.joined step in
    record {
      es' = parts.es';
      rest' = parts.rest';
      carry = carry;
      cnt' = at pc (parts.es' ++ parts.rest') (length parts.es');
      run =
          rw (ready.here, eq_refl, ready.stack, run, ◌>>=◌, parts.joined)
            (rw (zero-add) at
              (choices-Follows plan random pc [] parts.es' parts.rest' p parts.follows step'.fit));
      ready = record { here = refl; stack = refl; follows = parts.follows; fit = step'.fit };
      step = step';
    }

SameShape-trans :
    (xs ys zs : List CounterRecord) → SameShape xs ys → SameShape ys zs → SameShape xs zs
SameShape-trans [] [] zs h k = k
SameShape-trans [] (y ∷ ys) cs h k = elim h [ ]
SameShape-trans (x ∷ xs) [] zs h k = elim h [ ]
SameShape-trans (x ∷ xs) (y ∷ ys) [] h k = elim k [ ]
SameShape-trans (x ∷ xs) (y ∷ ys) (z ∷ zs) h k =
    (h.0 ∙ k.0, h.1 ∙ k.1, SameShape-trans xs ys zs h.2 k.2)

SameShape-sym : (xs ys : List CounterRecord) → SameShape xs ys → SameShape ys xs
SameShape-sym [] [] h = h
SameShape-sym [] (y ∷ ys) h = elim h [ ]
SameShape-sym (x ∷ xs) [] h = elim h [ ]
SameShape-sym (x ∷ xs) (y ∷ ys) h = (sym h.0, sym h.1, SameShape-sym xs ys h.2)

-- The attempts that bring the number of the stack to `t`.
record Reached (d : ℕ) (pc : String) (plan : Plan) (random : ℕ → ℕ) (cnt : RoundRobin)
    (stack : List CounterRecord) (t : ℕ) : Type 0 where
  es' : List CounterRecord
  rest' : List CounterRecord
  cnt' : RoundRobin
  run : attempts d pc plan random cnt ≡ some (counts es', cnt')
  ready : IsReady pc plan cnt' es' rest'
  shape : SameShape stack (es' ++ rest')
  arrived : value (es' ++ rest') ≡ t

-- One increment brings the distance to the target down by one, also where the number wraps.
closer :
    (v v' d t p carry : ℕ)
    → v < p
    → carry ≤ 1
    → carry * p + v' ≡ v + 1
    → (v + suc d + 1 ≡ t) ⊎ (v + suc d + 1 ≡ t + p)
    → t < p
    → (v' + d + 1 ≡ t) ⊎ (v' + d + 1 ≡ t + p)
closer v v' d t p zero lt small sum far below = elim far [
  | inl e ↦ inl (omega arith)
  | inr e ↦ inr (omega arith)
]
closer v v' d t p (suc zero) lt small sum far below = inl (omega arith)
closer v v' d t p (suc (suc carry)) lt small sum far below = absurd (omega arith)

lands :
    (v v' t p carry : ℕ)
    → v < p
    → v' < p
    → carry ≤ 1
    → carry * p + v' ≡ v + 1
    → (v + 0 + 1 ≡ t) ⊎ (v + 0 + 1 ≡ t + p)
    → t < p
    → v' ≡ t
lands v v' t p zero lt lt' small sum far below = omega arith
lands v v' t p (suc zero) lt lt' small sum far below = omega arith
lands v v' t p (suc (suc carry)) lt lt' small sum far below = absurd (omega arith)

reach :
    (d : ℕ) (pc : String) (plan : Plan) (random : ℕ → ℕ) (cnt : RoundRobin)
    (es rest : List CounterRecord) (t : ℕ)
    → PlanFits plan
    → IsReady pc plan cnt es rest
    → (value (es ++ rest) + d + 1 ≡ t) ⊎ (value (es ++ rest) + d + 1 ≡ t + product (es ++ rest))
    → t < product (es ++ rest)
    → Reached d pc plan random cnt (es ++ rest) t
unfolding attempts
reach zero pc plan random cnt es rest t p ready far below =
    let a = attempt-IsReady pc plan random cnt es rest p ready in
    record {
      es' = a.es';
      rest' = a.rest';
      cnt' = a.cnt';
      run = a.run;
      ready = a.ready;
      shape = a.step.shape;
      arrived =
          lands (value (es ++ rest)) (value (a.es' ++ a.rest')) t (product (es ++ rest)) a.carry
            (value-lt-product (es ++ rest) ready.fit)
            (rw (← a.step.radix) (value-lt-product (a.es' ++ a.rest') a.ready.fit)) a.step.small
            a.step.sum far below;
    }
reach (suc d) pc plan random cnt es rest t p ready far below =
    let a = attempt-IsReady pc plan random cnt es rest p ready in
    let nearer =
      closer (value (es ++ rest)) (value (a.es' ++ a.rest')) d t (product (es ++ rest)) a.carry
        (value-lt-product (es ++ rest) ready.fit) a.step.small a.step.sum far below in
    let r =
      reach d pc plan random a.cnt' a.es' a.rest' t p a.ready (rw a.step.radix nearer)
        (rw a.step.radix below) in
    record {
      es' = r.es';
      rest' = r.rest';
      cnt' = r.cnt';
      run = rw (a.run, ◌>>=◌) r.run;
      ready = r.ready;
      shape =
          SameShape-trans (es ++ rest) (a.es' ++ a.rest') (r.es' ++ r.rest') a.step.shape r.shape;
      arrived = r.arrived;
    }
