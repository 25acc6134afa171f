-- ===== src/Fairness/Radix.antt =====
-- distsys/fairness.go: the loop of `BeginCriticalSection` read as the increment of a number in
-- mixed radix, the last entry of the stack being its lowest digit.
use pgo_eval.Base.{
  ℕ, ◌+◌, ◌*◌, ◌/◌, ◌%◌, ◌^◌, ◌≤◌, ◌<◌, ◌≡◌, refl, sym, ap, some, List, [], ◌∷◌, arith, dec_lt,
  ◌>>=◌,
}
use pgo_eval.Fairness.{CounterRecord, increment_record, increment}

-- A count fits its ceiling, and the ceiling is a `uint`.
pub record Fits (r : CounterRecord) : Type 0 where
  pub below : r.count < r.ceiling
  pub wide : r.ceiling < 2 ^ 64

abbrev pub AllFit : List CounterRecord → Type 0
AllFit [] = Unit {0}
AllFit (r ∷ rs) = Fits r × AllFit rs

-- The stacks name the same branching points.
abbrev pub SameShape : List CounterRecord → List CounterRecord → Type 0
SameShape [] [] = Unit {0}
SameShape [] (_ ∷ _) = ⊥
SameShape (_ ∷ _) [] = ⊥
SameShape (r ∷ rs) (s ∷ ss) = (r.id ≡ s.id) × (r.ceiling ≡ s.ceiling) × SameShape rs ss

pub product : List CounterRecord → ℕ
product [] = 1
product (r ∷ rs) = r.ceiling * product rs

pub value : List CounterRecord → ℕ
value [] = 0
value (r ∷ rs) = r.count * product rs + value rs

pub value-lt-product : (rs : List CounterRecord) → AllFit rs → value rs < product rs
unfolding value product
value-lt-product [] h = omega arith
value-lt-product (r ∷ rs) h = let ih = value-lt-product rs h.1 in grind arith

-- One digit: the carry in is at most one, and the sum is kept.
pub record Carried (r r' : CounterRecord) (carry carry' : ℕ) : Type 0 where
  pub fits : Fits r'
  pub small : carry' ≤ 1
  pub same_id : r.id ≡ r'.id
  pub same_ceiling : r.ceiling ≡ r'.ceiling
  pub sum : carry' * r.ceiling + r'.count ≡ r.count + carry

self_div_mod : (n : ℕ) → 0 < n → (n / n ≡ 1) × (n % n ≡ 0)
self_div_mod n h = grind arith

wraps :
    (r : CounterRecord) (carry : ℕ)
    → Fits r
    → r.count + carry ≡ r.ceiling
    → increment_record r carry ≡ some (record r { count = 0 }, 1)
unfolding increment_record
wraps r carry h e =
    let full : (r.count + carry) % 2 ^ 64 ≡ r.ceiling = ground (arith, h.wide) in
    let (quotient, remainder) = self_div_mod r.ceiling (ground (arith, h.below)) in
    rw (full, quotient, remainder) (ground (arith, h.below))

increment_record-Carried :
    (r : CounterRecord) (carry : ℕ)
    → Fits r
    → carry ≤ 1
    → (r' : CounterRecord) × (carry' : ℕ) × (increment_record r carry ≡ some (r', carry'))
      × Carried r r' carry carry'
unfolding increment_record
increment_record-Carried r carry h c = elim (dec_lt (r.count + carry) r.ceiling) [
  | yes lt ↦ (
    record r { count = r.count + carry },
    0,
    ground arith,
    record {
      fits = record { below = lt; wide = h.wide };
      small = omega arith;
      same_id = refl;
      same_ceiling = refl;
      sum = omega arith;
    },
  )
  | no ge ↦ (
    record r { count = 0 },
    1,
    wraps r carry h (omega arith),
    record {
      fits = record { below = omega arith; wide = h.wide };
      small = omega arith;
      same_id = refl;
      same_ceiling = refl;
      sum = omega arith;
    },
  )
]

-- What the loop makes of a stack: the carry out is set exactly when the number wraps around.
pub record Stepped (rs rs' : List CounterRecord) (carry : ℕ) : Type 0 where
  pub fit : AllFit rs'
  pub shape : SameShape rs rs'
  pub small : carry ≤ 1
  pub radix : product rs' ≡ product rs
  pub sum : carry * product rs + value rs' ≡ value rs + 1

pub increment-Stepped :
    (rs : List CounterRecord)
    → AllFit rs
    → (rs' : List CounterRecord) × (carry : ℕ) × (increment rs ≡ some (rs', carry))
      × Stepped rs rs' carry
unfolding increment value product
increment-Stepped [] h = (
  [],
  1,
  refl,
  record { fit = tt; shape = tt; small = omega arith; radix = refl; sum = omega arith },
)
increment-Stepped (r ∷ rs) h =
    let (rs', carry, run, step) = increment-Stepped rs h.1 in
    let (r', carry', run', digit) = increment_record-Carried r carry h.0 step.small in
    (
      r' ∷ rs',
      carry',
      rw (run, ◌>>=◌, run'),
      record {
        fit = (digit.fits, step.fit);
        shape = (digit.same_id, digit.same_ceiling, step.shape);
        small = digit.small;
        radix = rw (step.radix, ← digit.same_ceiling);
        sum = rw step.radix (omega (arith, ap (λ t. t * product rs) digit.sum, step.sum));
      },
    )

pub product-SameShape : (rs ss : List CounterRecord) → SameShape rs ss → product rs ≡ product ss
unfolding product
product-SameShape [] [] h = refl
product-SameShape [] (s ∷ ss) h = elim h [ ]
product-SameShape (r ∷ rs) [] h = elim h [ ]
product-SameShape (r ∷ rs) (s ∷ ss) h = rw (h.1, product-SameShape rs ss h.2)

digit_gap : (a b p v w : ℕ) → v < p → a < b → a * p + v ≡ b * p + w → ⊥
digit_gap a b p v w hv lt e = let step : (a + 1) * p ≤ b * p = grind arith in omega arith

-- Equal numbers with the same lower radix have equal high digits.
digit_unique : (a b p v w : ℕ) → v < p → w < p → a * p + v ≡ b * p + w → (a ≡ b) × (v ≡ w)
digit_unique a b p v w hv hw e = elim (dec_lt a b) [
  | yes lt ↦ absurd (digit_gap a b p v w hv lt e)
  | no ge ↦ elim (dec_lt b a) [
    | yes gt ↦ absurd (digit_gap b a p w v hw gt (sym e))
    | no le ↦ let same : a ≡ b = omega arith in (same, omega (arith, ap (λ t. t * p) same))
  ]
]

abbrev pub counts : List CounterRecord → List ℕ
counts [] = []
counts (r ∷ rs) = r.count ∷ counts rs

-- A stack is determined by its number: stacks of one shape with equal values have equal counts.
pub counts-eq_of_value :
    (rs ss : List CounterRecord)
    → SameShape rs ss
    → AllFit rs
    → AllFit ss
    → value rs ≡ value ss
    → counts rs ≡ counts ss
unfolding value
counts-eq_of_value [] [] h f g e = refl
counts-eq_of_value [] (s ∷ ss) h f g e = elim h [ ]
counts-eq_of_value (r ∷ rs) [] h f g e = elim h [ ]
counts-eq_of_value (r ∷ rs) (s ∷ ss) h f g e =
    let radix = product-SameShape rs ss h.2 in
    let (high, low) =
      digit_unique r.count s.count (product rs) (value rs) (value ss) (value-lt-product rs f.1)
        (rw radix (value-lt-product ss g.1)) (rw (← radix) at e) in
    cc (high, counts-eq_of_value rs ss h.2 f.1 g.1 low)
