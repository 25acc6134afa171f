-- ===== src/Fairness/Next.antt =====
-- distsys/fairness.go: what `NextFairnessCounter` does to a stack that is split at the index.
use mathlib.Core.List.{append-nil}
use pgo_eval.Base.{
  ℕ, ◌+◌, ◌%◌, ◌<◌, ◌≡◌, refl, ap, String, none, some, true, false, List, [], ◌∷◌, ◌++◌, arith,
  length, get_elem?, take, ltb, if◌then◌else◌, Bool-cases, inl, inr, length-append, ◌>>=◌, ◌∙◌,
}
use pgo_eval.Fairness.{
  CounterRecord, matches, drop_stale, extend, read_count, next_fairness_counter,
}
use pgo_eval.Fairness.Radix.{Fits, AllFit}

get_elem?-append-length {ℓ} :
    {A : Type ℓ} (front : List A) (x : A) (back : List A)
    → get_elem? (front ++ x ∷ back) (length front) ≡ some x
get_elem?-append-length [] x back = refl
get_elem?-append-length (y ∷ front) x back = get_elem?-append-length front x back

get_elem?-append-nil {ℓ} :
    {A : Type ℓ} (front : List A) → get_elem? (front ++ []) (length front) ≡ none
get_elem?-append-nil [] = refl
get_elem?-append-nil (y ∷ front) = get_elem?-append-nil front

take-append-length {ℓ} :
    {A : Type ℓ} (front back : List A) → take (length front) (front ++ back) ≡ front
take-append-length [] [] = refl
take-append-length [] (x ∷ back) = refl
take-append-length (y ∷ front) back = ap (◌∷◌ y) (take-append-length front back)

-- The entry of a branching point that is not on the stack.
abbrev pub fresh : String → ℕ → ℕ → CounterRecord
fresh id ceiling random = record { id = id; count = random % ceiling; ceiling = ceiling }

-- The entry that a call uses, and what stays above it, of the stack above the index.
unfoldable pub visit : String → ℕ → ℕ → List CounterRecord → CounterRecord × List CounterRecord
visit id ceiling random [] = (fresh id ceiling random, [])
visit id ceiling random (r ∷ rs) =
    if matches id ceiling r then (r, rs) else (fresh id ceiling random, [])

module _ (id : String) (ceiling random : ℕ) (front : List CounterRecord) where
  abbrev idx : ℕ
  idx = length front

  drop_stale-nil : drop_stale id ceiling idx (front ++ []) ≡ front ++ []
  unfolding drop_stale
  drop_stale-nil = rw (get_elem?-append-nil front, drop_stale)

  drop_stale-cons :
      (r : CounterRecord) (rs : List CounterRecord)
      → drop_stale id ceiling idx (front ++ r ∷ rs)
        ≡ (if matches id ceiling r then front ++ r ∷ rs else front)
  unfolding drop_stale
  drop_stale-cons r rs = rw (get_elem?-append-length, drop_stale, take-append-length)

  extend-front :
      0 < ceiling
      → extend id ceiling random idx front ≡ some (front ++ fresh id ceiling random ∷ [])
  unfolding extend
  extend-front pos = ground arith

  extend-cons :
      (r : CounterRecord) (rs : List CounterRecord)
      → extend id ceiling random idx (front ++ r ∷ rs) ≡ some (front ++ r ∷ rs)
  unfolding extend
  extend-cons r rs = rw length-append (ground arith)

  read_count-below : (r : CounterRecord) → r.count < ceiling → read_count ceiling r ≡ some r.count
  unfolding read_count
  read_count-below r h = ground arith

  not-ltb-append : (back : List CounterRecord) → ltb (length (front ++ back)) idx ≡ false
  not-ltb-append back = rw length-append (ground arith)

  matches-below : (r : CounterRecord) → Fits r → matches id ceiling r ≡ true → r.count < ceiling
  unfolding matches
  matches-below r fit same = ground (arith, fit.below)

  abbrev Visits : String → List CounterRecord → CounterRecord → List CounterRecord → Type 0
  Visits pc back r rs =
      next_fairness_counter id ceiling random
        (record { pc = pc; counter_stack = front ++ back; counter_idx = idx })
      ≡ some (r.count, record { pc = pc; counter_stack = front ++ r ∷ rs; counter_idx = idx + 1 })

  next-fresh :
      (pc : String) (back : List CounterRecord)
      → 0 < ceiling
      → drop_stale id ceiling idx (front ++ back) ≡ front
      → Visits pc back (fresh id ceiling random) []
  unfolding next_fairness_counter
  next-fresh pc back pos dropped =
      rw (not-ltb-append, dropped, extend-front pos, ◌>>=◌, get_elem?-append-length)
        (rw (read_count-below (fresh id ceiling random) (omega arith)))

  next-kept :
      (pc : String) (r : CounterRecord) (rs : List CounterRecord)
      → r.count < ceiling
      → matches id ceiling r ≡ true
      → Visits pc (r ∷ rs) r rs
  unfolding next_fairness_counter
  next-kept pc r rs below same =
      rw (not-ltb-append, drop_stale-cons, same, extend-cons, ◌>>=◌, get_elem?-append-length)
        (rw (read_count-below r below))

  -- The call reads the entry of its branching point, keeps the stack below it and, unless the
  -- entry was there already, drops the stack above it.
  pub next-visit :
      (pc : String) (back : List CounterRecord)
      → 0 < ceiling
      → AllFit back
      → Visits pc back (visit id ceiling random back).0 (visit id ceiling random back).1
  unfolding visit
  next-visit pc [] pos fit = next-fresh pc [] pos (drop_stale-nil ∙ append-nil front)
  next-visit pc (r ∷ rs) pos fit = elim (Bool-cases (matches id ceiling r)) [
    | inl same ↦ rw same (next-kept pc r rs (matches-below r fit.0 same) same)
    | inr other ↦ rw other (next-fresh pc (r ∷ rs) pos (drop_stale-cons r rs ∙ (rw other)))
  ]
