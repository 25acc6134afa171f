-- ===== src/Resources/TwoPc/Broadcast/Quorum.antt =====
-- The verdict of a broadcast, and what two broadcasts that succeed have in common.
use pgo_eval.Base.{
  ℕ, zero, suc, ◌+◌, ◌-◌, ◌≤◌, ◌<◌, ◌≡◌, refl, sym, Bool, true, false, none, some, List, [], ◌∷◌,
  ◌++◌, if◌then◌else◌, leb, length, get_elem?, arith, ◌*◌, ◌⊎◌, Option-cases, inl, inr,
}
use mathlib.Core.List.{append-nil}
use pgo_eval.Resources.TwoPc.Broadcast.{required, await, broadcast}

abbrev pub count_true : List Bool → ℕ
count_true [] = 0
count_true (true ∷ bs) = suc (count_true bs)
count_true (false ∷ bs) = count_true bs

count_true-le : (bs : List Bool) → count_true bs ≤ length bs
count_true-le [] = omega arith
count_true-le (true ∷ bs) = omega (arith, count_true-le bs)
count_true-le (false ∷ bs) = omega (arith, count_true-le bs)

await-decides :
    (required remaining : ℕ) (responses : List Bool)
    → remaining ≡ length responses
    → await required remaining responses ≡ some (leb required (count_true responses))
unfolding await
await-decides zero remaining [] h = ground arith
await-decides (suc r) remaining [] h = ground arith
await-decides required remaining (true ∷ bs) h =
    ground (arith, count_true-le bs, await-decides (required - 1) (remaining - 1) bs)
await-decides required remaining (false ∷ bs) h =
    ground (arith, count_true-le bs, await-decides required (remaining - 1) bs)

await-append :
    (need left : ℕ) (xs ys : List Bool) (b : Bool)
    → await need left xs ≡ some b
    → await need left (xs ++ ys) ≡ some b
unfolding await
await-append need left [] [] b e = e
await-append need left [] (y ∷ ys) b e = ground arith
await-append need left (x ∷ xs) ys b e =
    ground (arith, await-append (if x then need - 1 else need) (left - 1) xs ys b)

rest_left :
    (need left : ℕ) (taken rest : List Bool) {b : Bool}
    → await need left taken ≡ none
    → await need left (taken ++ rest) ≡ some b
    → 0 < length rest
rest_left need left taken [] e f = absurd (let g = rw append-nil at f in cc)
rest_left need left taken (r ∷ rest) e f = omega arith

-- Of the responses of all replicas, some taken and the rest still to come: either the loop still
-- waits, and there is a response to come, or it has ended with the verdict whether at least
-- `required` of all responses are positive, whatever the rest is.
pub broadcast-majority :
    (replicas : ℕ) (taken rest : List Bool)
    → length (taken ++ rest) ≡ replicas
    → (broadcast replicas taken ≡ none) × (0 < length rest)
      ⊎ (broadcast replicas taken ≡ some (leb (required replicas) (count_true (taken ++ rest))))
unfolding broadcast
broadcast-majority replicas taken rest h =
    let full = await-decides (required replicas) replicas (taken ++ rest) (sym h) in
    elim (Option-cases (await (required replicas) replicas taken)) [
      | inl waiting ↦ inl (waiting, rest_left (required replicas) replicas taken rest waiting full)
      | inr (b, e) ↦ inr (let e' = await-append (required replicas) replicas taken rest b e in cc)
    ]

-- A verdict that is positive has seen the acceptances that it needs.
await-true :
    (need left : ℕ) (xs : List Bool) → await need left xs ≡ some true → need ≤ count_true xs
unfolding await
await-true need left [] e = ground arith
await-true need left (true ∷ xs) e = ground (arith, await-true (need - 1) (left - 1) xs)
await-true need left (false ∷ xs) e = ground (arith, await-true need (left - 1) xs)

required-half : (replicas : ℕ) → replicas ≤ 2 * required replicas
unfolding required
required-half replicas = ground arith

-- The acceptances of all nodes but one.
abbrev pub others : ℕ → List Bool → List Bool
others i [] = []
others zero (b ∷ bs) = bs
others (suc i) (b ∷ bs) = b ∷ others i bs

count_true-others :
    (i : ℕ) (bs : List Bool)
    → get_elem? bs i ≡ some true
    → count_true bs ≡ suc (count_true (others i bs))
count_true-others i [] h = cc
count_true-others zero (true ∷ bs) h = refl
count_true-others zero (false ∷ bs) h = cc
count_true-others (suc i) (true ∷ bs) h = omega (arith, count_true-others i bs h)
count_true-others (suc i) (false ∷ bs) h = count_true-others i bs h

overlap :
    (xs ys : List Bool)
    → length xs ≡ length ys
    → length xs < count_true xs + count_true ys
    → (k : ℕ) × (get_elem? xs k ≡ some true) × (get_elem? ys k ≡ some true)
overlap [] ys e h = absurd (omega (arith, count_true-le ys))
overlap (x ∷ xs) [] e h = absurd (omega arith)
overlap (true ∷ xs) (true ∷ ys) e h = (0, refl, refl)
overlap (true ∷ xs) (false ∷ ys) e h =
    let (k, p, q) = overlap xs ys (omega arith) (omega arith) in (suc k, p, q)
overlap (false ∷ xs) (true ∷ ys) e h =
    let (k, p, q) = overlap xs ys (omega arith) (omega arith) in (suc k, p, q)
overlap (false ∷ xs) (false ∷ ys) e h =
    let (k, p, q) = overlap xs ys (omega arith) (omega arith) in (suc k, p, q)

module _ (replicas i j : ℕ) (accepts_i accepts_j responses_i responses_j : List Bool) where
  -- Two nodes propose for a cluster of `replicas + 1` nodes: `accepts_i` and `accepts_j` tell which
  -- nodes accept the one and the other, where each accepts its own proposal, and each has taken as
  -- many acceptances from the channel as the other nodes have given at most. If both broadcasts
  -- succeed then some node has accepted both proposals.
  pub broadcasts-meet :
      length accepts_i ≡ replicas + 1
      → length accepts_j ≡ replicas + 1
      → get_elem? accepts_i i ≡ some true
      → get_elem? accepts_j j ≡ some true
      → count_true responses_i ≤ count_true (others i accepts_i)
      → count_true responses_j ≤ count_true (others j accepts_j)
      → broadcast replicas responses_i ≡ some true
      → broadcast replicas responses_j ≡ some true
      → (k : ℕ) × (get_elem? accepts_i k ≡ some true) × (get_elem? accepts_j k ≡ some true)
  unfolding broadcast
  broadcasts-meet li lj own_i own_j ci cj bi bj = overlap accepts_i accepts_j (omega arith) (
      omega (
        arith,
        count_true-others i accepts_i own_i,
        count_true-others j accepts_j own_j,
        await-true (required replicas) replicas responses_i bi,
        await-true (required replicas) replicas responses_j bj,
        required-half replicas,
      ))
