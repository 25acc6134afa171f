-- ===== src/Hasher.antt =====
-- What a hashed container asks of its keys: `tla.ValueHasher` of distsys/tla/value.go, with the
-- laws that `Value.Equal` and `Value.Hash` owe to the containers. Keys that are equal in this
-- sense need not be the same term: two sets may be built in different orders.
use pgo_eval.Base.{ℕ, ◌≡◌, sym, ◌∙◌, Bool, true, arith, Bool-cases, inl, inr}

-- The equality is reflexive, and no key tells two equal keys apart; so it is an equivalence.
pub record Hasher (K : Type 0) : Type 0 where
  pub hash : K → ℕ
  pub equal : K → K → Bool
  pub equal_refl : (k : K) → equal k k ≡ true
  pub equal_same : (i j : K) → equal i j ≡ true → (k : K) → equal k i ≡ equal k j
  pub hash-equal : (i j : K) → equal i j ≡ true → hash i ≡ hash j

module _ {K : Type 0} ⦃h : Hasher K⦄ where
  turn : (i j : K) → h.equal i j ≡ true → h.equal j i ≡ true
  turn i j e = h.equal_same i j e j ∙ h.equal_refl j

  pub equal_symm : (i j : K) → h.equal i j ≡ h.equal j i
  equal_symm i j = elim (Bool-cases (h.equal i j)) [
    | inl same ↦ same ∙ sym (turn i j same)
    | inr other ↦ ground (arith, turn j i)
  ]

  pub equal_congr_right : (i j k : K) → h.equal i j ≡ true → h.equal k i ≡ h.equal k j
  equal_congr_right i j k e = h.equal_same i j e k

  -- Equal keys are equal to the same keys.
  pub equal_congr : (i j k : K) → h.equal i j ≡ true → h.equal i k ≡ h.equal j k
  equal_congr i j k e = equal_symm i k ∙ h.equal_same i j e k ∙ equal_symm k j
