-- ===== src/Crdt/VClock/Order/Unique.antt =====
-- distsys/resources/aworset.go: the verdict of `compare` depends on the counts alone.
use mathlib.Core.Bool.{false≢true}
use pgo_eval.Base.{◌≡◌, refl, sym, ◌∙◌}
use pgo_eval.Hasher.{Hasher}
use pgo_eval.Maps.{MapLib}
use pgo_eval.Tla.{TlaValue}
use pgo_eval.Crdt.GCounter.{GCounter}
use pgo_eval.Crdt.GCounter.Merge.{Same}
use pgo_eval.Crdt.VClock.{Compared, less, equal, greater, concurrent, get_or_default, compare}
use pgo_eval.Crdt.VClock.Order.{Behind, NotBehind, Ordered, compare-Ordered}

module _ {K : Type 0} ⦃h : Hasher K⦄ (lib : MapLib K) (tla : TlaValue K) where
  clash :
      (a b : GCounter lib)
      → ((k : K) → NotBehind lib tla a b k)
      → ((k : K) × Behind lib tla a b k)
      → ⊥
  clash a b all some_k = false≢true (sym (all some_k.0) ∙ some_k.1)

  Ordered-unique :
      (a b : GCounter lib) (x y : Compared) → Ordered lib tla a b x → Ordered lib tla a b y → x ≡ y
  Ordered-unique a b less less v w = refl
  Ordered-unique a b less equal v w = absurd (clash a b w.1 v.1)
  Ordered-unique a b less greater v w = absurd (clash a b w.0 v.1)
  Ordered-unique a b less concurrent v w = absurd (clash b a v.0 w.1)
  Ordered-unique a b equal less v w = absurd (clash a b v.1 w.1)
  Ordered-unique a b equal equal v w = refl
  Ordered-unique a b equal greater v w = absurd (clash b a v.0 w.1)
  Ordered-unique a b equal concurrent v w = absurd (clash a b v.1 w.0)
  Ordered-unique a b greater less v w = absurd (clash a b v.0 w.1)
  Ordered-unique a b greater equal v w = absurd (clash b a w.0 v.1)
  Ordered-unique a b greater greater v w = refl
  Ordered-unique a b greater concurrent v w = absurd (clash a b v.0 w.0)
  Ordered-unique a b concurrent less v w = absurd (clash b a w.0 v.1)
  Ordered-unique a b concurrent equal v w = absurd (clash a b w.1 v.0)
  Ordered-unique a b concurrent greater v w = absurd (clash a b w.0 v.0)
  Ordered-unique a b concurrent concurrent v w = refl

  -- Clocks with the same counts have the same verdicts.
  Ordered-Same :
      (a a' b b' : GCounter lib) (x : Compared)
      → Same lib a a'
      → Same lib b b'
      → Ordered lib tla a b x
      → Ordered lib tla a' b' x
  unfolding get_or_default
  Ordered-Same a a' b b' less p q v =
      (λ k. rw (← p k, ← q k) (v.0 k), (v.1.0, rw (← p v.1.0, ← q v.1.0) v.1.1))
  Ordered-Same a a' b b' equal p q v =
      (λ k. rw (← p k, ← q k) (v.0 k), λ k. rw (← p k, ← q k) (v.1 k))
  Ordered-Same a a' b b' greater p q v =
      (λ k. rw (← p k, ← q k) (v.0 k), (v.1.0, rw (← p v.1.0, ← q v.1.0) v.1.1))
  Ordered-Same a a' b b' concurrent p q v =
      ((v.0.0, rw (← p v.0.0, ← q v.0.0) v.0.1), (v.1.0, rw (← p v.1.0, ← q v.1.0) v.1.1))

  -- `compare` returns the same verdict on clocks with the same counts, whatever their layout.
  pub compare_congr :
      (a a' b b' : GCounter lib)
      → Same lib a a'
      → Same lib b b'
      → compare lib tla a b ≡ compare lib tla a' b'
  compare_congr a a' b b' p q =
      Ordered-unique a' b' (compare lib tla a b) (compare lib tla a' b')
        (Ordered-Same a a' b b' (compare lib tla a b) p q (compare-Ordered lib tla a b))
        (compare-Ordered lib tla a' b')
