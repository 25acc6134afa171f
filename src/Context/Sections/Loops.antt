-- ===== src/Context/Sections/Loops.antt =====
-- distsys/mpcalctx.go: the loops of `abort` and `commit` over the dirty resources.
use text.Mathlib.Text.{◌==◌ as str_eq}
use text.Mathlib.TextPositions.{eq_refl}
use pgo_eval.Base.{
  ◌≡◌, refl, ◌∙◌, String, Bool, true, false, ◌&&◌, some, List, [], ◌∷◌, if◌then◌else◌, ◌>>=◌, arith,
  Bool-cases, Option-cases, inl, inr,
}
use pgo_eval.Context.Sections.Contract.{Resource}
use pgo_eval.Context.Sections.{contains, Context, put, is_some, each, pre_commit_each}
use pgo_eval.Context.Sections.Effect.{same_key, at, at-put, put-named, put-dirty}

module _ {V R S : Type 0} (ops : Resource V R S) where
  pub found :
      (ctx : Context ops) (h : String)
      → is_some ops (at ops ops.saved ctx h) ≡ true
      → (r : R) × (ctx.resources h ≡ some r)
  unfolding is_some
  found ctx h there = elim (Option-cases (ctx.resources h)) [
    | inl e ↦ let bad : false ≡ true = rw e at there in let no : ⊥ = cc in absurd no
    | inr known ↦ known
  ]

  -- All the handles are those of resources.
  abbrev pub AllThere : Context ops → List String → Type 0
  AllThere ctx hs =
      (h : String) → contains h hs ≡ true → is_some ops (at ops ops.saved ctx h) ≡ true

  put-AllThere :
      (ctx : Context ops) (k : String) (r : R) (hs : List String)
      → AllThere ctx (k ∷ hs)
      → AllThere (put ops k r ctx) hs
  unfolding is_some
  put-AllThere ctx k r hs all h there = elim (Bool-cases (str_eq h k)) [
    | inl e ↦ rw (at-put ops ops.saved k r ctx h, e, is_some)
    | inr e ↦ rw (at-put ops ops.saved k r ctx h, e) (all h (rw e there))
  ]

  head-AllThere :
      (ctx : Context ops) (k : String) (hs : List String)
      → AllThere ctx (k ∷ hs)
      → (r : R) × (ctx.resources k ≡ some r)
  head-AllThere ctx k hs all = found ctx k (all k (rw (eq_refl k)))

  -- A loop that runs `f` on each resource, seen through a state `g` that it sets from `src`.
  pub record Ended (f : R → R) (hs : List String) (ctx ctx' : Context ops) : Type 0 where
    pub named : ctx'.named ≡ ctx.named
    pub states :
        (g src : R → S)
        → ((r : R) → g (f r) ≡ src r)
        → ((r : R) → src (f r) ≡ src r)
        → (h : String)
        → at ops g ctx' h ≡ (if contains h hs then at ops src ctx h else at ops g ctx h)

  pub each-Ended :
      (f : R → R) (hs : List String) (ctx : Context ops)
      → AllThere ctx hs
      → (ctx' : Context ops) × (each ops f hs ctx ≡ some ctx') × Ended f hs ctx ctx'
  unfolding each
  each-Ended f [] ctx all = (ctx, refl, record { named = refl; states = λ g src p q h. refl })
  each-Ended f (k ∷ hs) ctx all =
      let (r, known) = head-AllThere ctx k hs all in
      let (ctx', run, rest) =
        each-Ended f hs (put ops k (f r) ctx) (put-AllThere ctx k (f r) hs all) in
      (
        ctx',
        rw (known, ◌>>=◌) run,
        record {
          named = rest.named ∙ put-named ops k (f r) ctx;
          states = λ g src p q h. rest.states g src p q h ∙ elim (Bool-cases (str_eq h k)) [
            | inl e ↦
                rw
                  (
                    at-put ops g k (f r) ctx h,
                    at-put ops src k (f r) ctx h,
                    e,
                    p r,
                    q r,
                    same_key h k e,
                    known,
                  )
                  (ground arith)
            | inr e ↦ rw (at-put ops g k (f r) ctx h, at-put ops src k (f r) ctx h, e)
          ];
        },
      )

  -- `PreCommit` changes no state.
  pub record PreCommitted (ctx ctx' : Context ops) : Type 0 where
    pub named : ctx'.named ≡ ctx.named
    pub dirty : ctx'.dirty ≡ ctx.dirty
    pub saved : (h : String) → at ops ops.saved ctx' h ≡ at ops ops.saved ctx h
    pub now : (h : String) → at ops ops.now ctx' h ≡ at ops ops.now ctx h

  put_pre_commit :
      (ctx : Context ops) (k : String) (r : R)
      → ctx.resources k ≡ some r
      → PreCommitted ctx (put ops k (ops.pre_commit r).1 ctx)
  put_pre_commit ctx k r known = record {
    named = put-named ops k _ ctx;
    dirty = put-dirty ops k _ ctx;
    saved = λ h. elim (Bool-cases (str_eq h k)) [
      | inl e ↦
          rw (at-put ops ops.saved k _ ctx h, e, ops.saved-pre_commit r, same_key h k e, known)
      | inr e ↦ rw (at-put ops ops.saved k _ ctx h, e)
    ];
    now = λ h. elim (Bool-cases (str_eq h k)) [
      | inl e ↦ rw (at-put ops ops.now k _ ctx h, e, ops.now-pre_commit r, same_key h k e, known)
      | inr e ↦ rw (at-put ops ops.now k _ ctx h, e)
    ];
  }

  pub pre_commit_each-PreCommitted :
      (hs : List String) (ctx : Context ops)
      → AllThere ctx hs
      → (ok : Bool) × (ctx' : Context ops) × (pre_commit_each ops hs ctx ≡ some (ok, ctx'))
        × PreCommitted ctx ctx'
  unfolding pre_commit_each
  pre_commit_each-PreCommitted [] ctx all =
      (true, ctx, refl, record { named = refl; dirty = refl; saved = λ h. refl; now = λ h. refl })
  pre_commit_each-PreCommitted (k ∷ hs) ctx all =
      let (r, known) = head-AllThere ctx k hs all in
      let r' = (ops.pre_commit r).1 in
      let one = put_pre_commit ctx k r known in
      let (ok, ctx', run, rest) =
        pre_commit_each-PreCommitted hs (put ops k r' ctx) (put-AllThere ctx k r' hs all) in
      (
        (ops.pre_commit r).0 && ok,
        ctx',
        rw (known, ◌>>=◌, run),
        record {
          named = rest.named ∙ one.named;
          dirty = rest.dirty ∙ one.dirty;
          saved = λ h. rest.saved h ∙ one.saved h;
          now = λ h. rest.now h ∙ one.now h;
        },
      )
