-- ===== src/Context/Sections/Effect.antt =====
-- distsys/mpcalctx.go: what the operations of a critical section do to the states of the resources.
use text.Mathlib.Text.{◌==◌ as str_eq}
use text.Mathlib.TextEquality.{eq_iff}
use text.Mathlib.TextPositions.{eq_refl}
use pgo_eval.Base.{
  ◌≡◌, refl, sym, ap, ◌∙◌, String, true, false, ◌||◌, Option, none, some, if◌then◌else◌, arith,
  Bool-cases, inl, inr,
}
use pgo_eval.Context.Sections.Contract.{Resource}
use pgo_eval.Context.Sections.{contains, Context, ensure, ensure_resource, put, is_some}

pub same_key : (a b : String) → str_eq a b ≡ true → a ≡ b
same_key a b e = (eq_iff a b).0 e

module _ {V R S : Type 0} (ops : Resource V R S) where
  abbrev pub view : (R → S) → Option R → Option S
  view f none = none
  view f (some r) = some (f r)

  -- A resource's state, the one of the last commit or the current one, where the resource exists.
  abbrev pub at : (R → S) → Context ops → String → Option S
  at f ctx h = view f (ctx.resources h)

  pub at-put :
      (f : R → S) (k : String) (r : R) (ctx : Context ops) (h : String)
      → at f (put ops k r ctx) h ≡ (if str_eq h k then some (f r) else at f ctx h)
  unfolding put
  at-put f k r ctx h = elim (Bool-cases (str_eq h k)) [ inl e ↦ rw e | inr e ↦ rw e ]

  pub put-named : (k : String) (r : R) (ctx : Context ops) → (put ops k r ctx).named ≡ ctx.named
  unfolding put
  put-named k r ctx = refl

  pub put-dirty : (k : String) (r : R) (ctx : Context ops) → (put ops k r ctx).dirty ≡ ctx.dirty
  unfolding put
  put-dirty k r ctx = refl

  contains-ensure :
      (k : String) (ctx : Context ops) (h : String)
      → contains h (ensure ops k ctx).dirty ≡ str_eq h k || contains h ctx.dirty
  unfolding ensure
  contains-ensure k ctx h = elim (Bool-cases (contains k ctx.dirty)) [
    | inl there ↦ elim (Bool-cases (str_eq h k)) [
      | inl e ↦ rw (there, same_key h k e, eq_refl k) there
      | inr e ↦ rw (there, e)
    ]
    | inr fresh ↦ rw fresh
  ]

  -- What holds while a section runs that began in `start`: the states of the last commit are what
  -- they were, a resource that is not dirty has no other state, and a dirty one exists.
  pub record Running (start ctx : Context ops) : Type 0 where
    pub saved : (h : String) → at ops.saved ctx h ≡ at ops.saved start h
    pub named : ctx.named ≡ start.named
    pub clean : (h : String) → contains h ctx.dirty ≡ false → at ops.now ctx h ≡ at ops.saved ctx h
    pub present :
        (h : String) → contains h ctx.dirty ≡ true → is_some ops (at ops.saved ctx h) ≡ true

  ensure-resources : (k : String) (ctx : Context ops) → (ensure ops k ctx).resources ≡ ctx.resources
  unfolding ensure
  ensure-resources k ctx = ground arith

  ensure-named : (k : String) (ctx : Context ops) → (ensure ops k ctx).named ≡ ctx.named
  unfolding ensure
  ensure-named k ctx = ground arith

  contains-touch :
      (k : String) (r' : R) (ctx : Context ops) (h : String)
      → contains h (put ops k r' (ensure ops k ctx)).dirty ≡ str_eq h k || contains h ctx.dirty
  contains-touch k r' ctx h = rw put-dirty (contains-ensure k ctx h)

  named-touch :
      (k : String) (r' : R) (ctx : Context ops)
      → (put ops k r' (ensure ops k ctx)).named ≡ ctx.named
  named-touch k r' ctx = put-named k r' (ensure ops k ctx) ∙ ensure-named k ctx

  -- A dirty resource that is given another state of the same last commit.
  at-touch :
      (f : R → S) (ctx : Context ops) (k : String) (r' : R) (h : String)
      → at f (put ops k r' (ensure ops k ctx)) h ≡ (if str_eq h k then some (f r') else at f ctx h)
  at-touch f ctx k r' h = rw (at-put f k r' (ensure ops k ctx) h, ensure-resources k ctx)

  pub touch-Running :
      (start ctx : Context ops) (k : String) (r r' : R)
      → Running start ctx
      → ctx.resources k ≡ some r
      → ops.saved r' ≡ ops.saved r
      → Running start (put ops k r' (ensure ops k ctx))
  unfolding is_some
  touch-Running start ctx k r r' run found same = record {
    saved = λ h. elim (Bool-cases (str_eq h k)) [
      | inl e ↦
          let here : some (ops.saved r) ≡ at ops.saved start k = rw found at (run.saved k) in
          rw (at-touch ops.saved ctx k r' h, e, same, same_key h k e) here
      | inr e ↦ rw (at-touch ops.saved ctx k r' h, e) (run.saved h)
    ];
    named = named-touch k r' ctx ∙ run.named;
    clean = λ h absent. elim (Bool-cases (str_eq h k)) [
      | inl e ↦
          let bad : true ≡ false = rw (contains-touch k r' ctx h, e) at absent in
          let no : ⊥ = cc in absurd no
      | inr e ↦
          let untouched : contains h ctx.dirty ≡ false =
            rw (contains-touch k r' ctx h, e) at absent in
          rw (at-touch ops.now ctx k r' h, at-touch ops.saved ctx k r' h, e) (run.clean h untouched)
    ];
    present = λ h there. elim (Bool-cases (str_eq h k)) [
      | inl e ↦ rw (at-touch ops.saved ctx k r' h, e, is_some)
      | inr e ↦
          let touched : contains h ctx.dirty ≡ true = rw (contains-touch k r' ctx h, e) at there in
          rw (at-touch ops.saved ctx k r' h, e) (run.present h touched)
    ];
  }

  pub at-ensure_resource :
      (f : R → S) (k : String) (r : R) (ctx : Context ops) (h : String)
      → at f (ensure_resource ops k r ctx) h ≡ (if str_eq h k then some (f r) else at f ctx h)
  unfolding ensure_resource
  at-ensure_resource f k r ctx h = elim (Bool-cases (str_eq h k)) [ inl e ↦ rw e | inr e ↦ rw e ]

  dirty-ensure_resource :
      (k : String) (r : R) (ctx : Context ops) (h : String)
      → contains h (ensure_resource ops k r ctx).dirty ≡ contains h ctx.dirty
  unfolding ensure_resource
  dirty-ensure_resource k r ctx h = refl

  named-ensure_resource :
      (start ctx : Context ops) (k : String) (r : R)
      → ctx.named ≡ start.named
      → (ensure_resource ops k r ctx).named ≡ (ensure_resource ops k r start).named
  unfolding ensure_resource
  named-ensure_resource start ctx k r same =
      ap (λ named j. if str_eq j k then true else named j) same

  -- A resource that is put in the place of another one is as if it had been there from the start.
  pub ensure_resource-Running :
      (start ctx : Context ops) (k : String) (r : R)
      → Running start ctx
      → ops.saved r ≡ ops.now r
      → Running (ensure_resource ops k r start) (ensure_resource ops k r ctx)
  unfolding is_some
  ensure_resource-Running start ctx k r run fresh = record {
    saved = λ h. elim (Bool-cases (str_eq h k)) [
      | inl e ↦
          rw (at-ensure_resource ops.saved k r ctx h, at-ensure_resource ops.saved k r start h, e)
            refl
      | inr e ↦
          rw (at-ensure_resource ops.saved k r ctx h, at-ensure_resource ops.saved k r start h, e)
            (run.saved h)
    ];
    named = named-ensure_resource start ctx k r run.named;
    clean = λ h absent. elim (Bool-cases (str_eq h k)) [
      | inl e ↦
          rw
            (at-ensure_resource ops.now k r ctx h, at-ensure_resource ops.saved k r ctx h, e, fresh)
            refl
      | inr e ↦
          rw (at-ensure_resource ops.now k r ctx h, at-ensure_resource ops.saved k r ctx h, e)
            (run.clean h (sym (dirty-ensure_resource k r ctx h) ∙ absent))
    ];
    present = λ h there. elim (Bool-cases (str_eq h k)) [
      | inl e ↦ rw (at-ensure_resource ops.saved k r ctx h, e, is_some)
      | inr e ↦
          rw (at-ensure_resource ops.saved k r ctx h, e)
            (run.present h (sym (dirty-ensure_resource k r ctx h) ∙ there))
    ];
  }
