-- ===== src/Context/Procedures/Return.antt =====
-- A return undoes a call.
use text.Mathlib.Text.{◌==◌ as str_eq}
use text.Mathlib.TextPositions.{eq_refl}
use pgo_eval.Base.{
  String, ◌≡◌, refl, sym, ap, ◌∙◌, inl, inr, true, Option, none, some, List, [], ◌∷◌, if◌then◌else◌,
  ltb, length, >>=-eq-some, Bool-cases,
}
use pgo_eval.Hasher.{Hasher}
use pgo_eval.Maps.{MapLib, lookup}
use pgo_eval.Tla.Values.{Values}
use pgo_eval.Tla.Tuples.{o_symbol}
use pgo_eval.Tla.Tuples.Sequences.{o_symbol-append, head_part, tail_part}
use pgo_eval.Context.Sections.{contains}
use pgo_eval.Context.Procedures.{
  Store, put, write, Proc, Tables, goto, save_vars, enter_proc, call, restore, return,
}
use pgo_eval.Context.Procedures.Restore.{Restorable-put, or_else, restore_lem, Restorable-all}
use pgo_eval.Context.Procedures.Saved.{
  equal-names, save_vars-saved, save_vars-keys, set_key, or_right,
}

some_inj {ℓ} : {A : Type ℓ} (a b : A) → some a ≡ some b → a ≡ b
some_inj a b e = cc

module _ {V : Type 0} ⦃h : Hasher V⦄ (lib : MapLib V) (values : Values lib) (nil_value : V)
    (tables : Tables V) where
  open lib use {Map, empty, get, set, entries}
  open values use {as_string, make_string, as_tuple, as_function, make_function, make_tuple}

  written : (x : String) (v : V) (s s' : Store V) → write x v s ≡ some s' → s' ≡ put x v s
  unfolding write
  written x v s s' e =
      let (old, there, e') = >>=-eq-some (s x) _ e in sym (some_inj (put x v s) s' e')

  written_at : (x : String) (v : V) (s s' : Store V) → write x v s ≡ some s' → s' x ≡ some v
  unfolding put
  written_at x v s s' e = ap (λ (o : Store V). o x) (written x v s s' e) ∙ rw (eq_refl x) refl

  goto_stack :
      (target : String) (s t : Store V)
      → goto lib values nil_value tables target s ≡ some t
      → t ".stack" ≡ s ".stack"
  unfolding goto put
  goto_stack target s t e = elim (Bool-cases (tables.jump_table target)) [
    | inr unknown ↦ absurd (let no : none ≡ some t = rw unknown at e in cc)
    | inl known ↦
        ap (λ (o : Store V). o ".stack") (written ".pc" (make_string target) s t (rw known at e))
  ]

  module _ (proc : Proc V) (return_pc : String) (args : List V) where
    -- The frame that a call leaves on the stack, below it what was there, and what the frame holds.
    pushed :
        (s t : Store V) (stack_val : V) (frames : List V)
        → ((s2 s3 : Store V) → proc.preamble s2 ≡ some s3 → s3 ".stack" ≡ s2 ".stack")
        → as_tuple stack_val ≡ some frames
        → enter_proc lib values nil_value tables proc return_pc args stack_val s ≡ some t
        → (b : Map V) × (s1 : Store V) × (save_vars lib values nil_value tables proc.state_vars args
              (set empty (make_string ".pc") (make_string return_pc))
              s
            ≡ some (b, s1))
          × (t ".stack" ≡ some (make_tuple (make_function b ∷ frames)))
    unfolding enter_proc goto
    pushed s t stack_val frames keeps e call =
        let (saved, sv, e1) =
          >>=-eq-some
            (save_vars lib values nil_value tables proc.state_vars args
              (set empty (make_string ".pc") (make_string return_pc)) s)
            _ call in
        let (b, s1) = saved in
        let joined =
          o_symbol-append lib values (make_tuple (make_function b ∷ [])) stack_val
            (make_function b ∷ []) frames (values.as_tuple-make_tuple (make_function b ∷ [])) e in
        let top : V = make_tuple (make_function b ∷ frames) in
        let (st, o, e2) =
          >>=-eq-some (o_symbol lib values (make_tuple (make_function b ∷ [])) stack_val) _ e1 in
        let (s2, w, e3) = >>=-eq-some (write ".stack" st s1) _ e2 in
        let (s3, pr, e4) = >>=-eq-some (proc.preamble s2) _ e3 in
        (
          b,
          s1,
          sv,
          goto_stack proc.label s3 t e4
              ∙ keeps s2 s3 pr
              ∙ written_at ".stack" st s1 s2 w
              ∙ sym o
              ∙ joined,
        )

    popped :
        (u : Store V) (b : Map V) (frames : List V)
        → u ".stack" ≡ some (make_tuple (make_function b ∷ frames))
        → return lib values nil_value tables u
          ≡ restore lib values nil_value tables (entries b) (put ".stack" (make_tuple frames) u)
    unfolding return
    popped u b frames e =
        let is_top = values.as_tuple-make_tuple (make_function b ∷ frames) in
        let top : V = make_tuple (make_function b ∷ frames) in
        rw
          (
            e,
            tail_part lib values top (make_function b) frames is_top,
            head_part lib values top (make_function b) frames is_top,
            values.as_function-make_function b,
          )
          refl

    named_keys :
        (s s1 u : Store V) (b : Map V)
        → save_vars lib values nil_value tables proc.state_vars args
            (set empty (make_string ".pc") (make_string return_pc))
            s
          ≡ some (b, s1)
        → ((y : String) → contains y (".pc" ∷ proc.state_vars) ≡ true → (w : V) × (u y ≡ some w))
        → (k v : V) → lookup k (entries b) ≡ some v
        → (x : String) × (k ≡ make_string x) × (w : V) × (u x ≡ some w)
    named_keys s s1 u b sv exist k v e =
        elim (save_vars-keys lib values nil_value tables proc.state_vars args
          (set empty (make_string ".pc") (make_string return_pc)) b s s1 sv k v
          (lib.get-entries b k ∙ e)) [
            | inl (x, is_x, c) ↦
                let (w, there) = exist x (or_right (str_eq x ".pc") c) in (x, is_x, w, there)
            | inr (w0, before) ↦
                elim (set_key lib values nil_value tables ".pc" empty (make_string return_pc) w0 k
                  before) [
                    | inl is_pc ↦ let (w, there) = exist ".pc" refl in (".pc", is_pc, w, there)
                    | inr nowhere ↦ absurd (let no = lib.get-empty {V = V} k in cc)
                  ]
          ]

    frame_at :
        (s s1 : Store V) (b : Map V) (y : String)
        → save_vars lib values nil_value tables proc.state_vars args
            (set empty (make_string ".pc") (make_string return_pc))
            s
          ≡ some (b, s1)
        → lookup (make_string y) (entries b) ≡ (
            if contains y proc.state_vars
            then some nil_value
            else if str_eq y ".pc"
            then some (make_string return_pc)
            else none)
    frame_at s s1 b y sv =
        sym (lib.get-entries b (make_string y))
        ∙ (save_vars-saved lib values nil_value tables proc.state_vars args
            (set empty (make_string ".pc") (make_string return_pc)) b s s1 sv y)
        ∙ rw
            (
              lib.get-set empty (make_string ".pc") (make_string y) (make_string return_pc),
              equal-names lib values nil_value tables y ".pc",
              lib.get-empty {V = V} (make_string y),
            )
            refl

    called_entered :
        (proc_name : String) (s t : Store V) (stack_val : V)
        → tables.proc_table proc_name ≡ some proc
        → s ".stack" ≡ some stack_val
        → call lib values nil_value tables proc_name return_pc args s ≡ some t
        → enter_proc lib values nil_value tables proc return_pc args stack_val s ≡ some t
    unfolding call
    called_entered proc_name s t stack_val known at_stack called =
        let called' = rw (known, at_stack) at called in
        elim (Bool-cases (ltb (length proc.state_vars) (length args))) [
          | inl too_many ↦ absurd (let no : none ≡ some t = rw too_many at called' in cc)
          | inr fits ↦ rw fits at called'
        ]

    -- What a return leaves in each variable of the store `u` that it is called in.
    abbrev pub returned : List V → Store V → String → Option V
    returned frames u y =
        if contains y proc.state_vars
        then some nil_value
        else if str_eq y ".pc"
        then some (make_string return_pc)
        else if str_eq y ".stack"
        then some (make_tuple frames)
        else u y

    returned_lem :
        (frames : List V) (u : Store V) (y : String)
        → or_else lib values nil_value tables
            (if contains y proc.state_vars
              then some nil_value
              else if str_eq y ".pc"
              then some (make_string return_pc)
              else none)
            (put ".stack" (make_tuple frames) u y)
          ≡ returned frames u y
    unfolding put
    returned_lem frames u y = elim (Bool-cases (contains y proc.state_vars)) [
      | inl var ↦ rw var refl
      | inr no_var ↦ elim (Bool-cases (str_eq y ".pc")) [
        | inl pc ↦ rw (no_var, pc) refl
        | inr no_pc ↦ rw (no_var, no_pc) refl
      ]
    ]

    -- What a call and its return make of the caller's store. The call is of a procedure whose preamble
    -- leaves the stack alone, from a store whose stack is a tuple; `u` is any store that the procedure
    -- comes to in which the stack is as after the call and the program counter and the variables
    -- exist. Then `Return` succeeds, the program counter is the address that was passed, the stack is
    -- the tuple from before the call, and every other variable is as the procedure left it, but that
    -- each of the procedure's own variables has the default value, whatever it was before the call.
    pub return-call :
        (proc_name : String) (s t u : Store V) (stack_val : V) (frames : List V)
        → tables.proc_table proc_name ≡ some proc
        → ((s2 s3 : Store V) → proc.preamble s2 ≡ some s3 → s3 ".stack" ≡ s2 ".stack")
        → s ".stack" ≡ some stack_val
        → as_tuple stack_val ≡ some frames
        → call lib values nil_value tables proc_name return_pc args s ≡ some t
        → u ".stack" ≡ t ".stack"
        → ((y : String) → contains y (".pc" ∷ proc.state_vars) ≡ true → (w : V) × (u y ≡ some w))
        → (r : Store V) × (return lib values nil_value tables u ≡ some r)
          × ((y : String) → r y ≡ returned frames u y)
    return-call proc_name s t u stack_val frames known keeps at_stack is_tuple called same exist =
        let entered = called_entered proc_name s t stack_val known at_stack called in
        let (b, s1, sv, on_top) = pushed s t stack_val frames keeps is_tuple entered in
        let u' : Store V = put ".stack" (make_tuple frames) u in
        let names = named_keys s s1 u b sv exist in
        let (r, e, g) =
          restore_lem lib values nil_value tables (entries b) u' (lib.entries-Distinct b) (
            Restorable-put lib values nil_value tables (entries b) ".stack" (make_tuple frames) u
              (Restorable-all lib values nil_value tables (entries b) u names)) in
        (
          r,
          popped u b frames (same ∙ on_top) ∙ e,
          λ y.
              g y
              ∙ ap (λ o. or_else lib values nil_value tables o (u' y)) (frame_at s s1 b y sv)
              ∙ returned_lem frames u y,
        )
