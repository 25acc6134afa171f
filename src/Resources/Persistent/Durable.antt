-- ===== src/Resources/Persistent/Durable.antt =====
-- distsys/resources/persistent.go: what is in the database.
use pgo_eval.Base.{
  ◌≡◌, ◌⊎◌, refl, sym, ap, ◌∙◌, Bool, true, false, Option, none, some, List, [], ◌∷◌, ◌>>=◌, arith,
  Bool-cases, inl, inr,
}
use pgo_eval.Context.Sections.Contract.{Resource}
use pgo_eval.Resources.Persistent.{
  Persistent, make_persistent, abort, pre_commit, update, commit, read_at, write_at,
}

-- The calls of a resource, the latest first; the writes are of the whole value.
pub data Call (V : Type 0) : Type 0 where
  read_call : List V → Call V
  write_call : V → Call V
  pre_commit_call commit_call abort_call : Call V

settled : {S : Type 0} {flag : Bool} {s t : S} → (flag ≡ true) ⊎ (s ≡ t) → flag ≡ false → s ≡ t
settled (inl e) off = let no' : ⊥ = ground arith in absurd no'
settled (inr same) off = same

same_flag :
    {S : Type 0} {flag : Bool} {s s' t t' : S}
    → (flag ≡ true) ⊎ (s ≡ t)
    → s' ≡ s
    → t' ≡ t
    → (flag ≡ true) ⊎ (s' ≡ t')
same_flag (inl e) p q = inl e
same_flag (inr same) p q = inr (p ∙ same ∙ sym q)

module _ {V R S B : Type 0} (ops : Resource V R S) where
  -- The database has the state of the last commit, or nothing, as long as that is the initial one;
  -- and a state that has not been committed is flagged.
  pub record Durable (encode : S → B) (start : S) (res : Persistent R B) : Type 0 where
    pub stored :
        ((res.db ≡ none) × (ops.saved res.wrapped_res ≡ start))
        ⊎ (res.db ≡ some (encode (ops.saved res.wrapped_res)))
    pub flagged : (res.has_new_value ≡ true) ⊎ (ops.saved res.wrapped_res ≡ ops.now res.wrapped_res)

module _ {V R S B : Type 0} (ops : Resource V R S) (get_state : R → Option B) where
  pub perform : Call V → Persistent R B → Option (Persistent R B)
  perform (read_call is) res = some (read_at ops get_state is res).1
  perform (write_call v) res = some (write_at ops get_state [] v res).1
  perform pre_commit_call res = some (pre_commit ops get_state res).1
  perform commit_call res = commit ops get_state res
  perform abort_call res = some (abort ops get_state res)

  pub performs : List (Call V) → Persistent R B → Option (Persistent R B)
  performs [] res = some res
  performs (c ∷ past) res = performs past res >>= perform c

  -- A write below an index is committed without the database being told.
  pub write_at-commit :
      (i : V) (is : List V) (v : V) (res : Persistent R B)
      → res.has_new_value ≡ false
      → (res' : Persistent R B) × (commit ops get_state (write_at ops get_state (i ∷ is) v res).1
          ≡ some res')
        × (res'.db ≡ res.db)
        × (ops.saved res'.wrapped_res ≡ ops.now (ops.write_at (i ∷ is) v res.wrapped_res).1)
  unfolding commit update write_at
  write_at-commit i is v res unchanged =
      let r = (ops.write_at (i ∷ is) v res.wrapped_res).1 in
      (
        record res { wrapped_res = ops.commit r },
        rw (unchanged, ◌>>=◌) refl,
        refl,
        ops.saved-commit r,
      )

  module _ (encode : S → B) (get_state_lem : (r : R) → get_state r ≡ some (encode (ops.now r)))
      (now-read_at : (is : List V) (r : R) → ops.now (ops.read_at is r).1 ≡ ops.now r) where
    -- What leaves the saved state alone leaves the database right.
    kept :
        (start : S) (res : Persistent R B) (r : R)
        → ops.saved r ≡ ops.saved res.wrapped_res
        → Durable ops encode start res
        → ((res.db ≡ none) × (ops.saved r ≡ start)) ⊎ (res.db ≡ some (encode (ops.saved r)))
    kept start res r same d = elim d.stored [
      | inl (empty, first) ↦ inl (empty, same ∙ first)
      | inr stored ↦ inr (stored ∙ ap (λ s. some (encode s)) (sym same))
    ]

    commit-Durable :
        (start : S) (res : Persistent R B)
        → Durable ops encode start res
        → (res' : Persistent R B) × (commit ops get_state res ≡ some res')
          × Durable ops encode start res'
    unfolding commit update
    commit-Durable start res d = elim (Bool-cases res.has_new_value) [
      | inl new ↦ (
        record {
          db = some (encode (ops.now res.wrapped_res));
          wrapped_res = ops.commit res.wrapped_res;
          has_new_value = false;
        },
        rw (new, get_state_lem res.wrapped_res, ◌>>=◌) refl,
        record {
          stored = inr (ap (λ s. some (encode s)) (sym (ops.saved-commit res.wrapped_res)));
          flagged = inr (ops.saved-commit res.wrapped_res ∙ sym (ops.now-commit res.wrapped_res));
        },
      )
      | inr old ↦ (
        record res { wrapped_res = ops.commit res.wrapped_res },
        rw (old, ◌>>=◌) refl,
        record {
          stored =
              kept start res (ops.commit res.wrapped_res)
                (ops.saved-commit res.wrapped_res ∙ sym (settled d.flagged old)) d;
          flagged = inr (ops.saved-commit res.wrapped_res ∙ sym (ops.now-commit res.wrapped_res));
        },
      )
    ]

    perform-Durable :
        (start : S) (c : Call V) (res : Persistent R B)
        → Durable ops encode start res
        → (res' : Persistent R B) × (perform c res ≡ some res') × Durable ops encode start res'
    unfolding perform read_at write_at pre_commit abort
    perform-Durable start (read_call is) res d = (
      _,
      refl,
      record {
        stored = kept start res _ (ops.saved-read_at is res.wrapped_res) d;
        flagged =
            same_flag d.flagged (ops.saved-read_at is res.wrapped_res)
              (now-read_at is res.wrapped_res);
      },
    )
    perform-Durable start (write_call v) res d = (
      _,
      refl,
      record {
        stored = kept start res _ (ops.saved-write_at [] v res.wrapped_res) d;
        flagged = inl refl;
      },
    )
    perform-Durable start pre_commit_call res d = (
      _,
      refl,
      record {
        stored = kept start res _ (ops.saved-pre_commit res.wrapped_res) d;
        flagged =
            same_flag d.flagged (ops.saved-pre_commit res.wrapped_res)
              (ops.now-pre_commit res.wrapped_res);
      },
    )
    perform-Durable start commit_call res d = commit-Durable start res d
    perform-Durable start abort_call res d = (
      _,
      refl,
      record {
        stored = kept start res _ (ops.saved-abort res.wrapped_res) d;
        flagged = inr (ops.saved-abort res.wrapped_res ∙ sym (ops.now-abort res.wrapped_res));
      },
    )

    -- Let `get_state` encode the current state of the wrapped resource, which a read does not
    -- change. On a resource that is made over an empty database and a wrapped resource that has no
    -- uncommitted change, no sequence of reads, writes of the whole value, pre-commits, commits and
    -- aborts panics. After it, the database has the encoding of the state of the last commit, or it
    -- is empty and that state is the initial one; and unless the new value is flagged, so that the
    -- next commit stores it, the current state is the committed one.
    pub performs-Durable :
        (past : List (Call V)) (r : R)
        → ops.saved r ≡ ops.now r
        → (res : Persistent R B) × (performs past (make_persistent none r) ≡ some res)
          × Durable ops encode (ops.saved r) res
    unfolding performs make_persistent
    performs-Durable [] r clean =
        (_, refl, record { stored = inl (refl, refl); flagged = inr clean })
    performs-Durable (c ∷ past) r clean =
        let (res, run, d) = performs-Durable past r clean in
        let (res', step, d') = perform-Durable (ops.saved r) c res d in
        (res', rw (run, ◌>>=◌) step, d')
