-- ===== src/HashMap/Keys.antt =====
-- distsys/hashmap/hashmap.go: `Keys` lists each present key once, in insertion order, after any
-- sequence of calls.
use pgo_eval.Base.{
  ◌≡◌, refl, Bool, true, false, ◌||◌, Option, none, some, List, [], ◌∷◌, ◌++◌, if◌then◌else◌, arith,
  Bool-cases, Option-cases, inl, inr,
}
use pgo_eval.Hasher.{Hasher, equal_symm}
use pgo_eval.HashMap.{HashMap, new, set, find_in, get, clear}
use pgo_eval.HashMap.Lookup.{overwrite-cases, get-set, get_congr, get-new, get-clear}

abbrev pub present : {V : Type 0} → Option V → Bool
present none = false
present (some _) = true

-- The calls that change a map, the latest first.
pub data Call (K V : Type 0) : Type 0 where
  set_call : K → V → Call K V
  clear_call : Call K V

module _ {K : Type 0} ⦃h : Hasher K⦄ where
  abbrev pub contains : K → List K → Bool
  contains j [] = false
  contains j (k ∷ ks) = h.equal j k || contains j ks

  abbrev pub Distinct : List K → Type 0
  Distinct [] = Unit {0}
  Distinct (k ∷ ks) = (contains k ks ≡ false) × Distinct ks

  contains-snoc : (j k : K) (ks : List K) → contains j (ks ++ k ∷ []) ≡ contains j ks || h.equal j k
  contains-snoc j k [] = ground arith
  contains-snoc j k (x ∷ ks) = rw (contains-snoc j k ks) (ground arith)

  Distinct-snoc :
      (k : K) (ks : List K) → Distinct ks → contains k ks ≡ false → Distinct (ks ++ k ∷ [])
  Distinct-snoc k [] d absent = (refl, tt)
  Distinct-snoc k (x ∷ ks) d absent = (
    rw contains-snoc (ground (arith, d.0, equal_symm k x)),
    Distinct-snoc k ks d.1 (ground arith),
  )

module _ {K V : Type 0} ⦃h : Hasher K⦄ where
  -- A new key goes to the end, and a key that is there stays where it is.
  set-keys :
      (k : K) (v : V) (t : HashMap K V)
      → (set k v t).keys ≡ (if present (get k t) then t.keys else t.keys ++ k ∷ [])
  unfolding set get find_in
  set-keys k v t = elim (Option-cases (t.m (h.hash k))) [
    | inl e ↦ rw (e, set, find_in)
    | inr (es, e) ↦ elim (overwrite-cases k v es) [
      | inl (none', absent) ↦ rw (e, set, none', absent)
      | inr (es', run, o) ↦ rw (e, set, run, o.found)
    ]
  ]

  -- `keys` lists exactly the keys that `Get` finds, none of them twice.
  pub record KeysMatch (t : HashMap K V) : Type 0 where
    pub distinct : Distinct t.keys
    pub complete : (j : K) → contains j t.keys ≡ present (get j t)

  pub set-KeysMatch : (k : K) (v : V) (t : HashMap K V) → KeysMatch t → KeysMatch (set k v t)
  set-KeysMatch k v t match = elim (Bool-cases (present (get k t))) [
    | inl old ↦ record {
      distinct = rw (set-keys, old) match.distinct;
      complete =
          λ j. rw (get-set, set-keys, old, match.complete j) (ground (arith, get_congr j k t));
    }
    | inr fresh ↦ record {
      distinct =
          rw (set-keys, fresh) (Distinct-snoc k t.keys match.distinct (rw match.complete fresh));
      complete = λ j. rw (get-set, set-keys, fresh, contains-snoc, match.complete j) (ground arith);
    }
  ]

  pub new-KeysMatch : KeysMatch new
  unfolding new
  new-KeysMatch = record { distinct = tt; complete = λ j. rw get-new }

  pub clear-KeysMatch : (t : HashMap K V) → KeysMatch (clear t)
  unfolding clear
  clear-KeysMatch t = record { distinct = tt; complete = λ j. rw get-clear }

  pub after : List (Call K V) → HashMap K V
  after [] = new
  after (set_call k v ∷ past) = set k v (after past)
  after (clear_call ∷ past) = clear (after past)

  -- What a map has to return: the latest value set at an equal key since the latest `Clear`.
  pub latest : K → List (Call K V) → Option V
  latest j [] = none
  latest j (set_call k v ∷ past) = if h.equal j k then some v else latest j past
  latest j (clear_call ∷ past) = none

  after-KeysMatch : (past : List (Call K V)) → KeysMatch (after past)
  unfolding after
  after-KeysMatch [] = new-KeysMatch
  after-KeysMatch (set_call k v ∷ past) = set-KeysMatch k v (after past) (after-KeysMatch past)
  after-KeysMatch (clear_call ∷ past) = clear-KeysMatch (after past)

  get-after : (past : List (Call K V)) (j : K) → get j (after past) ≡ latest j past
  unfolding after latest
  get-after [] j = get-new j
  get-after (set_call k v ∷ past) j = rw (get-set, get-after past j)
  get-after (clear_call ∷ past) j = get-clear j (after past)

  -- After any sequence of `Set` and `Clear` on a new map, `Get` returns the latest value set at an
  -- equal key since the latest `Clear`, or nothing if there is none, and `Keys` lists exactly the
  -- keys that `Get` finds, no two of them equal.
  pub after-latest :
      (past : List (Call K V))
      → ((j : K) → get j (after past) ≡ latest j past) × KeysMatch (after past)
  after-latest past = (get-after past, after-KeysMatch past)
