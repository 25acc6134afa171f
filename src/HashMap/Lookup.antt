-- ===== src/HashMap/Lookup.antt =====
-- distsys/hashmap/hashmap.go: what `Get` returns after `Set` and `Clear`.
use pgo_eval.Base.{
  ◌≡◌, ◌⊎◌, refl, true, Option, none, some, List, [], ◌∷◌, ◌++◌, ◌==◌, if◌then◌else◌, arith,
  Bool-cases, Option-cases, inl, inr, ==_iff,
}
use pgo_eval.Hasher.{Hasher, equal_symm, equal_congr, equal_congr_right}
use pgo_eval.HashMap.{Entry, HashMap, new, put, overwrite, set, find, find_in, get, clear}

abbrev pub or_else {ℓ} : {V : Type ℓ} → Option V → Option V → Option V
or_else none o = o
or_else (some v) o = some v

module _ {K V : Type 0} ⦃h : Hasher K⦄ where
  pub find-append :
      (j : K) (es fs : List (Entry K V)) → find j (es ++ fs) ≡ or_else (find j es) (find j fs)
  unfolding find
  find-append j [] fs = refl
  find-append j (e ∷ es) fs = ground (arith, find-append j es fs)

  -- A chain in which an entry was overwritten: the key was there, and reads its new value.
  pub record Overwritten (k : K) (v : V) (es es' : List (Entry K V)) : Type 0 where
    pub old : V
    pub found : find k es ≡ some old
    pub reads : (j : K) → find j es' ≡ (if h.equal j k then some v else find j es)

  pub overwrite-cases :
      (k : K) (v : V) (es : List (Entry K V))
      → ((overwrite k v es ≡ none) × (find k es ≡ none))
        ⊎ ((es' : List (Entry K V)) × (overwrite k v es ≡ some es') × Overwritten k v es es')
  unfolding overwrite find
  overwrite-cases k v [] = inl (refl, refl)
  overwrite-cases k v (e ∷ es) = elim (Bool-cases (h.equal e.key k)) [
    | inl same ↦ inr (
      record e { value = v } ∷ es,
      rw same,
      record {
        old = e.value;
        found = rw same;
        reads = λ j. rw (equal_symm j k) (ground (arith, equal_congr e.key k j same));
      },
    )
    | inr other ↦ elim (overwrite-cases k v es) [
      | inl (none', absent) ↦ inl (rw (other, none'), rw (other, absent))
      | inr (es', run, o) ↦ inr (
        e ∷ es',
        rw (other, run),
        record {
          old = o.old;
          found = rw (other, o.found);
          reads = λ j. ground (arith, o.reads j, equal_congr_right j k e.key, equal_symm e.key k);
        },
      )
    ]
  ]

  -- Looking up an equal key looks up the same entry.
  pub find_congr : (j k : K) (es : List (Entry K V)) → h.equal j k ≡ true → find j es ≡ find k es
  unfolding find
  find_congr j k [] e = refl
  find_congr j k (x ∷ es) e = ground (arith, find_congr j k es, equal_congr_right j k x.key)

  pub get_congr : (j k : K) (t : HashMap K V) → h.equal j k ≡ true → get j t ≡ get k t
  unfolding get find_in
  get_congr j k t e = rw (h.hash-equal j k e) (elim (Option-cases (t.m (h.hash k))) [
    | inl none' ↦ rw none'
    | inr (es, some') ↦ rw some' (find_congr j k es e)
  ])

  -- A new chain for the hash of `k` that reads `v` at `k`, and as the old chain elsewhere.
  get-put :
      (k j : K) (v : V) (t : HashMap K V) (es : List (Entry K V)) (keys : List K)
      → find j es ≡ (if h.equal j k then some v else find_in j (t.m (h.hash k)))
      → get j (record { m = put (h.hash k) es t.m; keys = keys })
        ≡ (if h.equal j k then some v else get j t)
  unfolding put get find_in
  get-put k j v t es keys reads = elim (Bool-cases (h.hash j == h.hash k)) [
    | inl same ↦ rw (same, reads, (==_iff (h.hash j) (h.hash k)).0 same)
    | inr other ↦ rw other (ground (arith, h.hash-equal j k))
  ]

  -- `Get` after `Set` returns the new value at each key that is equal to the one set, and what it
  -- returned before at every other key.
  pub get-set :
      (k j : K) (v : V) (t : HashMap K V)
      → get j (set k v t) ≡ (if h.equal j k then some v else get j t)
  unfolding set find_in find
  get-set k j v t = elim (Option-cases (t.m (h.hash k))) [
    | inl e ↦ rw (e, set) (get-put k j v t _ _ (rw (equal_symm k j, e) refl))
    | inr (es, e) ↦ elim (overwrite-cases k v es) [
      | inl (none', absent) ↦
          rw (e, set, none')
            (get-put k j v t _ _
              (rw (find-append, e, equal_symm k j) (ground (arith, find_congr j k es))))
      | inr (es', run, o) ↦ rw (e, set, run) (get-put k j v t _ _ (rw e (o.reads j)))
    ]
  ]

  pub get-new : (j : K) → get {V = V} j new ≡ none
  unfolding get new find_in
  get-new j = refl

  pub get-clear : (j : K) (t : HashMap K V) → get j (clear t) ≡ none
  unfolding get clear find_in
  get-clear j t = refl
