-- ===== src/Crdt/AwOrSet/Local.antt =====
-- distsys/resources/aworset.go: what `Read` and `Write` do at one replica.
use pgo_eval.Base.{
  ◌≡◌, refl, Bool, true, false, ◌||◌, Option, none, some, List, [], ◌∷◌, ◌∙◌, if◌then◌else◌, arith,
  Bool-cases, inl, inr,
}
use pgo_eval.Base.Int.{pos, ◌+ℤ◌}
use pgo_eval.Int32.{wrap}
use pgo_eval.Hasher.{Hasher}
use pgo_eval.Maps.{MapLib, lookup, Distinct}
use pgo_eval.Maps.Folds.{get_congr, lookup_congr}
use pgo_eval.Tla.{TlaValue}
use pgo_eval.Crdt.Command.{Command, add_op, rem_op, other_op}
use pgo_eval.Crdt.GCounter
use pgo_eval.Crdt.GCounter.{GCounter, or_zero}
use pgo_eval.Crdt.VClock
use pgo_eval.Crdt.AwOrSet.{AwOrSet, stays_added, collect, read, add_elem, rem_elem, obey}
use pgo_eval.Crdt.AwOrSet.Merge.{Exclusive}

abbrev pub present : {V : Type 0} → Option V → Bool
present none = false
present (some _) = true

-- Whether an element is in the set after a command on it.
abbrev pub outcome : Command → Bool → Bool
outcome add_op old = true
outcome rem_op old = false
outcome other_op old = old

module _ {K : Type 0} ⦃h : Hasher K⦄ (lib : MapLib K) (tla : TlaValue K) where
  open lib use {Map, get, set, delete, entries}

  abbrev pub contains : K → List K → Bool
  contains j [] = false
  contains j (k ∷ ks) = h.equal j k || contains j ks

  abbrev passes : AwOrSet lib tla → K → Option (GCounter lib) → Bool
  passes s j none = false
  passes s j (some vc) = stays_added lib tla (get s.rem_map j) vc

  contains-collect :
      (s : AwOrSet lib tla) (es : List (K × GCounter lib))
      → Distinct es
      → (j : K) → contains j (collect lib tla s es) ≡ passes s j (lookup j es)
  unfolding collect
  contains-collect s [] d j = refl
  contains-collect s ((k, vc) ∷ es) d j = elim (Bool-cases (h.equal j k)) [
    | inl same ↦
        let rest = contains-collect s es d.1 j in
        rw (same, get_congr lib s.rem_map j k same)
          (ground (arith, rest, lookup_congr j k es same, d.0))
    | inr other ↦ rw other (ground (arith, contains-collect s es d.1 j))
  ]

  passes_free :
      (s : AwOrSet lib tla) (j : K) (o : Option (GCounter lib))
      → get s.rem_map j ≡ none
      → passes s j o ≡ present o
  unfolding stays_added
  passes_free s j none free = refl
  passes_free s j (some vc) free = rw free

  -- Where no element is in both maps, `Read` returns the elements of the add map.
  pub contains-read :
      (s : AwOrSet lib tla)
      → Exclusive lib tla s
      → (j : K) → contains j (read lib tla s) ≡ present (get s.add_map j)
  unfolding read stays_added
  contains-read s ex j =
      contains-collect s (entries s.add_map) (lib.entries-Distinct s.add_map) j
      ∙ rw (← lib.get-entries s.add_map j)
          (elim (ex j) [ inl gone ↦ rw gone | inr free ↦ passes_free s j (get s.add_map j) free ])

  -- Counting one more write in a clock does not panic.
  inc_total :
      (id : K) (vc : GCounter lib) → (vc' : GCounter lib) × (VClock.inc lib tla id vc ≡ some vc')
  unfolding VClock.inc GCounter.write
  inc_total id vc = (set vc id (wrap (or_zero (get vc id) +ℤ pos 1)), rw tla.as_number-make_number)

  -- What a command on `elem` makes of a state.
  pub record Obeyed (cmd : Command) (elem : K) (s s' : AwOrSet lib tla) : Type 0 where
    pub exclusive : Exclusive lib tla s'
    pub members :
        (j : K)
        → present (get s'.add_map j) ≡ (
            if h.equal j elem
            then outcome cmd (present (get s.add_map j))
            else present (get s.add_map j))

  moved_to_add :
      (s : AwOrSet lib tla) (elem : K) (vc : GCounter lib)
      → Exclusive lib tla s
      → Obeyed add_op elem s
          (record { add_map = set s.add_map elem vc; rem_map = delete s.rem_map elem })
  moved_to_add s elem vc ex = record {
    exclusive = λ j. elim (Bool-cases (h.equal j elem)) [
      | inl same ↦ inr (rw (lib.get-delete, same))
      | inr other ↦ rw (lib.get-set, lib.get-delete, other) (ex j)
    ];
    members = λ j. rw lib.get-set (ground arith);
  }

  moved_to_rem :
      (s : AwOrSet lib tla) (elem : K) (vc : GCounter lib)
      → Exclusive lib tla s
      → Obeyed rem_op elem s
          (record { add_map = delete s.add_map elem; rem_map = set s.rem_map elem vc })
  moved_to_rem s elem vc ex = record {
    exclusive = λ j. elim (Bool-cases (h.equal j elem)) [
      | inl same ↦ inl (rw (lib.get-delete, same))
      | inr other ↦ rw (lib.get-set, lib.get-delete, other) (ex j)
    ];
    members = λ j. rw lib.get-delete (ground arith);
  }

  new_in_add :
      (s : AwOrSet lib tla) (elem : K) (vc : GCounter lib)
      → Exclusive lib tla s
      → get s.rem_map elem ≡ none
      → Obeyed add_op elem s (record s { add_map = set s.add_map elem vc })
  new_in_add s elem vc ex free = record {
    exclusive = λ j. elim (Bool-cases (h.equal j elem)) [
      | inl same ↦ inr (get_congr lib s.rem_map j elem same ∙ free)
      | inr other ↦ rw (lib.get-set, other) (ex j)
    ];
    members = λ j. rw lib.get-set (ground arith);
  }

  new_in_rem :
      (s : AwOrSet lib tla) (elem : K) (vc : GCounter lib)
      → Exclusive lib tla s
      → get s.add_map elem ≡ none
      → Obeyed rem_op elem s (record s { rem_map = set s.rem_map elem vc })
  new_in_rem s elem vc ex free = record {
    exclusive = λ j. elim (Bool-cases (h.equal j elem)) [
      | inl same ↦ inl (get_congr lib s.add_map j elem same ∙ free)
      | inr other ↦ rw (lib.get-set, other) (ex j)
    ];
    members = λ j. ground (arith, get_congr lib s.add_map j elem, free);
  }

  add_elem-Obeyed :
      (elem id : K) (s : AwOrSet lib tla) (a r : Option (GCounter lib))
      → Exclusive lib tla s
      → get s.rem_map elem ≡ r
      → (s' : AwOrSet lib tla) × (add_elem lib tla a r elem id s ≡ some s')
        × Obeyed add_op elem s s'
  unfolding add_elem
  add_elem-Obeyed elem id s (some vc) r ex e =
      let (vc', e') = inc_total id vc in (_, rw e', moved_to_add s elem vc' ex)
  add_elem-Obeyed elem id s none (some vc) ex e =
      let (vc', e') = inc_total id vc in (_, rw e', moved_to_add s elem vc' ex)
  add_elem-Obeyed elem id s none none ex e =
      let (vc', e') = inc_total id (VClock.make_vclock lib tla) in
      (record s { add_map = set s.add_map elem vc' }, rw e', new_in_add s elem vc' ex e)

  rem_elem-Obeyed :
      (elem id : K) (s : AwOrSet lib tla) (a r : Option (GCounter lib))
      → Exclusive lib tla s
      → get s.add_map elem ≡ a
      → (s' : AwOrSet lib tla) × (rem_elem lib tla a r elem id s ≡ some s')
        × Obeyed rem_op elem s s'
  unfolding rem_elem
  rem_elem-Obeyed elem id s (some vc) r ex e =
      let (vc', e') = inc_total id vc in (_, rw e', moved_to_rem s elem vc' ex)
  rem_elem-Obeyed elem id s none (some vc) ex e =
      let (vc', e') = inc_total id vc in (_, rw e', moved_to_rem s elem vc' ex)
  rem_elem-Obeyed elem id s none none ex e =
      let (vc', e') = inc_total id (VClock.make_vclock lib tla) in
      (record s { rem_map = set s.rem_map elem vc' }, rw e', new_in_rem s elem vc' ex e)

  -- From a state in which no element is in both maps, a command does not panic; it keeps the two
  -- maps apart, puts its element in the set if it is an addition and takes it out if it is a
  -- removal, and leaves every other element as it was.
  pub obey-Obeyed :
      (cmd : Command) (elem id : K) (s : AwOrSet lib tla)
      → Exclusive lib tla s
      → (s' : AwOrSet lib tla) × (obey lib tla cmd elem id s ≡ some s') × Obeyed cmd elem s s'
  unfolding obey
  obey-Obeyed add_op elem id s ex =
      add_elem-Obeyed elem id s (get s.add_map elem) (get s.rem_map elem) ex refl
  obey-Obeyed rem_op elem id s ex =
      rem_elem-Obeyed elem id s (get s.add_map elem) (get s.rem_map elem) ex refl
  obey-Obeyed other_op elem id s ex =
      (s, refl, record { exclusive = ex; members = λ j. ground arith })
