-- ===== src/Crdt/Lww/Membership.antt =====
-- distsys/resources/lww.go: what `Read` returns, and what `Write` does to the membership of an
-- element when the clock has not gone back.
use pgo_eval.Base.{
  ℕ, ◌<◌, ◌≤◌, ◌≡◌, refl, Bool, true, false, ◌&&◌, Option, none, some, List, [], ◌∷◌, ◌∙◌,
  if◌then◌else◌, arith, Bool-cases, inl, inr,
}
use pgo_eval.Hasher.{Hasher}
use pgo_eval.Maps.{MapLib, lookup}
use pgo_eval.Maps.Folds.{get_congr}
use pgo_eval.Crdt.Command.{add_op, rem_op, other_op}
use pgo_eval.Crdt.Lww.{LwwSet, wins, is_in, collect, read, obey}

abbrev listed : {V : Type 0} → Option V → Bool
listed none = false
listed (some _) = true

wins-later :
    (rem : Option ℕ) (now : ℕ)
    → ((stamp : ℕ) → rem ≡ some stamp → stamp ≤ now)
    → wins (some now) rem ≡ true
wins-later none now h = refl
wins-later (some rem) now h = ground (arith, h rem refl)

wins-earlier :
    (add : Option ℕ) (now : ℕ)
    → ((stamp : ℕ) → add ≡ some stamp → stamp < now)
    → wins add (some now) ≡ false
wins-earlier none now h = refl
wins-earlier (some add) now h = ground (arith, h add refl)

module _ {K : Type 0} ⦃h : Hasher K⦄ (lib : MapLib K) where
  open lib use {Map, get, set, entries}

  is_in_congr : (s : LwwSet lib) (j k : K) → h.equal j k ≡ true → is_in lib s j ≡ is_in lib s k
  unfolding is_in
  is_in_congr s j k e = rw (get_congr lib s.add_set j k e, get_congr lib s.rem_set j k e)

  get-collect :
      (s : LwwSet lib) (builder : Map Bool) (es : List (K × ℕ)) (j : K)
      → get (collect lib s builder es) j
        ≡ (if listed (lookup j es) && is_in lib s j then some true else get builder j)
  unfolding collect
  get-collect s builder [] j = refl
  get-collect s builder ((id, stamp) ∷ es) j =
      rw (get-collect s (if is_in lib s id then set builder id true else builder) es j)
        (ground (arith, lib.get-set builder id j true, is_in_congr s j id))

  -- `Read` returns the set of the elements that `isIn` accepts.
  pub get-read :
      (s : LwwSet lib) (j : K) → get (read lib s) j ≡ (if is_in lib s j then some true else none)
  unfolding read is_in
  get-read s j =
      get-collect s lib.empty (entries s.add_set) j
      ∙ (rw (← lib.get-entries s.add_set j, lib.get-empty j) (ground arith))

  -- For a command at a time after the last addition of its element and not before the last removal:
  -- an addition puts the element in, a removal takes it out, any other command changes nothing, and
  -- none of them touches another element.
  pub is_in-obey :
      (s : LwwSet lib) (elem j : K) (now : ℕ)
      → ((stamp : ℕ) → get s.add_set elem ≡ some stamp → stamp < now)
      → ((stamp : ℕ) → get s.rem_set elem ≡ some stamp → stamp ≤ now)
      → (is_in lib (obey lib add_op elem now s) j
          ≡ (if h.equal j elem then true else is_in lib s j))
        × (is_in lib (obey lib rem_op elem now s) j
            ≡ (if h.equal j elem then false else is_in lib s j))
        × (is_in lib (obey lib other_op elem now s) j ≡ is_in lib s j)
  unfolding is_in obey
  is_in-obey s elem j now added removed = elim (Bool-cases (h.equal j elem)) [
    | inl same ↦ (
      rw (lib.get-set, same, get_congr lib s.rem_set j elem same)
          (wins-later (get s.rem_set elem) now removed),
      rw (lib.get-set, same, get_congr lib s.add_set j elem same)
          (wins-earlier (get s.add_set elem) now added),
      refl,
    )
    | inr other ↦ (rw (lib.get-set, other), rw (lib.get-set, other), refl)
  ]
