-- ===== src/Trace/VClock/Counted.antt =====
-- distsys/trace/vclock.go: what `Merge` and `Inc` do to the counts of a clock.
use pgo_eval.Base.{
  Option-cases, ℕ, suc, ◌<◌, ◌^◌, String, ◌≡◌, refl, none, some, if◌then◌else◌, arith, ◌>>=◌,
  Bool-cases, inl, inr,
}
use pgo_eval.Base.Int.{pos, ◌+ℤ◌}
use pgo_eval.Int32.{wrap, wrap-eq_self}
use pgo_eval.Hasher.{Hasher}
use pgo_eval.Maps.{MapLib}
use pgo_eval.Tla.{TlaValue}
use pgo_eval.Trace.VClock.{get_count, VClock, merge, ensure_map, key_tuple, inc}
use pgo_eval.Trace.VClock.Merge.{
  larger, Counts, count_of, as_number-count, set-Counts, empty-Counts, merge_shorter-Merged,
}

wrap-suc : (n : ℕ) → suc n < 2 ^ 31 → wrap (pos n +ℤ pos 1) ≡ pos (suc n)
unfolding ◌+ℤ◌
wrap-suc n h =
    let sum : pos n +ℤ pos 1 ≡ pos (suc n) = ground arith in rw sum (wrap-eq_self (pos (suc n)) h)

module _ {K : Type 0} ⦃h : Hasher K⦄ (lib : MapLib K) (tla : TlaValue K) where
  open lib use {Map, get, set}

  -- A clock all of whose counts are numbers that are not negative, and the count of a key.
  abbrev pub AllCounted : VClock lib tla → Type 0
  AllCounted none = Unit {0}
  AllCounted (some m) = Counts lib tla m

  abbrev pub counted : VClock lib tla → K → ℕ
  counted none j = 0
  counted (some m) j = count_of lib tla (get m j)

  -- Merging two clocks whose counts are numbers that are not negative does not panic, and gives
  -- each archetype the greater of its two counts, whichever clock the code iterates over.
  pub merge-greatest :
      (a b : VClock lib tla)
      → AllCounted a
      → AllCounted b
      → (c : VClock lib tla) × (merge lib tla a b ≡ some c)
        × AllCounted c
        × ((j : K) → counted c j ≡ larger (counted a j) (counted b j))
  unfolding merge
  merge-greatest none b ca cb = (b, refl, cb, λ j. ground arith)
  merge-greatest (some a) none ca cb = (some a, refl, ca, λ j. ground arith)
  merge-greatest (some a) (some b) ca cb =
      let (c, run, m) = merge_shorter-Merged lib tla a b ca cb in
      (some c, rw (run, ◌>>=◌), m.counts, m.greatest)

  counted-ensure_map :
      (a : VClock lib tla)
      → AllCounted a
      → Counts lib tla (ensure_map lib tla a)
        × ((j : K) → count_of lib tla (get (ensure_map lib tla a) j) ≡ counted a j)
  unfolding ensure_map
  counted-ensure_map none ca = (empty-Counts lib tla, λ j. rw lib.get-empty)
  counted-ensure_map (some m) ca = (ca, λ j. refl)

  -- Counting one more event of an archetype does not panic; as long as its count is below the
  -- greatest `int32`, it adds one to it and leaves the other counts as they were.
  pub inc-counted :
      (name : String) (self : K) (a : VClock lib tla)
      → AllCounted a
      → suc (counted a (key_tuple lib tla name self)) < 2 ^ 31
      → (c : VClock lib tla) × (inc lib tla name self a ≡ some c)
        × AllCounted c
        × ((j : K)
            → counted c j ≡ (
                if h.equal j (key_tuple lib tla name self)
                then suc (counted a (key_tuple lib tla name self))
                else counted a j))
  unfolding inc
  inc-counted name self a ca small =
      let (counts, same_counts) = counted-ensure_map a ca in
      let map = ensure_map lib tla a in
      let key = key_tuple lib tla name self in
      let old = as_number-count lib tla (get map key) (counts key) in
      let fits = wrap-suc (counted a key) small in
      (
        some (set map key (tla.make_number (pos (suc (counted a key))))),
        rw (old, ◌>>=◌, same_counts key, fits),
        set-Counts lib tla map key _ (suc (counted a key), tla.as_number-make_number _) counts,
        λ j. elim (Bool-cases (h.equal j key)) [
          | inl same ↦ rw (lib.get-set map key j _, same, tla.as_number-make_number)
          | inr other ↦ rw (lib.get-set map key j _, other) (same_counts j)
        ],
      )

  -- `Get` returns the count of an archetype.
  pub get_count-counted :
      (name : String) (self : K) (a : VClock lib tla)
      → AllCounted a
      → get_count lib tla name self a ≡ some (pos (counted a (key_tuple lib tla name self)))
  unfolding get_count
  get_count-counted name self none ca = refl
  get_count-counted name self (some m) ca =
      elim (Option-cases (get m (key_tuple lib tla name self))) [
        | inl e ↦ rw (get_count, e)
        | inr (v, e) ↦ let (n, en) = ca (key_tuple lib tla name self) v e in rw (get_count, e, en)
      ]
