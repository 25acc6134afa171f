-- ===== src/Resources/Shared/Invariant.antt =====
-- distsys/resources/localshared.go: the semaphore is never overdrawn, and a writer is alone.
use mathlib.Core.Bool.{false≢true}
use pgo_eval.Base.{
  ℕ, zero, suc, ◌+◌, ◌≤◌, ◌<◌, ◌≡◌, ◌≢◌, inl, inr, refl, sym, ◌∙◌, Bool, true, false, ltb, ◌==◌,
  arith, dec_lt, Bool-cases,
}
use pgo_eval.Resources.Local
use pgo_eval.Resources.Local.{Local}
use pgo_eval.Resources.Local.Rollback.{rolled_back}
use pgo_eval.Resources.Shared.{
  max_sem_size, Shared, update, held, release, abort, commit, read_wants, write_wants, read_granted,
  write_granted, index_write, Step, read_step, write_step, index_step, commit_step, abort_step,
  make_shared, Reach, start, later,
}

held-update_above : (n : ℕ) (f : ℕ → ℕ) (i a : ℕ) → n ≤ i → held n (update f i a) ≡ held n f
unfolding held
held-update_above zero f i a h = refl
held-update_above (suc n) f i a h = ground (arith, held-update_above n f i a)

held-update : (n : ℕ) (f : ℕ → ℕ) (i a : ℕ) → i < n → held n (update f i a) + f i ≡ held n f + a
unfolding held
held-update zero f i a h = absurd (omega arith)
held-update (suc n) f i a h = elim (dec_lt i n) [
  | yes below ↦ ground (arith, held-update n f i a below)
  | no last ↦ ground (arith, held-update_above n f i a)
]

le-held : (n : ℕ) (f : ℕ → ℕ) (i : ℕ) → i < n → f i ≤ held n f
unfolding held
le-held zero f i h = absurd (omega arith)
le-held (suc n) f i h = elim (dec_lt i n) [
  | yes below ↦ omega (arith, le-held n f i below)
  | no last ↦ ground arith
]

-- Two archetypes hold no more than all.
two-le-held : (n : ℕ) (f : ℕ → ℕ) (i j : ℕ) → i < n → j < n → i ≢ j → f i + f j ≤ held n f
two-le-held n f i j hi hj ne = ground (arith, held-update n f i 0, le-held n (update f i 0) j)

held-zero : (n : ℕ) → held n (λ _. 0) ≡ 0
unfolding held
held-zero zero = refl
held-zero (suc n) = omega (arith, held-zero n)

-- The semaphore has given out what the archetypes hold together, and no more than it has.
pub record IsLocked {V : Type 0} (n : ℕ) (s : Shared V) : Type 0 where
  pub counts : s.sem ≡ held n s.acquired
  pub fits : s.sem ≤ max_sem_size

-- An uncommitted write belongs to an archetype that holds all of it.
abbrev IsOwned : {V : Type 0} → ℕ → Shared V → Type 0
IsOwned n s = (s.res.has_old_value ≡ true) → (i : ℕ) × (i < n) × (s.acquired i ≡ max_sem_size)

module _ {V : Type 0} where
  release-IsLocked : (n i : ℕ) (s : Shared V) → i < n → IsLocked n s → IsLocked n (release i s)
  unfolding release
  release-IsLocked n i s lt inv = elim (Bool-cases (ltb 0 (s.acquired i))) [
    | inl some_held ↦ rw some_held (record {
      counts =
          omega (arith, held-update n s.acquired i 0 lt, le-held n s.acquired i lt, inv.counts);
      fits = omega (arith, inv.fits);
    })
    | inr none_held ↦ rw none_held inv
  ]

  release-IsOwned :
      (n i : ℕ) (s : Shared V)
      → i < n
      → (s.res.has_old_value ≡ true → (j : ℕ) × (j < n) × (s.acquired j ≡ max_sem_size) × (j ≢ i))
      → IsOwned n (release i s)
  unfolding release
  release-IsOwned n i s lt owned = elim (Bool-cases (ltb 0 (s.acquired i))) [
    | inl some_held ↦ rw some_held (λ o. let (j, jl, je, ne) = owned o in (j, jl, ground arith))
    | inr none_held ↦ rw none_held (λ o. let (j, jl, je, ne) = owned o in (j, jl, je))
  ]

  read-IsLocked :
      (n i : ℕ) (s : Shared V)
      → i < n
      → s.sem + read_wants i s ≤ max_sem_size
      → IsLocked n s
      → IsLocked n (read_granted i s).1
  unfolding read_granted read_wants
  read-IsLocked n i s lt room inv = elim (Bool-cases (s.acquired i == 0)) [
    | inl e ↦ rw e (record {
      counts = ground (arith, held-update n s.acquired i 1 lt, inv.counts);
      fits = ground arith;
    })
    | inr e ↦ rw e inv
  ]

  read-IsOwned : (n i : ℕ) (s : Shared V) → IsOwned n s → IsOwned n (read_granted i s).1
  unfolding read_granted
  read-IsOwned n i s owned = elim (Bool-cases (s.acquired i == 0)) [
    | inl e ↦ rw e (λ o. let (j, jl, je) = owned o in (j, jl, ground arith))
    | inr e ↦ rw e owned
  ]

  write-IsLocked :
      (n i : ℕ) (value : V) (s : Shared V)
      → i < n
      → s.sem + write_wants i s ≤ max_sem_size
      → IsLocked n s
      → IsLocked n (write_granted i value s)
  unfolding write_granted write_wants
  write-IsLocked n i value s lt room inv = elim (Bool-cases (ltb (s.acquired i) max_sem_size)) [
    | inl e ↦ record {
      counts = ground (arith, held-update n s.acquired i max_sem_size lt, inv.counts);
      fits = room;
    }
    | inr e ↦ record { counts = ground (arith, inv.counts); fits = room }
  ]

  write-IsOwned :
      (n i : ℕ) (value : V) (s : Shared V)
      → i < n
      → IsLocked n s
      → IsOwned n (write_granted i value s)
  unfolding write_granted
  write-IsOwned n i value s lt inv o =
      (i, lt, ground (arith, le-held n s.acquired i lt, inv.counts, inv.fits))

module _ {V : Type 0} (zero_value : V) (n : ℕ) where
  commit-IsLocked :
      (i : ℕ) (s : Shared V) → i < n → IsLocked n s → IsLocked n (commit zero_value i s)
  unfolding commit
  commit-IsLocked i s lt inv = elim (Bool-cases (s.acquired i == max_sem_size)) [
    | inl e ↦ rw e (
        release-IsLocked n i (record s { res = Local.commit zero_value s.res }) lt
          (record { counts = inv.counts; fits = inv.fits }))
    | inr e ↦ rw e (release-IsLocked n i s lt inv)
  ]

  commit-IsOwned : (i : ℕ) (s : Shared V) → i < n → IsOwned n s → IsOwned n (commit zero_value i s)
  unfolding commit Local.commit
  commit-IsOwned i s lt owned = elim (Bool-cases (s.acquired i == max_sem_size)) [
    | inl e ↦ rw e (
        release-IsOwned n i (record s { res = Local.commit zero_value s.res }) lt
          (λ o. absurd (false≢true o)))
    | inr e ↦
        rw e
          (release-IsOwned n i s lt (λ o. let (j, jl, je) = owned o in (j, jl, je, ground arith)))
  ]

  abort-has_old_value : (res : Local V) → (Local.abort zero_value res).has_old_value ≡ false
  unfolding Local.abort
  abort-has_old_value res = ground arith

  abort-IsLocked : (i : ℕ) (s : Shared V) → i < n → IsLocked n s → IsLocked n (abort zero_value i s)
  unfolding abort
  abort-IsLocked i s lt inv = elim (Bool-cases (s.acquired i == max_sem_size)) [
    | inl e ↦ rw e (
        release-IsLocked n i (record s { res = Local.abort zero_value s.res }) lt
          (record { counts = inv.counts; fits = inv.fits }))
    | inr e ↦ rw e (release-IsLocked n i s lt inv)
  ]

  abort-IsOwned : (i : ℕ) (s : Shared V) → i < n → IsOwned n s → IsOwned n (abort zero_value i s)
  unfolding abort
  abort-IsOwned i s lt owned = elim (Bool-cases (s.acquired i == max_sem_size)) [
    | inl e ↦ rw e (
        release-IsOwned n i (record s { res = Local.abort zero_value s.res }) lt
          (λ o. absurd (false≢true (sym (abort-has_old_value s.res) ∙ o))))
    | inr e ↦
        rw e
          (release-IsOwned n i s lt (λ o. let (j, jl, je) = owned o in (j, jl, je, ground arith)))
  ]

  Step-IsLocked :
      {indexed : Bool} {s t : Shared V}
      → Step zero_value n indexed s t
      → IsLocked n s
      → IsLocked n t
  unfolding index_write
  Step-IsLocked {s = s} (read_step i lt room) inv = read-IsLocked n i s lt room inv
  Step-IsLocked {s = s} (write_step i value lt room) inv = write-IsLocked n i value s lt room inv
  Step-IsLocked {s = s} (index_step value on) inv = record { counts = inv.counts; fits = inv.fits }
  Step-IsLocked {s = s} (commit_step i lt) inv = commit-IsLocked i s lt inv
  Step-IsLocked {s = s} (abort_step i lt) inv = abort-IsLocked i s lt inv

  pub Reach-IsLocked :
      {indexed : Bool} {value : V} {s : Shared V}
      → Reach zero_value value n indexed s
      → IsLocked n s
  unfolding make_shared
  Reach-IsLocked start = record { counts = sym (held-zero n); fits = omega arith }
  Reach-IsLocked (later r st) = Step-IsLocked st (Reach-IsLocked r)

  Step-IsOwned :
      {s t : Shared V} → Step zero_value n false s t → IsLocked n s → IsOwned n s → IsOwned n t
  Step-IsOwned {s} (read_step i lt room) inv owned = read-IsOwned n i s owned
  Step-IsOwned {s} (write_step i value lt room) inv owned = write-IsOwned n i value s lt inv
  Step-IsOwned {s} (index_step value on) inv owned = absurd (false≢true on)
  Step-IsOwned {s} (commit_step i lt) inv owned = commit-IsOwned i s lt owned
  Step-IsOwned {s} (abort_step i lt) inv owned = abort-IsOwned i s lt owned

  Reach-IsOwned : {value : V} {s : Shared V} → Reach zero_value value n false s → IsOwned n s
  unfolding make_shared Local.new
  Reach-IsOwned start = λ o. absurd (false≢true o)
  Reach-IsOwned (later r st) = Step-IsOwned st (Reach-IsLocked r) (Reach-IsOwned r)

  -- In every state that the archetypes reach, with or without writes below an index, in which one
  -- of them holds all units, and so may write, the semaphore has given out what the archetypes hold
  -- together, no more than its size, and every other archetype holds none.
  pub writer_excludes :
      {indexed : Bool} {value : V} {s : Shared V}
      → Reach zero_value value n indexed s
      → (i j : ℕ) → i < n
      → j < n
      → i ≢ j
      → s.acquired i ≡ max_sem_size
      → (held n s.acquired ≤ max_sem_size) × (s.sem ≡ held n s.acquired) × (s.acquired j ≡ 0)
  writer_excludes {s = s} r i j hi hj ne full =
      let inv = Reach-IsLocked r in
      (
        omega (arith, inv.fits, inv.counts),
        inv.counts,
        omega (arith, two-le-held n s.acquired i j hi hj ne, inv.fits, inv.counts),
      )

  -- In every state that the archetypes reach without a write below an index, while an archetype only
  -- reads (it holds some units, not all), what it reads is a committed value: no archetype has an
  -- uncommitted write.
  pub readers_see_committed :
      {value : V} {s : Shared V}
      → Reach zero_value value n false s
      → (i : ℕ) → i < n
      → 0 < s.acquired i
      → s.acquired i < max_sem_size
      → (s.res.has_old_value ≡ false) × ((read_granted i s).0 ≡ rolled_back s.res)
  unfolding read_granted Local.read_value
  readers_see_committed {s = s} r i hi some_held not_all = elim (Bool-cases s.res.has_old_value) [
    | inr clean ↦ (clean, ground arith)
    | inl dirty ↦
        let inv = Reach-IsLocked r in
        let (j, jl, je) = Reach-IsOwned r dirty in
        absurd
          (omega (arith, two-le-held n s.acquired i j hi jl (ground arith), inv.fits, inv.counts))
  ]
