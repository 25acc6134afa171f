-- ===== src/Resources/Shared.antt =====
-- distsys/resources/localshared.go: one local resource shared between archetypes, behind a weighted
-- semaphore of `golang.org/x/sync` that serves as a read-write lock. Archetypes are numbered.
-- The semaphore grants a request only while the units that are held and those that are asked for
-- do not pass its size; whether and when it does so before the timeout is left open.
pub mod Invariant
pub mod Escape
use pgo_eval.Base.{
  ℕ, zero, suc, ◌+◌, ◌-◌, ◌≤◌, ◌<◌, ◌≡◌, ◌≢◌, Bool, true, false, if◌then◌else◌, ltb, leb, ◌==◌,
}
use pgo_eval.Resources.Local
use pgo_eval.Resources.Local.{Local}

abbrev pub max_sem_size : ℕ
max_sem_size = 10000

-- The shared resource, the units that its semaphore has given out, and what each archetype's instance
-- takes itself to have acquired.
pub record Shared (V : Type 0) : Type 0 where
  pub res : Local V
  pub sem : ℕ
  pub acquired : ℕ → ℕ

abbrev pub update : (ℕ → ℕ) → ℕ → ℕ → ℕ → ℕ
update f i n j = if j == i then n else f j

-- The units that the first `n` archetypes hold.
unfoldable pub held : ℕ → (ℕ → ℕ) → ℕ
held zero acquired = 0
held (suc n) acquired = held n acquired + acquired n

-- `release` of what the instance holds, if anything. Where the semaphore would panic, being given back
-- more than it has given out, the count stops at 0.
unfoldable pub release : {V : Type 0} → ℕ → Shared V → Shared V
release i s =
    if ltb 0 (s.acquired i)
    then record s { sem = s.sem - s.acquired i; acquired = update s.acquired i 0 }
    else s

module _ {V : Type 0} (zero_value : V) where
  unfoldable pub abort : ℕ → Shared V → Shared V
  abort i s =
      release i (
        if s.acquired i == max_sem_size then record s { res = Local.abort zero_value s.res } else s)

  unfoldable pub commit : ℕ → Shared V → Shared V
  commit i s =
      release i (
        if s.acquired i == max_sem_size
        then record s { res = Local.commit zero_value s.res }
        else s)

-- What `ReadValue` asks of the semaphore: nothing if the instance holds something.
unfoldable pub read_wants : {V : Type 0} → ℕ → Shared V → ℕ
read_wants i s = if s.acquired i == 0 then 1 else 0

-- What `WriteValue` asks of the semaphore: what is missing for all of it.
unfoldable pub write_wants : {V : Type 0} → ℕ → Shared V → ℕ
write_wants i s = if ltb (s.acquired i) max_sem_size then max_sem_size - s.acquired i else 0

-- `ReadValue` and `WriteValue` once the semaphore has granted that.
unfoldable pub read_granted : {V : Type 0} → ℕ → Shared V → V × Shared V
unfolding read_wants
read_granted i s =
    let s' =
      if s.acquired i == 0
      then record s { sem = s.sem + read_wants i s; acquired = update s.acquired i 1 }
      else s in
    (Local.read_value s'.res, s')

unfoldable pub write_granted : {V : Type 0} → ℕ → V → Shared V → Shared V
unfolding write_wants
write_granted i value s = record {
  res = Local.write_value value s.res;
  sem = s.sem + write_wants i s;
  acquired =
      if ltb (s.acquired i) max_sem_size then update s.acquired i max_sem_size else s.acquired;
}

-- A write through `Index`. It goes to the local resource behind the manager, as the write of the
-- whole value that the sub-resource computes, and asks nothing of the semaphore.
unfoldable pub index_write : {V : Type 0} → V → Shared V → Shared V
index_write value s = record s { res = Local.write_value value s.res }

-- The calls of `n` archetypes, in any order; the writes below an index are among them if `indexed` is
-- true, and `GetState` acquires what a read does. A request that times out changes nothing: the
-- caller gets `ErrCriticalSectionAborted`, and `Run` calls `Abort`.
pub data Step {V : Type 0} (zero_value : V) (n : ℕ) (indexed : Bool) (s : Shared V)
    : Shared V → Type 0 where
  read_step :
      (i : ℕ)
      → i < n
      → s.sem + read_wants i s ≤ max_sem_size
      → Step zero_value n indexed s (read_granted i s).1
  write_step :
      (i : ℕ) (value : V)
      → i < n
      → s.sem + write_wants i s ≤ max_sem_size
      → Step zero_value n indexed s (write_granted i value s)
  index_step : (value : V) → indexed ≡ true → Step zero_value n indexed s (index_write value s)
  commit_step : (i : ℕ) → i < n → Step zero_value n indexed s (commit zero_value i s)
  abort_step : (i : ℕ) → i < n → Step zero_value n indexed s (abort zero_value i s)

unfoldable pub make_shared : {V : Type 0} → V → V → Shared V
make_shared zero_value value = record {
  res = Local.new zero_value value;
  sem = 0;
  acquired = λ _. 0;
}

pub data Reach {V : Type 0} (zero_value value : V) (n : ℕ) (indexed : Bool)
    : Shared V → Type 0 where
  start : Reach zero_value value n indexed (make_shared zero_value value)
  later :
      {s t : Shared V}
      → Reach zero_value value n indexed s
      → Step zero_value n indexed s t
      → Reach zero_value value n indexed t
