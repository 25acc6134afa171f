-- ===== src/Context/Lifecycle.antt =====
-- distsys/mpcalctx.go: starting and stopping an archetype. `Run` and the calls of `Stop` are threads
-- over the fields that `runStateLock` guards. A step is a piece of code between two points at which
-- another thread may interfere: a locked section is one step, unless it blocks on the way.
pub mod Safety
pub mod Stuck
pub mod Again
use pgo_eval.Base.{ℕ, suc, ◌+◌, ◌<◌, ◌≡◌, ◌≢◌, Bool, true, false, Option, none, some}

-- Where `Run` is: not called; in its loop; out of the loop, before the deferred locked section;
-- returned; or stopped by a panic.
pub data Phase : Type 0 where
  not_started looping leaving returned panicked : Phase

pub record Life : Type 0 where
  pub exit_requested : Bool
  -- `requestExit`: nil, or a channel with room for one request and the number of those waiting.
  pub request_exit : Option ℕ
  -- whether `awaitExit` is closed
  pub exit_closed : Bool
  pub phase : Phase
  -- whether a call of `Stop` holds the lock while it waits to send
  pub blocked_stop : Bool

abbrev pub new_context : Life
new_context = record {
  exit_requested = false;
  request_exit = none;
  exit_closed = false;
  phase = not_started;
  blocked_stop = false;
}

-- The locked section of `Stop`, where the lock is free.
unfoldable pub stop_section : Bool → Option ℕ → Life → Life
-- case 1a: there is room for the request
stop_section false (some ℕ.zero) s = record s { request_exit = some 1 }
-- case 1a: the channel is full, and the send blocks
stop_section false (some (suc k)) s = record s { blocked_stop = true }
-- case 1b
stop_section true (some k) s = s
-- case 2a; closing the channel if it is open
stop_section false none s = record s { exit_requested = true; exit_closed = true }
-- case 2b
stop_section true none s = s

-- The locked section at the start of `Run`.
unfoldable pub start_section : Bool → Option ℕ → Life → Life
start_section exit_requested (some k) s = record s { phase = panicked }
start_section true none s = record s { phase = returned }
start_section false none s = record s { request_exit = some 0; phase = looping }

-- The locked section at the end of `Run`. Closing a closed channel panics.
unfoldable pub end_section : Bool → Life → Life
end_section true s = record s { phase = panicked }
end_section false s = record s { exit_closed = true; request_exit = none; phase = returned }

pub data Step (s : Life) : Life → Type 0 where
  -- a call of `Stop`
  stop_step : s.blocked_stop ≡ false → Step s (stop_section s.exit_requested s.request_exit s)
  -- the send of a blocked `Stop` goes through
  unblock_step :
      s.blocked_stop ≡ true
      → s.request_exit ≡ some 0
      → Step s (record s { request_exit = some 1; blocked_stop = false })
  -- a first call of `Run`
  start_step :
      s.phase ≡ not_started
      → s.blocked_stop ≡ false
      → Step s (start_section s.exit_requested s.request_exit s)
  -- `Run` takes a request from the channel
  poll_step :
      {k : ℕ}
      → s.phase ≡ looping
      → s.request_exit ≡ some (suc k)
      → Step s (record s { request_exit = some k; phase = leaving })
  -- `Run` leaves its loop because of an error or of the label Done
  leave_step : s.phase ≡ looping → Step s (record s { phase = leaving })
  end_step : s.phase ≡ leaving → s.blocked_stop ≡ false → Step s (end_section s.exit_closed s)

pub data Reach (s : Life) : Life → Type 0 where
  here : Reach s s
  next : {t u : Life} → Reach s t → Step t u → Reach s u
