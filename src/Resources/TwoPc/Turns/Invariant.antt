-- ===== src/Resources/TwoPc/Turns/Invariant.antt =====
-- What holds of a node at any time.
use pgo_eval.Base.{
  ℕ, ◌+◌, ◌≤◌, ◌<◌, ◌≡◌, refl, Bool, true, false, ◌||◌, ◌&&◌, not, if◌then◌else◌, ltb, leb, ◌==◌,
  arith,
}
use pgo_eval.Resources.TwoPc.{
  Request, Node, can_accept_pre_commit, has_accepted, is_outside, has_new_value, is_in_pre_commit,
  is_pre_committed, new, take_over,
}
use pgo_eval.Resources.TwoPc.Receive.{note_time, receive_pre_commit, receive_abort}
use pgo_eval.Resources.TwoPc.Section.{
  read_value, write_value, begin_pre_commit, complete_pre_commit, fail_pre_commit, begin_commit,
  finish_commit, begin_abort, finish_abort, close,
}
use pgo_eval.Resources.TwoPc.Broadcast.{begin_requests, end_request}
use pgo_eval.Resources.TwoPc.Turns.Heard.{
  Heard, nothing, newer, Received, heard, pre_commits, receive_internal-Received,
  answer_pre_commit-Heard, answer_notice-Heard,
}
use pgo_eval.Resources.TwoPc.Turns.{
  Task, ready, sleeping, awake, proposing, rolling_back, committing, aborting, Step, notes_time,
  receives, hears_pre_commit, hears_notice, begins_requests, ends_request, reads, writes, sleeps,
  is_disturbed, wakes, gives_up, proposes, succeeds, fails, has_rolled_back, commits, has_committed,
  withdraws, has_aborted, closes, Reach, here, next,
}

module _ {V : Type 0} where
  -- What the state of the section says about the state of 2PC and the two values.
  pub record IsSound (n : Node V) : Type 0 where
    -- an accepted `PreCommit` is for a version that is still to come
    pub ahead : (has_accepted n.two_pc_state && leb n.accepted.version n.version) ≡ false
    -- and none has been accepted while the node's own is under way
    pub alone : (has_accepted n.two_pc_state && not (can_accept_pre_commit n.section_state)) ≡ false
    -- without a write of the archetype, the value is the committed one
    pub clean :
        (is_outside n.section_state || has_new_value n.section_state) ≡ true → n.value ≡ n.old_value

  -- What the operation under way says about the state of the section.
  abbrev pub Fits : Task → Node V → Type 0
  Fits proposing n = (is_in_pre_commit n.section_state || has_new_value n.section_state) ≡ true
  Fits rolling_back n = (is_in_pre_commit n.section_state || has_new_value n.section_state) ≡ true
  Fits (committing v) n =
      (v ≤ n.version)
      × ((if n.version == v
            then is_pre_committed n.section_state
            else has_new_value n.section_state)
          ≡ true)
  Fits aborting n =
      ((is_pre_committed n.section_state || has_new_value n.section_state) ≡ true)
      × (n.value ≡ n.old_value)
  Fits _ n = is_in_pre_commit n.section_state ≡ false

  -- A change of the state of 2PC alone says nothing on the task.
  Fits-congr :
      (t : Task) (n n' : Node V)
      → n'.section_state ≡ n.section_state
      → n'.version ≡ n.version
      → n'.value ≡ n.value
      → n'.old_value ≡ n.old_value
      → Fits t n
      → Fits t n'
  Fits-congr ready n n' a b c d f = ground arith
  Fits-congr (sleeping w) n n' a b c d f = ground arith
  Fits-congr awake n n' a b c d f = ground arith
  Fits-congr proposing n n' a b c d f = ground arith
  Fits-congr rolling_back n n' a b c d f = ground arith
  Fits-congr (committing w) n n' a b c d f = ground arith
  Fits-congr aborting n n' a b c d f = ground arith

  pre_commit-Fits :
      (same : V → V → Bool) (nil_value : V) (arg : Request V) (t : Task) (n : Node V)
      → Fits t n
      → Fits t (receive_pre_commit same nil_value arg n).0
  unfolding receive_pre_commit
  pre_commit-Fits same nil_value arg t n f =
      Fits-congr t n _ (ground arith) (ground arith) (ground arith) (ground arith) f

  abort-Fits :
      (same : V → V → Bool) (nil_value : V) (arg : Request V) (t : Task) (n : Node V)
      → Fits t n
      → Fits t (receive_abort same nil_value arg n)
  unfolding receive_abort
  abort-Fits same nil_value arg t n f =
      Fits-congr t n _ (ground arith) (ground arith) (ground arith) (ground arith) f

  module _ (n : Node V) where
    take_over-IsSound : (v : V) (version : ℕ) → IsSound n → IsSound (take_over v version n)
    unfolding take_over can_accept_pre_commit
    take_over-IsSound v version s = ground arith

    take_over-Fits :
        (t : Task) (v : V) (version : ℕ)
        → n.version < version
        → Fits t n
        → Fits t (take_over v version n)
    unfolding take_over
    take_over-Fits ready v version h f = ground arith
    take_over-Fits (sleeping w) v version h f = ground arith
    take_over-Fits awake v version h f = ground arith
    take_over-Fits proposing v version h f = ground arith
    take_over-Fits rolling_back v version h f = ground arith
    take_over-Fits (committing w) v version h f = ground arith
    take_over-Fits aborting v version h f = ground arith

    receive_pre_commit-IsSound :
        (same : V → V → Bool) (nil_value : V) (arg : Request V)
        → ltb arg.version (n.version + 1) ≡ false
        → IsSound n
        → IsSound (receive_pre_commit same nil_value arg n).0
    unfolding receive_pre_commit
    receive_pre_commit-IsSound same nil_value arg h s = ground arith

    receive_abort-IsSound :
        (same : V → V → Bool) (nil_value : V) (arg : Request V)
        → IsSound n
        → IsSound (receive_abort same nil_value arg n)
    unfolding receive_abort
    receive_abort-IsSound same nil_value arg s = ground arith

  -- What holds of a node and its task at any time.
  pub record Holds (t : Task) (n : Node V) : Type 0 where
    pub is_sound : IsSound n
    pub fits : Fits t n

  Heard-Holds : (t : Task) (n n' : Node V) → Heard n n' → Holds t n → Holds t n'
  Heard-Holds t n n' (nothing e) h = rw e h
  Heard-Holds t n n' (newer v version later e) h = rw e (record {
    is_sound = take_over-IsSound n v version h.is_sound;
    fits = take_over-Fits n t v version later h.fits;
  })

  Received-Holds :
      (same : V → V → Bool) (nil_value : V) (arg : Request V) (t : Task) (n n' : Node V)
      → Received n same nil_value arg n'
      → Holds t n
      → Holds t n'
  Received-Holds same nil_value arg t n n' (heard e) h = Heard-Holds t n n' e h
  Received-Holds same nil_value arg t n n' (pre_commits p l e) h = rw e (record {
    is_sound = receive_pre_commit-IsSound n same nil_value arg l h.is_sound;
    fits = pre_commit-Fits same nil_value arg t n h.fits;
  })
  Received-Holds same nil_value arg t n n' (Received.aborts a e) h = rw e (record {
    is_sound = receive_abort-IsSound n same nil_value arg h.is_sound;
    fits = abort-Fits same nil_value arg t n h.fits;
  })

  module _ (same : V → V → Bool) (nil_value : V) where
    pub Step-Holds :
        {t t' : Task} {n n' : Node V} → Step same nil_value t n t' n' → Holds t n → Holds t' n'
    unfolding note_time begin_requests end_request read_value write_value begin_pre_commit
        complete_pre_commit fail_pre_commit begin_commit finish_commit begin_abort finish_abort
        close can_accept_pre_commit
    Step-Holds (notes_time arg t n) h = record {
      is_sound = record {
        ahead = h.is_sound.ahead;
        alone = h.is_sound.alone;
        clean = h.is_sound.clean;
      };
      fits = Fits-congr t n _ refl refl refl refl h.fits;
    }
    Step-Holds (receives arg t n n' reply e) h =
        Received-Holds same nil_value arg t n n' (receive_internal-Received n same nil_value arg e)
          h
    Step-Holds (hears_pre_commit outcome t n n' r e) h =
        Heard-Holds t n n' (answer_pre_commit-Heard n outcome e) h
    Step-Holds (hears_notice v reply t n n' e) h =
        Heard-Holds t n n' (answer_notice-Heard n v reply e) h
    Step-Holds (begins_requests t n) h = record {
      is_sound = record {
        ahead = h.is_sound.ahead;
        alone = h.is_sound.alone;
        clean = h.is_sound.clean;
      };
      fits = Fits-congr t n _ refl refl refl refl h.fits;
    }
    Step-Holds (ends_request t n) h = record {
      is_sound = record {
        ahead = h.is_sound.ahead;
        alone = h.is_sound.alone;
        clean = h.is_sound.clean;
      };
      fits = Fits-congr t n _ refl refl refl refl h.fits;
    }
    Step-Holds (reads n) h = ground arith
    Step-Holds (writes v n) h = ground arith
    Step-Holds (sleeps n v e) h = ground arith
    Step-Holds (is_disturbed v n e) h = ground arith
    Step-Holds (wakes v n e) h = ground arith
    Step-Holds (gives_up now n n' e) h = ground arith
    Step-Holds (proposes now n n' request e) h = ground arith
    Step-Holds (succeeds success n n' e) h = ground arith
    Step-Holds (fails success n n' e) h = ground arith
    Step-Holds (has_rolled_back n) h = ground arith
    Step-Holds (commits now n request v e f) h = ground arith
    Step-Holds (has_committed v n) h = ground arith
    Step-Holds (Step.aborts n n' e) h = ground arith
    Step-Holds (withdraws n n' e) h = ground arith
    Step-Holds (has_aborted n) h = ground arith
    Step-Holds (closes n n' waits e) h = ground arith

    new-Holds : (v : V) (replicas : ℕ) (id : V) → Holds ready (new nil_value v replicas id)
    unfolding new
    new-Holds v replicas id = record {
      is_sound = record { ahead = refl; alone = refl; clean = λ _. refl };
      fits = refl;
    }

    Reach-Holds :
        {t : Task} {n : Node V} {t' : Task} {n' : Node V}
        → Reach same nil_value t n t' n'
        → Holds t n
        → Holds t' n'
    Reach-Holds here h = h
    Reach-Holds (next r st) h = Step-Holds st (Reach-Holds r h)

    -- At any time of a node's life, whatever messages arrive and in whatever order the goroutines
    -- take turns: an accepted `PreCommit` is for a later version than the node's; none is accepted
    -- while a `PreCommit` of the node is under way or has succeeded; outside of a section, and in
    -- one that has taken over a value, the value is the committed one; and the state of the section
    -- is one that fits the operation under way.
    pub life-Holds :
        (v : V) (replicas : ℕ) (id : V) {t : Task} {n : Node V}
        → Reach same nil_value ready (new nil_value v replicas id) t n
        → Holds t n
    life-Holds v replicas id r = Reach-Holds r (new-Holds v replicas id)
