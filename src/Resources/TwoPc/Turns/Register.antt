-- ===== src/Resources/TwoPc/Turns/Register.antt =====
-- The committed value of a node and its version.
use pgo_eval.Base.{◌<◌, ◌≡◌, ◌⊎◌, inl, inr, refl, Bool, arith}
use pgo_eval.Resources.TwoPc.{Request, Node, take_over}
use pgo_eval.Resources.TwoPc.Receive.{note_time, receive_pre_commit, receive_abort}
use pgo_eval.Resources.TwoPc.Section.{
  read_value, write_value, begin_pre_commit, complete_pre_commit, fail_pre_commit, finish_commit,
  begin_abort, finish_abort, close,
}
use pgo_eval.Resources.TwoPc.Broadcast.{begin_requests, end_request}
use pgo_eval.Resources.TwoPc.Turns.Heard.{
  Heard, nothing, newer, Received, heard, pre_commits, receive_internal-Received,
  answer_pre_commit-Heard, answer_notice-Heard,
}
use pgo_eval.Resources.TwoPc.Turns.{
  Task, Step, notes_time, receives, hears_pre_commit, hears_notice, begins_requests, ends_request,
  reads, writes, sleeps, is_disturbed, wakes, gives_up, proposes, succeeds, fails, has_rolled_back,
  commits, has_committed, withdraws, has_aborted, closes, Reach, here, next,
}

module _ {V : Type 0} where
  -- A register with versions: as it was, or with a value of a later version.
  abbrev pub Advances : Node V → Node V → Type 0
  Advances n n' =
      (n.version < n'.version) ⊎ ((n'.version ≡ n.version) × (n'.old_value ≡ n.old_value))

  Advances-trans : (n n' n'' : Node V) → Advances n n' → Advances n' n'' → Advances n n''
  Advances-trans n n' n'' p q = ground arith

  Heard-Advances : (n n' : Node V) → Heard n n' → Advances n n'
  unfolding take_over
  Heard-Advances n n' (nothing e) = rw e (inr (refl, refl))
  Heard-Advances n n' (newer v version later e) = rw e (inl later)

  module _ (same : V → V → Bool) (nil_value : V) where
    Received-Advances :
        (arg : Request V) (n n' : Node V) → Received n same nil_value arg n' → Advances n n'
    unfolding receive_pre_commit receive_abort
    Received-Advances arg n n' (heard e) = Heard-Advances n n' e
    Received-Advances arg n n' (pre_commits t l e) = ground arith
    Received-Advances arg n n' (Received.aborts t e) = ground arith

    Step-Advances : {t t' : Task} {n n' : Node V} → Step same nil_value t n t' n' → Advances n n'
    unfolding note_time begin_requests end_request read_value write_value begin_pre_commit
        complete_pre_commit fail_pre_commit finish_commit begin_abort finish_abort close
    Step-Advances (notes_time arg t n) = inr (refl, refl)
    Step-Advances (receives arg t n n' reply e) =
        Received-Advances arg n n' (receive_internal-Received n same nil_value arg e)
    Step-Advances (hears_pre_commit outcome t n n' r e) =
        Heard-Advances n n' (answer_pre_commit-Heard n outcome e)
    Step-Advances (hears_notice v reply t n n' e) =
        Heard-Advances n n' (answer_notice-Heard n v reply e)
    Step-Advances (begins_requests t n) = inr (refl, refl)
    Step-Advances (ends_request t n) = inr (refl, refl)
    Step-Advances (reads n) = ground arith
    Step-Advances (writes v n) = ground arith
    Step-Advances (sleeps n v e) = inr (refl, refl)
    Step-Advances (is_disturbed v n e) = inr (refl, refl)
    Step-Advances (wakes v n e) = inr (refl, refl)
    Step-Advances (gives_up now n n' e) = ground arith
    Step-Advances (proposes now n n' request e) = ground arith
    Step-Advances (succeeds success n n' e) = ground arith
    Step-Advances (fails success n n' e) = ground arith
    Step-Advances (has_rolled_back n) = ground arith
    Step-Advances (commits now n request v e f) = inr (refl, refl)
    Step-Advances (has_committed v n) = ground arith
    Step-Advances (Step.aborts n n' e) = ground arith
    Step-Advances (withdraws n n' e) = ground arith
    Step-Advances (has_aborted n) = ground arith
    Step-Advances (closes n n' waits e) = ground arith

    -- The committed value of a node is a register with versions: whatever the archetype does,
    -- whatever messages arrive and in whatever order the goroutines take turns, the version never
    -- falls, and the committed value does not change without it.
    pub life-Advances :
        {t : Task} {n : Node V} {t' : Task} {n' : Node V}
        → Reach same nil_value t n t' n'
        → Advances n n'
    life-Advances here = inr (refl, refl)
    life-Advances {n} (next {n'} {n''} r st) =
        Advances-trans n n' n'' (life-Advances r) (Step-Advances st)
