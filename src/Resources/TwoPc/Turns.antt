-- ===== src/Resources/TwoPc/Turns.antt =====
-- distsys/resources/twopc.go: how the goroutines of a node take turns. The archetype's own calls
-- follow one another, and `Task` tells which of them is under way; the messages from other nodes,
-- the outcomes of requests and the ends of requests come in between at any time. `Commit` reads the
-- state without the mutex; here it reads it at one moment.
mod Heard
pub mod Invariant
pub mod Register
pub mod Promise
pub mod Asserts
use pgo_eval.Base.{ℕ, ◌≡◌, Bool, true, false, Option, none, some}
use pgo_eval.Resources.TwoPc.{Request, Response, Node}
use pgo_eval.Resources.TwoPc.Receive.{note_time, receive_internal}
use pgo_eval.Resources.TwoPc.Section.{
  read_value, write_value, is_interrupted, begin_pre_commit, answer_pre_commit, complete_pre_commit,
  fail_pre_commit, begin_commit, finish_commit, begin_abort, finish_abort, answer_notice, close,
}
use pgo_eval.Resources.TwoPc.Broadcast.{begin_requests, end_request}

pub data Task : Type 0 where
  ready : Task
  -- `PreCommit` during its wait, with the version from before it, and after its test
  sleeping : ℕ → Task
  awake : Task
  -- `doPreCommit` during its broadcast, and during the rollback if that failed
  proposing : Task
  rolling_back : Task
  -- `Commit` during its broadcast, with the version from before it
  committing : ℕ → Task
  -- `Abort` during its rollback
  aborting : Task

module _ {V : Type 0} (same : V → V → Bool) (nil_value : V) where
  pub data Step : Task → Node V → Task → Node V → Type 0 where
    notes_time :
        (arg : Request V) (t : Task) (n : Node V) → Step t n t (note_time same nil_value arg n)
    receives :
        (arg : Request V) (t : Task) (n n' : Node V) (reply : Response V)
        → receive_internal same nil_value arg n ≡ some (n', reply)
        → Step t n t n'
    hears_pre_commit :
        (outcome : Option (Response V)) (t : Task) (n n' : Node V) (response : Bool)
        → answer_pre_commit outcome n ≡ some (n', response)
        → Step t n t n'
    hears_notice :
        (version : ℕ) (reply : Response V) (t : Task) (n n' : Node V)
        → answer_notice version reply n ≡ some n'
        → Step t n t n'
    begins_requests : (t : Task) (n : Node V) → Step t n t (begin_requests n)
    ends_request : (t : Task) (n : Node V) → Step t n t (end_request n).0
    reads : (n : Node V) → Step ready n ready (read_value n).0
    writes : (v : V) (n : Node V) → Step ready n ready (write_value v n).0
    sleeps : (n : Node V) (v : ℕ) → v ≡ n.version → Step ready n (sleeping v) n
    is_disturbed : (v : ℕ) (n : Node V) → is_interrupted v n ≡ true → Step (sleeping v) n ready n
    wakes : (v : ℕ) (n : Node V) → is_interrupted v n ≡ false → Step (sleeping v) n awake n
    gives_up :
        (now : ℕ) (n n' : Node V) → begin_pre_commit now n ≡ (n', none) → Step awake n ready n'
    proposes :
        (now : ℕ) (n n' : Node V) (request : Request V)
        → begin_pre_commit now n ≡ (n', some request)
        → Step awake n proposing n'
    succeeds :
        (success : Bool) (n n' : Node V)
        → complete_pre_commit success n ≡ some (n', true)
        → Step proposing n ready n'
    fails :
        (success : Bool) (n n' : Node V)
        → complete_pre_commit success n ≡ some (n', false)
        → Step proposing n rolling_back n'
    has_rolled_back : (n : Node V) → Step rolling_back n ready (fail_pre_commit n)
    commits :
        (now : ℕ) (n : Node V) (request : Request V) (v : ℕ)
        → begin_commit now n ≡ some request
        → v ≡ n.version
        → Step ready n (committing v) n
    has_committed : (v : ℕ) (n : Node V) → Step (committing v) n ready (finish_commit v n)
    aborts : (n n' : Node V) → begin_abort n ≡ (n', false) → Step ready n ready n'
    withdraws : (n n' : Node V) → begin_abort n ≡ (n', true) → Step ready n aborting n'
    has_aborted : (n : Node V) → Step aborting n ready (finish_abort n)
    closes : (n n' : Node V) (waits : Bool) → close n ≡ some (n', waits) → Step ready n ready n'

  pub data Reach (t : Task) (n : Node V) : Task → Node V → Type 0 where
    here : Reach t n t n
    next :
        {t' t'' : Task} {n' n'' : Node V} → Reach t n t' n' → Step t' n' t'' n'' → Reach t n t'' n''
