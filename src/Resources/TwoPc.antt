-- ===== src/Resources/TwoPc.antt =====
-- distsys/resources/twopc.go: a value that is replicated by two-phase commit. This file has the
-- messages, the state of a node and what they are made with. A node's state is read and written
-- under its mutex: each part of an operation that holds the mutex is one function, and the parts
-- take turns with those of other goroutines. A panic of `assert` is `none`. Connections, timers and
-- logs are not modelled: what arrives is an argument, and the clock is one too.
pub mod Receive
pub mod Section
pub mod Broadcast
pub mod Turns
use pgo_eval.Base.{
  ℕ, ◌+◌, ◌<◌, ◌≡◌, Bool, true, false, ◌||◌, ◌&&◌, not, Option, none, some, List, [], ◌∷◌,
  if◌then◌else◌, ltb, leb, ◌==◌, ◌>>=◌,
}

pub data RequestType : Type 0 where
  pre_commit : RequestType
  commit : RequestType
  abort : RequestType
  get_state : RequestType

pub record Request (V : Type 0) : Type 0 where
  pub request_type : RequestType
  pub value : V
  pub sender : V
  pub version : ℕ
  pub sender_time : ℕ

pub record Response (V : Type 0) : Type 0 where
  pub accept : Bool
  pub version : ℕ
  pub value : V

pub data TwoPcState : Type 0 where
  accepted_pre_commit : TwoPcState
  initial : TwoPcState

pub data SectionState : Type 0 where
  in_uninterrupted_section : SectionState
  accepted_new_value_in_section : SectionState
  not_in_section : SectionState
  in_pre_commit : SectionState
  has_pre_committed : SectionState
  failed_pre_commit : SectionState

unfoldable pub can_accept_pre_commit : SectionState → Bool
can_accept_pre_commit in_uninterrupted_section = true
can_accept_pre_commit accepted_new_value_in_section = true
can_accept_pre_commit not_in_section = true
can_accept_pre_commit in_pre_commit = false
can_accept_pre_commit has_pre_committed = false
can_accept_pre_commit failed_pre_commit = true

-- Go's `==` on the states.
abbrev pub has_accepted : TwoPcState → Bool
has_accepted accepted_pre_commit = true
has_accepted initial = false

abbrev pub is_initial : TwoPcState → Bool
is_initial accepted_pre_commit = false
is_initial initial = true

abbrev pub is_outside : SectionState → Bool
is_outside not_in_section = true
is_outside _ = false

abbrev pub has_new_value : SectionState → Bool
has_new_value accepted_new_value_in_section = true
has_new_value _ = false

abbrev pub is_in_pre_commit : SectionState → Bool
is_in_pre_commit in_pre_commit = true
is_in_pre_commit _ = false

abbrev pub is_pre_committed : SectionState → Bool
is_pre_committed has_pre_committed = true
is_pre_committed _ = false

-- The fields that the operations below read or write. Of the replicas the number is kept.
pub record Node (V : Type 0) : Type 0 where
  pub value : V
  pub old_value : V
  pub section_state : SectionState
  pub accepted : Request V
  pub two_pc_state : TwoPcState
  pub version : ℕ
  pub num_in_flight_requests : ℕ
  pub pre_commit_attempts : ℕ
  pub closed : Bool
  -- the map `senderTimes`, the latest entry in front
  pub sender_times : List (V × ℕ)
  pub replicas : ℕ
  pub archetype_id : V

module _ {V : Type 0} where
  -- `nil_value` is the zero value `tla.Value{}`.
  unfoldable pub new : V → V → ℕ → V → Node V
  new nil_value v replicas archetype_id = record {
    value = v;
    old_value = v;
    section_state = not_in_section;
    accepted = record {
      request_type = pre_commit;
      value = nil_value;
      sender = nil_value;
      version = 0;
      sender_time = 0;
    };
    two_pc_state = initial;
    version = 0;
    num_in_flight_requests = 0;
    pre_commit_attempts = 0;
    closed = false;
    sender_times = [];
    replicas = replicas;
    archetype_id = archetype_id;
  }

  -- `criticalSectionPermanentlyFailed`
  unfoldable pub permanently_failed : Node V → Bool
  permanently_failed res = elim res.section_state [
    | accepted_new_value_in_section ↦ true
    | failed_pre_commit ↦ true
    | _ ↦ false
  ]

  unfoldable pub should_abort_pre_commit : Node V → Bool
  unfolding permanently_failed
  should_abort_pre_commit res = permanently_failed res || has_accepted res.two_pc_state

  unfoldable pub in_section : Node V → Bool
  in_section res = not (is_outside res.section_state)

  unfoldable pub make_commit : ℕ → Node V → Request V
  make_commit now res = record {
    request_type = commit;
    value = res.value;
    sender = res.archetype_id;
    version = res.version + 1;
    sender_time = now;
  }

  unfoldable pub make_abort : V → ℕ → Node V → Request V
  make_abort nil_value now res = record {
    request_type = abort;
    value = nil_value;
    sender = res.archetype_id;
    version = res.version + 1;
    sender_time = now;
  }

  unfoldable pub make_pre_commit : ℕ → Node V → Request V
  make_pre_commit now res = record {
    request_type = pre_commit;
    value = res.value;
    sender = res.archetype_id;
    version = res.version + 1;
    sender_time = now;
  }

  unfoldable pub make_reject : Node V → Response V
  make_reject res = record { accept = false; version = res.version; value = res.old_value }

  unfoldable pub make_accept : V → Response V
  make_accept nil_value = record { accept = true; version = 0; value = nil_value }

  -- The state of the node after `res` has taken over `v` as the value of a version.
  unfoldable pub take_over : V → ℕ → Node V → Node V
  unfolding in_section
  take_over v version res = record res {
    version = version;
    value = v;
    old_value = v;
    pre_commit_attempts = 0;
    two_pc_state =
        if has_accepted res.two_pc_state && leb res.accepted.version version
        then initial
        else res.two_pc_state;
    section_state = if in_section res then accepted_new_value_in_section else res.section_state;
  }

  unfoldable pub accept_new_value : V → ℕ → Node V → Option (Node V)
  accept_new_value v version res =
      if ltb res.version version then some (take_over v version res) else none
