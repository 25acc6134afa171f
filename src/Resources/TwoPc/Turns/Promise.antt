-- ===== src/Resources/TwoPc/Turns/Promise.antt =====
-- The promise that a node gives with an accepted `PreCommit`, and how it is lost.
use pgo_eval.Base.{◌>>=◌, ℕ, ◌≤◌, ◌<◌, ◌≡◌, ◌⊎◌, refl, Bool, true, false, some, arith}
use pgo_eval.Resources.TwoPc.{
  RequestType, initial, accepted_pre_commit, pre_commit, commit, abort, get_state, Request,
  Response, Node, make_reject, take_over, can_accept_pre_commit, has_accepted, make_accept, new,
}
use pgo_eval.Resources.TwoPc.Receive.{
  note_time, receive_internal, dispatch, is_accepted, may_accept, receive_pre_commit, receive_abort,
}
use pgo_eval.Resources.TwoPc.Section.{
  read_value, write_value, begin_pre_commit, complete_pre_commit, fail_pre_commit, finish_commit,
  begin_abort, finish_abort, close,
}
use pgo_eval.Resources.TwoPc.Broadcast.{begin_requests, end_request}
use pgo_eval.Resources.TwoPc.Turns.Heard.{
  Heard, nothing, newer, Received, heard, pre_commits, receive_internal-Received,
  answer_pre_commit-Heard, answer_notice-Heard,
}
use pgo_eval.Resources.TwoPc.Turns.Invariant.{Holds, Step-Holds, life-Holds}
use pgo_eval.Resources.TwoPc.Turns.{
  Task, ready, Step, notes_time, receives, hears_pre_commit, hears_notice, begins_requests,
  ends_request, reads, writes, sleeps, is_disturbed, wakes, gives_up, proposes, succeeds, fails,
  has_rolled_back, commits, has_committed, withdraws, has_aborted, closes, Reach,
}

module _ {V : Type 0} (same : V → V → Bool) (nil_value : V) where
  -- The sender `a` has been promised the version `v`, or the version has come.
  abbrev pub Promised : V → ℕ → Node V → Type 0
  Promised a v n =
      (v ≤ n.version)
      ⊎ ((has_accepted n.two_pc_state ≡ true) × (n.accepted.version ≡ v) × (n.accepted.sender ≡ a))

  -- The message does not take the promise back: it is no `Abort` of that sender, and no `PreCommit`
  -- of a later version.
  abbrev pub Leaves : V → ℕ → RequestType → Request V → Type 0
  Leaves a v pre_commit arg = arg.version ≤ v
  Leaves a v abort arg = same arg.sender a ≡ false
  Leaves a v commit arg = Unit
  Leaves a v get_state arg = Unit

  abbrev pub Keeps : V → ℕ → {t t' : Task} {n n' : Node V} → Step same nil_value t n t' n' → Type 0
  Keeps a v (receives arg t n n' reply e) = Leaves a v arg.request_type arg
  Keeps a v _ = Unit

  -- Steps that take no promise of the version `v` to `a` back.
  pub data Keeping (a : V) (v : ℕ) (t : Task) (n : Node V) : Task → Node V → Type 0 where
    start : Keeping a v t n t n
    further :
        {t' t'' : Task} {n' n'' : Node V}
        → Keeping a v t n t' n'
        → (st : Step same nil_value t' n' t'' n'') → Keeps a v st
        → Keeping a v t n t'' n''

  Heard-Promised : (a : V) (v : ℕ) (n n' : Node V) → Heard n n' → Promised a v n → Promised a v n'
  unfolding take_over
  Heard-Promised a v n n' (nothing e) h = rw e h
  Heard-Promised a v n n' (newer w version later e) h = rw e (ground arith)

  exclusive :
      (a : V) (n : Node V) (arg : Request V)
      → has_accepted n.two_pc_state ≡ true
      → n.accepted.sender ≡ a
      → arg.version ≤ n.accepted.version
      → same a arg.sender ≡ false
      → receive_pre_commit same nil_value arg n ≡ (n, make_reject n)
  unfolding receive_pre_commit
  exclusive a n arg h s l o = ground arith

  module _ (same_sound : (x y : V) → same x y ≡ true → x ≡ y) (a : V) (v : ℕ) where
    Received-Promised :
        (n n' : Node V) (arg : Request V)
        → Received n same nil_value arg n'
        → Leaves a v arg.request_type arg
        → Promised a v n
        → Promised a v n'
    unfolding receive_pre_commit receive_abort
    Received-Promised n n' arg (heard e) l p = Heard-Promised a v n n' e p
    Received-Promised n n' arg (pre_commits t k e) l p =
        let l' : arg.version ≤ v = rw t at l in
        ground (arith, same_sound n.accepted.sender arg.sender)
    Received-Promised n n' arg (Received.aborts t e) l p =
        let l' : same arg.sender a ≡ false = rw t at l in ground arith

    Step-Promised :
        {t t' : Task} {n n' : Node V} (st : Step same nil_value t n t' n')
        → Keeps a v st
        → Holds t n
        → Promised a v n
        → Promised a v n'
    unfolding note_time begin_requests end_request read_value write_value begin_pre_commit
        complete_pre_commit fail_pre_commit finish_commit begin_abort finish_abort close
        can_accept_pre_commit
    Step-Promised (notes_time arg t n) k h p = p
    Step-Promised (receives arg t n n' reply e) k h p =
        Received-Promised n n' arg (receive_internal-Received n same nil_value arg e) k p
    Step-Promised (hears_pre_commit outcome t n n' r e) k h p =
        Heard-Promised a v n n' (answer_pre_commit-Heard n outcome e) p
    Step-Promised (hears_notice w reply t n n' e) k h p =
        Heard-Promised a v n n' (answer_notice-Heard n w reply e) p
    Step-Promised (begins_requests t n) k h p = p
    Step-Promised (ends_request t n) k h p = p
    Step-Promised (reads n) k h p = ground arith
    Step-Promised (writes w n) k h p = ground arith
    Step-Promised (sleeps n w e) k h p = p
    Step-Promised (is_disturbed w n e) k h p = p
    Step-Promised (wakes w n e) k h p = p
    Step-Promised (gives_up now n n' e) k h p = ground arith
    Step-Promised (proposes now n n' request e) k h p = ground arith
    Step-Promised (succeeds success n n' e) k h p = ground arith
    Step-Promised (fails success n n' e) k h p = ground arith
    Step-Promised (has_rolled_back n) k h p = ground arith
    Step-Promised (commits now n request w e f) k h p = p
    Step-Promised (has_committed w n) k h p = ground arith
    Step-Promised (Step.aborts n n' e) k h p = ground arith
    Step-Promised (withdraws n n' e) k h p = ground arith
    Step-Promised (has_aborted n) k h p = ground arith
    Step-Promised (closes n n' waits e) k h p = ground arith

    Keeping-Promised :
        {t : Task} {n : Node V} {t' : Task} {n' : Node V}
        → Keeping a v t n t' n'
        → Holds t n
        → Promised a v n
        → Holds t' n' × Promised a v n'
    Keeping-Promised start h p = (h, p)
    Keeping-Promised (further r st k) h p =
        let (h', p') = Keeping-Promised r h p in
        (Step-Holds same nil_value st h', Step-Promised st k h' p')

    -- A `PreCommit` of `a` that is accepted leaves the promise.
    accepts-Promised :
        (n n' : Node V) (p : Request V) (reply : Response V)
        → p.request_type ≡ pre_commit
        → p.sender ≡ a
        → p.version ≡ v
        → receive_internal same nil_value p n ≡ some (n', reply)
        → reply.accept ≡ true
        → Promised a v n'
    unfolding receive_internal dispatch receive_pre_commit is_accepted may_accept make_reject
        make_accept
    accepts-Promised n n' p reply t s w e ok =
        let e' = rw t at e in ground (arith, same_sound n.accepted.sender p.sender)

    refuses :
        (n n' : Node V) (q : Request V) (reply : Response V)
        → Promised a v n
        → q.request_type ≡ pre_commit
        → q.version ≡ v
        → same a q.sender ≡ false
        → receive_internal same nil_value q n ≡ some (n', reply)
        → (reply.accept ≡ false) × (n' ≡ n)
    unfolding receive_internal dispatch receive_pre_commit is_accepted may_accept make_reject
    refuses n n' q reply p t w o e = let e' = rw t at e in ground arith

  -- A node promises a version to one sender only: from any state that it comes to, if it accepts a
  -- `PreCommit`, then takes steps among which are no `Abort` of that sender and no `PreCommit` of a
  -- later version, and then receives a `PreCommit` of another sender for the same version, that one
  -- is rejected and changes nothing. Senders that `==` finds equal are taken to be the same.
  pub one_promise :
      ((x y : V) → same x y ≡ true → x ≡ y)
      → (v : V) (replicas : ℕ) (id : V) {t t' : Task} {n n' m m' : Node V} (p q : Request V)
        {reply reply' : Response V}
      → Reach same nil_value ready (new nil_value v replicas id) t n
      → p.request_type ≡ pre_commit
      → receive_internal same nil_value p n ≡ some (n', reply)
      → reply.accept ≡ true
      → Keeping p.sender p.version t n' t' m
      → q.request_type ≡ pre_commit
      → q.version ≡ p.version
      → same p.sender q.sender ≡ false
      → receive_internal same nil_value q m ≡ some (m', reply')
      → (reply'.accept ≡ false) × (m' ≡ m)
  one_promise sound v replicas id {t} {n} {n'} {m} {m'} p q {reply} {reply'} r tp e ok k tq w o f =
      let h = life-Holds same nil_value v replicas id r in
      let h' = Step-Holds same nil_value (receives p t n n' reply e) h in
      let given = accepts-Promised sound p.sender p.version n n' p reply tp refl refl e ok in
      let kept = (Keeping-Promised sound p.sender p.version k h' given).1 in
      refuses sound p.sender p.version m m' q reply' kept tq w o f

  takes_later :
      (n : Node V) (c : Request V)
      → c.request_type ≡ pre_commit
      → n.version < c.version
      → can_accept_pre_commit n.section_state ≡ true
      → n.accepted.version < c.version
      → receive_internal same nil_value c n
        ≡ some
            (record n { two_pc_state = accepted_pre_commit; accepted = c }, make_accept nil_value)
  unfolding receive_internal dispatch receive_pre_commit is_accepted may_accept
  takes_later n c t l s w = rw t (ground arith)

  takes_first :
      (n : Node V) (c : Request V)
      → c.request_type ≡ pre_commit
      → n.version < c.version
      → can_accept_pre_commit n.section_state ≡ true
      → n.two_pc_state ≡ initial
      → receive_internal same nil_value c n
        ≡ some
            (record n { two_pc_state = accepted_pre_commit; accepted = c }, make_accept nil_value)
  unfolding receive_internal dispatch receive_pre_commit is_accepted may_accept
  takes_first n c t l s w = rw t (ground arith)

  releases :
      (n : Node V) (d : Request V)
      → d.request_type ≡ abort
      → n.version < d.version
      → n.two_pc_state ≡ accepted_pre_commit
      → same d.sender n.accepted.sender ≡ true
      → receive_internal same nil_value d n
        ≡ some (record n { two_pc_state = initial }, make_accept nil_value)
  unfolding receive_internal dispatch receive_abort
  releases n d t l s w = rw t (ground arith)

  -- An accepted `PreCommit` is forgotten when the `PreCommit` and the `Abort` of another sender for
  -- a later version come: after these three, a `PreCommit` of a third sender for the first version
  -- is accepted, if the node has not come to that version and is not about to commit one itself.
  pub promise_forgotten :
      (n : Node V) (p c d q : Request V)
      → (has_accepted n.two_pc_state ≡ true) × (n.accepted ≡ p)
      → n.version < p.version
      → can_accept_pre_commit n.section_state ≡ true
      → (c.request_type ≡ pre_commit) × (p.version < c.version)
      → (d.request_type ≡ abort) × (d.version ≡ c.version) × (same d.sender c.sender ≡ true)
      → (q.request_type ≡ pre_commit) × (q.version ≡ p.version)
      → (receive_internal same nil_value c n >>= λ (n1, r1).
          receive_internal same nil_value d n1 >>= λ (n2, r2). receive_internal same nil_value q n2)
        ≡ some
            (record n { two_pc_state = accepted_pre_commit; accepted = q }, make_accept nil_value)
  promise_forgotten n p c d q (h, a) l s (tc, wc) (td, wd, od) (tq, wq) =
      let later : n.accepted.version < c.version = rw a (omega arith) in
      let n1 : Node V = record n { two_pc_state = accepted_pre_commit; accepted = c } in
      let n2 : Node V = record n { two_pc_state = initial; accepted = c } in
      rw (takes_later n c tc (omega arith) s later) rw (releases n1 d td (omega arith) refl od)
        (takes_first n2 q tq (omega arith) s refl)
