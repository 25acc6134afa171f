-- ===== src/Resources/Channels/Exactly.antt =====
-- distsys/resources/channels.go: committed critical sections read each value of an input channel
-- exactly once, in order, and send exactly what they wrote.
use mathlib.Core.List.{append-nil, append_assoc}
use pgo_eval.Base.{◌≡◌, refl, sym, ap, Option, none, some, List, [], ◌∷◌, ◌++◌, ◌∙◌}
use pgo_eval.Resources.Channels.{
  InputChan, new_input, abort_input, commit_input, receive, read_from, read_input, OutputChan,
  abort_output, write_output, commit_output,
}

-- The calls on an input channel. A read that finds the buffer empty takes what arrived, if anything.
pub data InputCall (V : Type 0) : Type 0 where
  read_call : Option V → InputCall V
  commit_call abort_call : InputCall V

-- A channel with what was taken from the Go channel so far, what the committed sections have read,
-- and what the section that is running has read.
pub record InputRun (V : Type 0) : Type 0 where
  pub res : InputChan V
  pub taken : List V
  pub committed : List V
  pub reading : List V

module _ {V : Type 0} where
  abbrev listed : Option V → List V
  listed none = []
  listed (some v) = v ∷ []

  -- Only a read that finds the buffer empty takes from the Go channel.
  abbrev takes : List V → Option V → List V
  takes [] arrival = listed arrival
  takes (_ ∷ _) arrival = []

  pub input_step : InputRun V → InputCall V → InputRun V
  input_step r (read_call arrival) =
      let (result, res') = read_input arrival r.res in
      record {
        res = res';
        taken = r.taken ++ takes r.res.buffer arrival;
        committed = r.committed;
        reading = r.reading ++ listed result;
      }
  input_step r commit_call = record r {
    res = commit_input r.res;
    committed = r.committed ++ r.reading;
    reading = [];
  }
  input_step r abort_call = record r { res = abort_input r.res; reading = [] }

  pub input_run : InputRun V → List (InputCall V) → InputRun V
  input_run r [] = r
  input_run r (c ∷ cs) = input_run (input_step r c) cs

  -- The backlog is what the running section has read, and nothing is lost or doubled.
  pub record InOrder (r : InputRun V) : Type 0 where
    pub backlog : r.res.backlog_buffer ≡ r.reading
    pub all : r.committed ++ (r.reading ++ r.res.buffer) ≡ r.taken

  abbrev at : List V → List V → List V → List V → List V → InputRun V
  at buffer backlog taken committed reading = record {
    res = record { buffer = buffer; backlog_buffer = backlog };
    taken = taken;
    committed = committed;
    reading = reading;
  }

  read-InOrder :
      (buffer backlog taken committed reading : List V) (arrival : Option V)
      → InOrder (at buffer backlog taken committed reading)
      → InOrder (input_step (at buffer backlog taken committed reading) (read_call arrival))
  unfolding input_step read_input read_from receive
  read-InOrder [] backlog taken committed reading none inv = record {
    backlog = simp append-nil inv.backlog;
    all = simp append-nil (rw append-nil at inv.all);
  }
  read-InOrder [] backlog taken committed reading (some v) inv = record {
    backlog = rw inv.backlog;
    all = simp (append-nil, ← append_assoc) (ap (λ l. l ++ v ∷ []) (rw append-nil at inv.all));
  }
  read-InOrder (v ∷ rest) backlog taken committed reading arrival inv = record {
    backlog = rw inv.backlog;
    all = simp (append-nil, append_assoc) inv.all;
  }

  step-InOrder : (r : InputRun V) (c : InputCall V) → InOrder r → InOrder (input_step r c)
  unfolding input_step commit_input abort_input
  step-InOrder r (read_call arrival) inv =
      read-InOrder r.res.buffer r.res.backlog_buffer r.taken r.committed r.reading arrival inv
  step-InOrder r commit_call inv = record { backlog = refl; all = rw append_assoc inv.all }
  step-InOrder r abort_call inv = record { backlog = refl; all = rw inv.backlog inv.all }

  run-InOrder : (r : InputRun V) (cs : List (InputCall V)) → InOrder r → InOrder (input_run r cs)
  unfolding input_run
  run-InOrder r [] inv = inv
  run-InOrder r (c ∷ cs) inv = run-InOrder (input_step r c) cs (step-InOrder r c inv)

  abbrev pub started : InputRun V
  started = record { res = new_input; taken = []; committed = []; reading = [] }

  -- After any sequence of reads, commits and aborts on a new input channel, the values that the
  -- committed sections have read, then those that the running section has read, then those that are
  -- buffered for it, are the values taken from the Go channel, in order; and an abort buffers again
  -- exactly what the running section has read.
  pub input_exactly_once :
      (cs : List (InputCall V))
      → (let r = input_run started cs in
          (r.committed ++ (r.reading ++ r.res.buffer) ≡ r.taken)
          × ((abort_input r.res).buffer ≡ r.reading ++ r.res.buffer))
  unfolding new_input abort_input
  input_exactly_once cs =
      let inv = run-InOrder started cs (record { backlog = refl; all = refl }) in
      (inv.all, rw inv.backlog)

-- The calls on an output channel.
pub data OutputCall (V : Type 0) : Type 0 where
  write_call : V → OutputCall V
  commit_call abort_call : OutputCall V

pub record OutputRun (V : Type 0) : Type 0 where
  pub res : OutputChan V
  pub sent : List V

module _ {V : Type 0} where
  pub output_step : OutputRun V → OutputCall V → OutputRun V
  output_step r (write_call v) = record r { res = write_output v r.res }
  output_step r commit_call =
      let (values, res') = commit_output r.res in record { res = res'; sent = r.sent ++ values }
  output_step r abort_call = record r { res = abort_output r.res }

  pub output_run : OutputRun V → List (OutputCall V) → OutputRun V
  output_run r [] = r
  output_run r (c ∷ cs) = output_run (output_step r c) cs

  -- What the committed sections of a sequence of calls wrote, `pending` having been written before.
  pub writes_committed : List V → List (OutputCall V) → List V
  writes_committed pending [] = []
  writes_committed pending (write_call v ∷ cs) = writes_committed (pending ++ v ∷ []) cs
  writes_committed pending (commit_call ∷ cs) = pending ++ writes_committed [] cs
  writes_committed pending (abort_call ∷ cs) = writes_committed [] cs

  -- Whatever the order of writes, commits and aborts, what is sent is what the committed sections
  -- wrote, in order: nothing of an aborted section, and nothing twice.
  pub output_exactly_once :
      (r : OutputRun V) (cs : List (OutputCall V))
      → (output_run r cs).sent ≡ r.sent ++ writes_committed r.res.buffer cs
  unfolding output_run output_step writes_committed write_output commit_output abort_output
  output_exactly_once r [] = sym (append-nil r.sent)
  output_exactly_once r (write_call v ∷ cs) = output_exactly_once (output_step r (write_call v)) cs
  output_exactly_once r (commit_call ∷ cs) =
      output_exactly_once (output_step r commit_call) cs
      ∙ append_assoc r.sent r.res.buffer (writes_committed [] cs)
  output_exactly_once r (abort_call ∷ cs) = output_exactly_once (output_step r abort_call) cs
