-- ===== src/Resources/TwoPc/Turns/Heard.antt =====
-- What the messages of other nodes can make of the state of a node.
use pgo_eval.Base.{
  ℕ, ◌+◌, ◌<◌, ◌≡◌, refl, Bool, false, Option, none, some, if◌then◌else◌, ltb, >>=-eq-some, arith,
  Bool-cases, inl, inr,
}
use pgo_eval.Resources.TwoPc.{
  RequestType, pre_commit, commit, abort, get_state, Request, Response, Node, take_over,
  accept_new_value, make_reject,
}
use pgo_eval.Resources.TwoPc.Receive.{receive_internal, receive_pre_commit, receive_abort, dispatch}
use pgo_eval.Resources.TwoPc.Section.{answer_pre_commit, answer_notice, catch_up}

module _ {V : Type 0} (n : Node V) where
  -- Nothing changes, or a value of a later version is taken over.
  pub data Heard (n' : Node V) : Type 0 where
    nothing : n' ≡ n → Heard n'
    newer : (v : V) (version : ℕ) → n.version < version → n' ≡ take_over v version n → Heard n'

  pub accept_new_value-Heard :
      (v : V) (version : ℕ) {n' : Node V} → accept_new_value v version n ≡ some n' → Heard n'
  unfolding accept_new_value
  accept_new_value-Heard v version e = newer v version (ground arith) (ground arith)

  catch_up-Heard : (reply : Response V) {n' : Node V} → catch_up reply n ≡ some n' → Heard n'
  unfolding catch_up
  catch_up-Heard reply e = elim (Bool-cases (ltb n.version reply.version)) [
    | inl later ↦ newer reply.value reply.version (ground arith) (ground arith)
    | inr no_later ↦ nothing (ground arith)
  ]

  pub answer_pre_commit-Heard :
      (outcome : Option (Response V)) {n' : Node V} {response : Bool}
      → answer_pre_commit outcome n ≡ some (n', response)
      → Heard n'
  unfolding answer_pre_commit
  answer_pre_commit-Heard none e = nothing (cc)
  answer_pre_commit-Heard (some reply) e = elim (Bool-cases reply.accept) [
    | inl accepted ↦ nothing (ground arith)
    | inr rejected ↦
        let (n'', e', f) = >>=-eq-some (catch_up reply n) _ (rw rejected at e) in
        catch_up-Heard reply (cc)
  ]

  pub answer_notice-Heard :
      (version : ℕ) (reply : Response V) {n' : Node V}
      → answer_notice version reply n ≡ some n'
      → Heard n'
  unfolding answer_notice
  answer_notice-Heard version reply e = elim (Bool-cases reply.accept) [
    | inl accepted ↦ nothing (ground arith)
    | inr rejected ↦ elim (Bool-cases (ltb version reply.version)) [
      | inl ahead ↦ catch_up-Heard reply (rw (rejected, ahead) at e)
      | inr behind ↦ absurd (ground arith)
    ]
  ]

  module _ (same : V → V → Bool) (nil_value : V) (arg : Request V) where
    -- The changes that a request makes.
    pub data Received (n' : Node V) : Type 0 where
      heard : Heard n' → Received n'
      pre_commits :
          arg.request_type ≡ pre_commit
          → ltb arg.version (n.version + 1) ≡ false
          → n' ≡ (receive_pre_commit same nil_value arg n).0
          → Received n'
      aborts : arg.request_type ≡ abort → n' ≡ receive_abort same nil_value arg n → Received n'

    dispatch-Received :
        (typ : RequestType) {n' : Node V} {reply : Response V}
        → arg.request_type ≡ typ
        → ltb arg.version (n.version + 1) ≡ false
        → dispatch same nil_value typ arg n ≡ some (n', reply)
        → Received n'
    unfolding dispatch
    dispatch-Received pre_commit t h e = pre_commits t h (cc)
    dispatch-Received commit t h e =
        let (n'', e', f) = >>=-eq-some (accept_new_value arg.value arg.version n) _ e in
        heard (accept_new_value-Heard arg.value arg.version (cc))
    dispatch-Received abort t h e = aborts t (cc)
    dispatch-Received get_state t h e = heard (nothing (cc))

    current_or_low :
        (typ : RequestType) {n' : Node V} (reply : Response V)
        → arg.request_type ≡ typ
        → (if ltb arg.version (n.version + 1)
            then some (n, make_reject n)
            else dispatch same nil_value typ arg n)
          ≡ some (n', reply)
        → Received n'
    current_or_low typ reply t e = elim (Bool-cases (ltb arg.version (n.version + 1))) [
      | inl low ↦ heard (nothing (ground arith))
      | inr current ↦ dispatch-Received typ t current (rw current at e)
    ]

    receive_as :
        (typ : RequestType) {n' : Node V} {reply : Response V}
        → arg.request_type ≡ typ
        → receive_internal same nil_value arg n ≡ some (n', reply)
        → Received n'
    unfolding receive_internal
    receive_as get_state t e = heard (nothing (ground arith))
    receive_as pre_commit {reply} t e = current_or_low pre_commit reply t (ground arith)
    receive_as commit {reply} t e = current_or_low commit reply t (ground arith)
    receive_as abort {reply} t e = current_or_low abort reply t (ground arith)

    pub receive_internal-Received :
        {n' : Node V} {reply : Response V}
        → receive_internal same nil_value arg n ≡ some (n', reply)
        → Received n'
    receive_internal-Received e = receive_as arg.request_type refl e
