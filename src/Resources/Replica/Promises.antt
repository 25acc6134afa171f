-- ===== src/Resources/Replica/Promises.antt =====
-- distsys/resources/crdt.go: what the archetype reads and what the peers get, for every interleaving.
use pgo_eval.Base.{
  ◌≡◌, refl, ap, ◌∙◌, Bool, true, false, Option, none, some, List, [], ◌∷◌, ◌++◌, ◌>>=◌,
  if◌then◌else◌, ltb, length, arith, Bool-cases, inl, inr,
}
use pgo_eval.Resources.Replica.{
  CrdtValue, Replica, merge_values_size, new, abort, commit, read_value, write_value, prep_merge,
  get_stable_value, broadcast, merge_first, merger, receive_value,
}

-- What takes turns on a replica.
pub data Turn (C V : Type 0) : Type 0 where
  write_turn : V → Turn C V
  commit_turn abort_turn merger_turn broadcast_turn : Turn C V
  receive_turn : Option C → Turn C V

-- What a replica promises: the state of the last commit, the current state, whether a section has
-- written, whether there was a write since the last broadcast, and the states that wait to be merged.
pub record Promise (C : Type 0) : Type 0 where
  pub committed : C
  pub current : C
  pub written : Bool
  pub announced : Bool
  pub waiting : List C

module _ {C V : Type 0} (crdt : CrdtValue C V) where
  -- A state that is merged while a section has written goes into the current state alone.
  abbrev pub merge_waiting : List C → Promise C → Promise C
  merge_waiting [] p = p
  merge_waiting (v ∷ rest) p =
      let merged = crdt.merge p.current v in
      record p {
        committed = if p.written then p.committed else merged;
        current = merged;
        waiting = rest;
      }

  -- What a turn sends to peers, and what it makes of the promise.
  abbrev pub promise : V → Turn C V → Promise C → List C × Promise C
  promise id (write_turn v) p =
      ([], record p { current = crdt.write id v p.current; written = true; announced = true })
  promise id commit_turn p = ([], record p { committed = p.current; written = false })
  promise id abort_turn p = ([], record p { current = p.committed; written = false })
  promise id merger_turn p = ([], merge_waiting p.waiting p)
  promise id broadcast_turn p =
      if p.announced then (p.committed ∷ [], record p { announced = false }) else ([], p)
  promise id (receive_turn none) p = (p.committed ∷ [], p)
  promise id (receive_turn (some v)) p =
      if ltb (length p.waiting) merge_values_size
      then (p.committed ∷ [], record p { waiting = p.waiting ++ v ∷ [] })
      else ([], p)

  pub promises : V → List (Turn C V) → Promise C → List C × Promise C
  promises id [] p = ([], p)
  promises id (t ∷ ts) p =
      let now = promise id t p in let later = promises id ts now.1 in (now.0 ++ later.0, later.1)

  abbrev as_list : Option C → List C
  as_list none = []
  as_list (some c) = c ∷ []

  -- A call that waits has no reply yet.
  abbrev after_receive : Replica C V → Option (C × Replica C V) → List C × Replica C V
  after_receive res none = ([], res)
  after_receive res (some (reply, res')) = (reply ∷ [], res')

  -- What a turn sends to peers, in a broadcast or in a reply, and the state after it.
  pub perform : Turn C V → Replica C V → List C × Replica C V
  perform (write_turn v) res = ([], write_value crdt v res)
  perform commit_turn res = ([], commit crdt res)
  perform abort_turn res = ([], abort crdt res)
  perform merger_turn res = ([], merger crdt res)
  perform broadcast_turn res = (as_list (broadcast crdt res).0, (broadcast crdt res).1)
  perform (receive_turn rcvd) res = after_receive res (receive_value crdt rcvd res)

  pub performs : List (Turn C V) → Replica C V → List C × Replica C V
  performs [] res = ([], res)
  performs (t ∷ ts) res =
      let now = perform t res in let later = performs ts now.1 in (now.0 ++ later.0, later.1)

  abbrev shown : Replica C V → Promise C
  shown res = record {
    committed = get_stable_value crdt res;
    current = res.value;
    written = res.has_old_value;
    announced = res.new_value;
    waiting = res.merge_values;
  }

  abbrev shown_after : List C × Replica C V → List C × Promise C
  shown_after (sent, res) = (sent, shown res)

  abbrev prepend : List C → List C × Promise C → List C × Promise C
  prepend sent (later, p) = (sent ++ later, p)

  merge_first-shown :
      (vs : List C) (res : Replica C V)
      → res.merge_values ≡ vs
      → shown (merge_first crdt vs res) ≡ merge_waiting vs (shown res)
  unfolding merge_first get_stable_value
  merge_first-shown [] res e = refl
  merge_first-shown (v ∷ vs) res e = ground arith

  merge_first-id : (vs : List C) (res : Replica C V) → (merge_first crdt vs res).id ≡ res.id
  unfolding merge_first
  merge_first-id [] res = refl
  merge_first-id (v ∷ vs) res = refl

  perform-shown :
      (t : Turn C V) (res : Replica C V)
      → shown_after (perform t res) ≡ promise res.id t (shown res)
  unfolding perform write_value commit abort merger merge_first broadcast receive_value prep_merge
      get_stable_value
  perform-shown (write_turn v) res = ground arith
  perform-shown commit_turn res = ground arith
  perform-shown abort_turn res = ground arith
  perform-shown merger_turn res = ap (λ p. ([], p)) (merge_first-shown res.merge_values res refl)
  perform-shown broadcast_turn res = elim (Bool-cases res.new_value) [
    | inl news ↦ rw (broadcast, news) refl
    | inr quiet ↦ rw (broadcast, quiet) refl
  ]
  perform-shown (receive_turn none) res = ground arith
  perform-shown (receive_turn (some v)) res =
      elim (Bool-cases (ltb (length res.merge_values) merge_values_size)) [
        | inl room ↦ rw (receive_value, prep_merge, room, ◌>>=◌)
        | inr full ↦ rw (receive_value, prep_merge, full, ◌>>=◌)
      ]

  perform-id : (t : Turn C V) (res : Replica C V) → (perform t res).1.id ≡ res.id
  unfolding perform write_value commit abort merger merge_first broadcast receive_value prep_merge
  perform-id (write_turn v) res = refl
  perform-id commit_turn res = refl
  perform-id abort_turn res = ground arith
  perform-id merger_turn res = merge_first-id res.merge_values res
  perform-id broadcast_turn res = ground arith
  perform-id (receive_turn none) res = refl
  perform-id (receive_turn (some v)) res =
      elim (Bool-cases (ltb (length res.merge_values) merge_values_size)) [
        | inl room ↦ rw (receive_value, prep_merge, room, ◌>>=◌)
        | inr full ↦ rw (receive_value, prep_merge, full, ◌>>=◌)
      ]

  performs-shown :
      (ts : List (Turn C V)) (res : Replica C V)
      → shown_after (performs ts res) ≡ promises res.id ts (shown res)
  unfolding performs promises
  performs-shown [] res = refl
  performs-shown (t ∷ ts) res =
      let now = perform-shown t res in
      let later : shown_after (performs ts (perform t res).1)
          ≡ promises res.id ts (promise res.id t (shown res)).1 =
        performs-shown ts (perform t res).1
        ∙ rw (perform-id t res) (ap (λ p. promises res.id ts p.1) now) in
      ap (λ sent. prepend sent (shown_after (performs ts (perform t res).1))) (ap (λ p. p.0) now)
      ∙ ap (prepend (promise res.id t (shown res)).0) later

  -- For every interleaving on a new replica of writes, commits and aborts of the archetype with the
  -- merger, the broadcasts and the calls of peers, where a broadcast up to what it sends is one turn:
  -- what is sent to peers, in the broadcasts and in the replies in their order, is each time the
  -- state that is committed then, without the writes of a section that has not ended; a broadcast
  -- sends it if there was a write since the last broadcast, committed or not, and a call of a peer
  -- is answered with it unless the channel is full; and the archetype reads the current state. A
  -- state that is merged while a section has written counts as part of the section.
  pub turns-promises :
      (nil_value : C) (id : V) (ts : List (Turn C V))
      → (let p = promises id ts (record {
        committed = crdt.init;
        current = crdt.init;
        written = false;
        announced = false;
        waiting = [];
      }) in
          ((performs ts (new crdt nil_value id)).0 ≡ p.0)
          × (read_value crdt (performs ts (new crdt nil_value id)).1 ≡ crdt.read p.1.current))
  unfolding new read_value get_stable_value
  turns-promises nil_value id ts =
      let all = performs-shown ts (new crdt nil_value id) in
      (ap (λ p. p.0) all, ap (λ p. crdt.read p.1.current) all)
