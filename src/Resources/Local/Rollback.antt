-- ===== src/Resources/Local/Rollback.antt =====
-- distsys/archetyperesource.go: a local resource keeps its promise to `Run`.
use pgo_eval.Base.{◌≡◌, refl, ap, ◌∙◌, if◌then◌else◌, List, [], ◌∷◌, arith}
use pgo_eval.Resources.Local.{Local, new, abort, commit, read_value, write_value}

-- The calls that change a resource.
pub data Call (V : Type 0) : Type 0 where
  write_call : V → Call V
  commit_call abort_call : Call V

-- What a resource promises: the value of the last commit, and the current value.
pub record Promise (V : Type 0) : Type 0 where
  pub committed : V
  pub current : V

abbrev pub promise : {V : Type 0} → Call V → Promise V → Promise V
promise (write_call v) p = record p { current = v }
promise commit_call p = record { committed = p.current; current = p.current }
promise abort_call p = record { committed = p.committed; current = p.committed }

pub promises : {V : Type 0} → List (Call V) → Promise V → Promise V
promises [] p = p
promises (c ∷ cs) p = promises cs (promise c p)

-- The value that an abort would bring back.
abbrev pub rolled_back : {V : Type 0} → Local V → V
rolled_back res = if res.has_old_value then res.old_value else res.value

module _ {V : Type 0} (zero : V) where
  pub perform : Call V → Local V → Local V
  perform (write_call v) res = write_value v res
  perform commit_call res = commit zero res
  perform abort_call res = abort zero res

  pub performs : List (Call V) → Local V → Local V
  performs [] res = res
  performs (c ∷ cs) res = performs cs (perform c res)

  abbrev view : Local V → Promise V
  view res = record { committed = rolled_back res; current = read_value res }

  perform-view : (c : Call V) (res : Local V) → view (perform c res) ≡ promise c (view res)
  unfolding perform write_value commit abort read_value
  perform-view (write_call v) res = ground arith
  perform-view commit_call res = ground arith
  perform-view abort_call res = ground arith

  performs-view :
      (cs : List (Call V)) (res : Local V) → view (performs cs res) ≡ promises cs (view res)
  unfolding performs promises
  performs-view [] res = refl
  performs-view (c ∷ cs) res = rw (performs-view cs (perform c res), perform-view c res)

  read-abort : (res : Local V) → read_value (abort zero res) ≡ rolled_back res
  unfolding abort read_value
  read-abort res = ground arith

  -- After any sequence of writes, commits and aborts on a new resource, reading it returns the last
  -- value written since the last commit or abort, or else the value of the last commit; and that
  -- committed value, the initial one at first, is what an abort brings back.
  pub performs-promises :
      (v : V) (cs : List (Call V))
      → (read_value (performs cs (new zero v))
          ≡ (promises cs (record { committed = v; current = v })).current)
        × (read_value (abort zero (performs cs (new zero v)))
            ≡ (promises cs (record { committed = v; current = v })).committed)
  unfolding new abort read_value
  performs-promises v cs =
      let all = performs-view cs (new zero v) in
      (ap (λ p. p.current) all, read-abort (performs cs (new zero v)) ∙ ap (λ p. p.committed) all)
