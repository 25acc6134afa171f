-- ===== src/Resources/Persistent.antt =====
-- distsys/resources/persistent.go: a resource whose state is put into a database at each commit of
-- a section that wrote it. The database, github.com/dgraph-io/badger, is the bytes at the key of the
-- resource, and an update of it does not fail; `get_state` is the `GetState` of the wrapped resource.
-- `Commit` is its goroutine, which `Run` waits for.
pub mod Durable
use pgo_eval.Base.{Bool, true, false, Option, none, some, List, [], ◌∷◌, if◌then◌else◌, ◌>>=◌}
use pgo_eval.Context.Sections.Contract.{Resource}

pub record Persistent (R B : Type 0) : Type 0 where
  pub db : Option B
  pub wrapped_res : R
  pub has_new_value : Bool

unfoldable pub make_persistent : {R B : Type 0} → Option B → R → Persistent R B
make_persistent db persistable = record {
  db = db;
  wrapped_res = persistable;
  has_new_value = false;
}

module _ {V R S B : Type 0} (ops : Resource V R S) (get_state : R → Option B) where
  unfoldable pub abort : Persistent R B → Persistent R B
  abort res = record res { wrapped_res = ops.abort res.wrapped_res; has_new_value = false }

  unfoldable pub pre_commit : Persistent R B → Bool × Persistent R B
  pre_commit res = let r = ops.pre_commit res.wrapped_res in (r.0, record res { wrapped_res = r.1 })

  -- The update of the database, which panics if the state cannot be had.
  unfoldable pub update : Persistent R B → Option (Persistent R B)
  update res =
      let stored = get_state res.wrapped_res >>= λ value.
      some (record res { db = some value; has_new_value = false }) in
      if res.has_new_value then stored else some res

  unfoldable pub commit : Persistent R B → Option (Persistent R B)
  commit res =
      update res >>= λ res'. some (record res' { wrapped_res = ops.commit res'.wrapped_res })

  -- `ReadValue`, or, below an index, that of the wrapped resource's part, which `Index` returns.
  unfoldable pub read_at : List V → Persistent R B → Option V × Persistent R B
  read_at is res = let r = ops.read_at is res.wrapped_res in (r.0, record res { wrapped_res = r.1 })

  -- `WriteValue`, or, below an index, that of the wrapped resource's part, which `Index` returns.
  unfoldable pub write_at : List V → V → Persistent R B → Bool × Persistent R B
  write_at [] v res =
      let r = ops.write_at [] v res.wrapped_res in
      (r.0, record res { wrapped_res = r.1; has_new_value = true })
  write_at (i ∷ is) v res =
      let r = ops.write_at (i ∷ is) v res.wrapped_res in (r.0, record res { wrapped_res = r.1 })
