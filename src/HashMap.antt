-- ===== src/HashMap.antt =====
-- distsys/hashmap/hashmap.go: a map from TLA+ values, hashed into chains, that keeps its keys in
-- insertion order. Go's `map[uint32][]Entry[V]` is a function from hashes to the chain, if present.
pub mod Lookup
pub mod Keys
use pgo_eval.Base.{ℕ, Option, none, some, List, [], ◌∷◌, ◌++◌, ◌==◌, if◌then◌else◌}
use pgo_eval.Hasher.{Hasher}

pub record Entry (K V : Type 0) : Type 0 where
  pub key : K
  pub value : V

pub record HashMap (K V : Type 0) : Type 0 where
  pub m : ℕ → Option (List (Entry K V))
  pub keys : List K

module _ {K V : Type 0} ⦃h : Hasher K⦄ where
  unfoldable pub new : HashMap K V
  new = record { m = λ _. none; keys = [] }

  -- `h.m[hash] = entries`
  unfoldable pub put :
      ℕ → List (Entry K V) → (ℕ → Option (List (Entry K V))) → ℕ → Option (List (Entry K V))
  put hash entries m i = if i == hash then some entries else m i

  -- The loop of `Set` over a chain that is there: the chain with the first entry of an equal key
  -- overwritten, or nothing if no key is equal.
  unfoldable pub overwrite : K → V → List (Entry K V) → Option (List (Entry K V))
  overwrite k v [] = none
  overwrite k v (e ∷ es) =
      let rest = overwrite k v es in
      if h.equal e.key k
      then some (record e { value = v } ∷ es)
      else elim rest [ none ↦ none | some es' ↦ some (e ∷ es') ]

  unfoldable pub set : K → V → HashMap K V → HashMap K V
  set k v t =
      let entry : Entry K V = record { key = k; value = v } in
      let hash = h.hash k in
      elim (t.m hash) [
        | none ↦ record { m = put hash (entry ∷ []) t.m; keys = t.keys ++ k ∷ [] }
        | some es ↦ elim (overwrite k v es) [
          | some es' ↦ record t { m = put hash es' t.m }
          | none ↦ record { m = put hash (es ++ entry ∷ []) t.m; keys = t.keys ++ k ∷ [] }
        ]
      ]

  -- The loop of `Get`.
  unfoldable pub find : K → List (Entry K V) → Option V
  find k [] = none
  find k (e ∷ es) = if h.equal e.key k then some e.value else find k es

  unfoldable pub find_in : K → Option (List (Entry K V)) → Option V
  find_in k none = none
  find_in k (some es) = find k es

  unfoldable pub get : K → HashMap K V → Option V
  get k t = find_in k (t.m (h.hash k))

  unfoldable pub clear : HashMap K V → HashMap K V
  clear t = record { m = λ _. none; keys = [] }
