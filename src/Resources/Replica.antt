-- ===== src/Resources/Replica.antt =====
-- distsys/resources/crdt.go: one replica of a CRDT as a resource. Critical sections, the goroutine
-- `merger`, the broadcasts and the calls of `ReceiveValue` from peers take turns on its state. The
-- connections are not modelled: what a peer sends is an argument, and what is sent to the peers is a
-- result.
pub mod Promises
pub mod Lost
use pgo_eval.Base.{
  ℕ, Bool, true, false, Option, none, some, List, [], ◌∷◌, ◌++◌, if◌then◌else◌, ltb, length, ◌>>=◌,
}

-- `CRDTValue`, with its states in `C` and the values of the archetype in `V`.
pub record CrdtValue (C V : Type 0) : Type 0 where
  pub init : C
  pub read : C → V
  pub write : V → V → C → C
  pub merge : C → C → C

pub record Replica (C V : Type 0) : Type 0 where
  pub id : V
  pub old_value : C
  pub value : C
  pub has_old_value : Bool
  -- the channel `mergeValues`, the first to be received in front
  pub merge_values : List C
  -- whether the channel `newValue` is full
  pub new_value : Bool

abbrev pub merge_values_size : ℕ
merge_values_size = 100

module _ {C V : Type 0} (crdt : CrdtValue C V) where
  -- `nil_value` is the nil that `oldValue` starts with.
  unfoldable pub new : C → V → Replica C V
  new nil_value id = record {
    id = id;
    old_value = nil_value;
    value = crdt.init;
    has_old_value = false;
    merge_values = [];
    new_value = false;
  }

  unfoldable pub abort : Replica C V → Replica C V
  abort res =
      if res.has_old_value then record res { value = res.old_value; has_old_value = false } else res

  unfoldable pub commit : Replica C V → Replica C V
  commit res = record res { has_old_value = false }

  unfoldable pub read_value : Replica C V → V
  read_value res = crdt.read res.value

  unfoldable pub write_value : V → Replica C V → Replica C V
  write_value value res = record res {
    old_value = if res.has_old_value then res.old_value else res.value;
    has_old_value = true;
    value = crdt.write res.id value res.value;
    new_value = true;
  }

  -- A nil is dropped. With a full channel the caller waits, which is none.
  unfoldable pub prep_merge : Option C → Replica C V → Option (Replica C V)
  prep_merge none res = some res
  prep_merge (some rcvd) res =
      if ltb (length res.merge_values) merge_values_size
      then some (record res { merge_values = res.merge_values ++ rcvd ∷ [] })
      else none

  unfoldable pub get_stable_value : Replica C V → C
  get_stable_value res = if res.has_old_value then res.old_value else res.value

  -- What is sent to the peers, if anything, up to the replies, which go to `prepMerge`.
  unfoldable pub broadcast : Replica C V → Option C × Replica C V
  broadcast res =
      if res.new_value
      then (some (get_stable_value res), record res { new_value = false })
      else (none, res)

  -- One round of `merger`, with what is in the channel.
  unfoldable pub merge_first : List C → Replica C V → Replica C V
  merge_first [] res = res
  merge_first (merge_val ∷ rest) res = record res {
    value = crdt.merge res.value merge_val;
    merge_values = rest;
  }

  unfoldable pub merger : Replica C V → Replica C V
  merger res = merge_first res.merge_values res

  -- The reply, and the state after the call.
  unfoldable pub receive_value : Option C → Replica C V → Option (C × Replica C V)
  receive_value rcvd res = do res' ← prep_merge rcvd res; some (get_stable_value res', res')
