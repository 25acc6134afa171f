-- ===== src/Resources/IncMap.antt =====
-- distsys/resources/incmap.go and hashmap.go: a resource that is a map of resources. `IncMap` makes
-- the element of an index when the index is first used, and `HashMap` has all its elements at once;
-- the rest of the two files is the same code. The elements are shared by reference between the two
-- hash maps of the resource, so the hash maps hold addresses, and a heap has the elements.
pub mod Loops
pub mod Consistent
pub mod Indexed
pub mod Ending
pub mod Used
pub mod Section
use pgo_eval.Base.{
  ℕ, Bool, true, ◌&&◌, Option, none, some, List, [], ◌∷◌, ◌+◌, ◌==◌, if◌then◌else◌, ◌>>=◌,
}
use pgo_eval.Hasher.{Hasher}
use pgo_eval.HashMap as Hash
use pgo_eval.HashMap.{HashMap}
use pgo_eval.Context.Sections.Contract.{Resource}

-- `realized_map` (`resourceMap` in `HashMap`) and `dirty_elems`, with the heap of the elements and
-- the next free address.
pub record IncMap (K R : Type 0) : Type 0 where
  pub realized_map : HashMap K ℕ
  pub dirty_elems : HashMap K ℕ
  pub heap : ℕ → R
  pub next : ℕ

unfoldable pub store : {R : Type 0} → ℕ → R → (ℕ → R) → ℕ → R
store a r heap b = if b == a then r else heap b

-- The elements before any is made; the heap is not read where nothing is realized.
module _ {K R : Type 0} ⦃h : Hasher K⦄ where
  unfoldable pub new_inc_map : (ℕ → R) → IncMap K R
  new_inc_map heap = record {
    realized_map = Hash.new;
    dirty_elems = Hash.new;
    heap = heap;
    next = 0;
  }

  -- `Index` of `IncMap`: the address of the element, and the new state.
  unfoldable pub index : (K → R) → K → IncMap K R → ℕ × IncMap K R
  index fill_function k res = elim (Hash.get k res.realized_map) [
    | some sub_res ↦ (sub_res, record res { dirty_elems = Hash.set k sub_res res.dirty_elems })
    | none ↦ (
      res.next,
      record {
        realized_map = Hash.set k res.next res.realized_map;
        dirty_elems = Hash.set k res.next res.dirty_elems;
        heap = store res.next (fill_function k) res.heap;
        next = res.next + 1;
      },
    )
  ]

  -- `Index` of `HashMap`, which panics on an index that it does not have.
  unfoldable pub index_existing : K → IncMap K R → Option (ℕ × IncMap K R)
  index_existing k res = elim (Hash.get k res.realized_map) [
    | some sub_res ↦ some (sub_res, record res { dirty_elems = Hash.set k sub_res res.dirty_elems })
    | none ↦ none
  ]

  -- The loops over `dirtyElems.Keys()`. A key that is not in the map has the nil element, whose
  -- methods panic.
  unfoldable pub each_dirty : (R → R) → List K → HashMap K ℕ → (ℕ → R) → Option (ℕ → R)
  each_dirty f [] dirty heap = some heap
  each_dirty f (k ∷ ks) dirty heap =
      Hash.get k dirty >>= λ a. each_dirty f ks dirty (store a (f (heap a)) heap)

module _ {V R S K : Type 0} ⦃h : Hasher K⦄ (ops : Resource V R S) where
  -- Every element is asked, and the answer is an error if that of some element is.
  unfoldable pub pre_commit_dirty : List K → HashMap K ℕ → (ℕ → R) → Option (Bool × (ℕ → R))
  pre_commit_dirty [] dirty heap = some (true, heap)
  pre_commit_dirty (k ∷ ks) dirty heap = Hash.get k dirty >>= λ a.
      (let r = ops.pre_commit (heap a) in
        pre_commit_dirty ks dirty (store a r.1 heap) >>= λ p. some (r.0 && p.0, p.1))

  unfoldable pub pre_commit : IncMap K R → Option (Bool × IncMap K R)
  pre_commit res = pre_commit_dirty res.dirty_elems.keys res.dirty_elems res.heap >>= λ p.
      some (p.0, record res { heap = p.1 })

  unfoldable pub commit : IncMap K R → Option (IncMap K R)
  commit res = each_dirty ops.commit res.dirty_elems.keys res.dirty_elems res.heap >>= λ heap.
      some (record res { dirty_elems = Hash.clear res.dirty_elems; heap = heap })

  unfoldable pub abort : IncMap K R → Option (IncMap K R)
  abort res = each_dirty ops.abort res.dirty_elems.keys res.dirty_elems res.heap >>= λ heap.
      some (record res { dirty_elems = Hash.clear res.dirty_elems; heap = heap })

  -- A read or a write of a section: `Index`, and then the call on the element that it returned.
  unfoldable pub read_at : (K → R) → K → List V → IncMap K R → Option V × IncMap K R
  read_at fill_function k is res =
      let (a, res') = index fill_function k res in
      let r = ops.read_at is (res'.heap a) in (r.0, record res' { heap = store a r.1 res'.heap })

  unfoldable pub write_at : (K → R) → K → List V → V → IncMap K R → Bool × IncMap K R
  write_at fill_function k is v res =
      let (a, res') = index fill_function k res in
      let r = ops.write_at is v (res'.heap a) in (r.0, record res' { heap = store a r.1 res'.heap })
