-- ===== src/Tests.antt =====
-- Concrete parameters for the examples: keys that are integers, hashed into two chains so that they
-- collide, and a map library made of association lists.
mod Elements
mod Containers
mod Crdts
mod Runtime
mod Traces
mod Attempts
mod Replicas
mod Commits
mod Nested
mod Operators
mod Calls
use pgo_eval.Base.{
  ℕ, ◌%◌, ◌≡◌, refl, Bool, true, false, Option, none, some, ◌==◌, String, arith, List, [], ◌∷◌,
}
use pgo_eval.Base.Int.{ℤ, pos, negsuc}
use pgo_eval.Hasher.{Hasher}
use pgo_eval.Maps.{MapLib}
use pgo_eval.Maps.Assoc.{assoc_maps}
use pgo_eval.Tla.{TlaValue}

abbrev pub equal : ℤ → ℤ → Bool
equal (pos m) (pos n) = m == n
equal (negsuc m) (negsuc n) = m == n
equal _ _ = false

abbrev pub hash : ℤ → ℕ
hash (pos n) = n % 2
hash (negsuc n) = n % 2

refl_lem : (k : ℤ) → equal k k ≡ true
refl_lem k = ground arith

same_lem : (i j : ℤ) → equal i j ≡ true → (k : ℤ) → equal k i ≡ equal k j
same_lem i j e k = ground arith

hash_lem : (i j : ℤ) → equal i j ≡ true → hash i ≡ hash j
hash_lem i j e = ground arith

instance pub integer_keys : Hasher ℤ
integer_keys = record {
  hash = hash;
  equal = equal;
  equal_refl = refl_lem;
  equal_same = same_lem;
  hash-equal = hash_lem;
}

abbrev pub maps : MapLib ℤ
maps = assoc_maps

-- A pair is read as its second part.
abbrev tuple : List ℤ → ℤ
tuple (a ∷ b ∷ rest) = b
tuple _ = pos 0

-- Numbers are themselves; a record is read as one whose fields all hold the record's number.
abbrev pub integers : TlaValue ℤ
integers = record {
  default_value = pos 0;
  make_number = λ n. n;
  as_number = λ v. some v;
  make_string = λ s. pos 0;
  make_tuple = tuple;
  function_get = λ v key. some (some v);
  as_number-make_number = λ n. refl;
}
