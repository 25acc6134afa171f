-- ===== src/Tests/Nested.antt =====
-- Values nested in one another, compared as terms: parameters for the examples of the TLA+ operators.
use text.Mathlib.Text.{◌==◌ as str_eq}
use text.Mathlib.TextEquality.{eq_iff}
use text.Mathlib.TextPositions.{eq_refl}
use pgo_eval.Base.{
  String, sym, ◌≡◌, refl, ap, subst, Bool, true, false, ◌&&◌, Option, none, some, List, [], ◌∷◌,
  arith,
}
use pgo_eval.Base.Int.{ℤ}
use pgo_eval.Int32.{wrap, IsInt32, wrap-IsInt32, wrap-eq_self}
use pgo_eval.Hasher.{Hasher}
use pgo_eval.Maps.{MapLib}
use pgo_eval.Maps.Assoc.{assoc_maps}
use pgo_eval.Tla.Values.{Values}
use pgo_eval.Tests.{equal}

mutual
  pub data Nested : Type 0 where
    nil : Nested
    bool : Bool → Nested
    num : ℤ → Nested
    str : String → Nested
    set_of : Marks → Nested
    tuple_of : Items → Nested
    function_of : Pairs → Nested

  pub data Marks : Type 0 where
    no_mark : Marks
    mark : Nested → Bool → Marks → Marks

  pub data Items : Type 0 where
    no_item : Items
    item : Nested → Items → Items

  pub data Pairs : Type 0 where
    no_pair : Pairs
    pair : Nested → Nested → Pairs → Pairs

abbrev pub same_bool : Bool → Bool → Bool
same_bool true b = b
same_bool false true = false
same_bool false false = true

mutual
  same_nested : Nested → Nested → Bool
  same_nested nil nil = true
  same_nested (bool a) (bool b) = same_bool a b
  same_nested (num a) (num b) = equal a b
  same_nested (str a) (str b) = str_eq a b
  same_nested (set_of a) (set_of b) = same_marks a b
  same_nested (tuple_of a) (tuple_of b) = same_items a b
  same_nested (function_of a) (function_of b) = same_pairs a b
  same_nested _ _ = false

  same_marks : Marks → Marks → Bool
  same_marks no_mark no_mark = true
  same_marks (mark a x as1) (mark b y bs) = same_nested a b && same_bool x y && same_marks as1 bs
  same_marks _ _ = false

  same_items : Items → Items → Bool
  same_items no_item no_item = true
  same_items (item a as1) (item b bs) = same_nested a b && same_items as1 bs
  same_items _ _ = false

  same_pairs : Pairs → Pairs → Bool
  same_pairs no_pair no_pair = true
  same_pairs (pair a x as1) (pair b y bs) = same_nested a b && same_nested x y && same_pairs as1 bs
  same_pairs _ _ = false

same_bool_refl : (b : Bool) → same_bool b b ≡ true
same_bool_refl true = refl
same_bool_refl false = refl

equal_refl : (n : ℤ) → equal n n ≡ true
equal_refl n = ground arith

mutual
  unfolding same_nested same_marks same_items same_pairs

  refl_nested : (a : Nested) → same_nested a a ≡ true
  refl_nested nil = refl
  refl_nested (bool b) = same_bool_refl b
  refl_nested (num n) = equal_refl n
  refl_nested (str s) = eq_refl s
  refl_nested (set_of ms) = refl_marks ms
  refl_nested (tuple_of xs) = refl_items xs
  refl_nested (function_of ps) = refl_pairs ps

  refl_marks : (a : Marks) → same_marks a a ≡ true
  refl_marks no_mark = refl
  refl_marks (mark a x ms) = rw (refl_nested a, same_bool_refl x, refl_marks ms) refl

  refl_items : (a : Items) → same_items a a ≡ true
  refl_items no_item = refl
  refl_items (item a xs) = rw (refl_nested a, refl_items xs) refl

  refl_pairs : (a : Pairs) → same_pairs a a ≡ true
  refl_pairs no_pair = refl
  refl_pairs (pair a x ps) = rw (refl_nested a, refl_nested x, refl_pairs ps) refl

same_bool_sound : (a b : Bool) → same_bool a b ≡ true → a ≡ b
same_bool_sound a b e = ground arith

both : (a b : Bool) → (a && b) ≡ true → (a ≡ true) × (b ≡ true)
both true b e = (refl, e)
both false b e = cc

equal_sound : (a b : ℤ) → equal a b ≡ true → a ≡ b
equal_sound a b e = ground arith

mutual
  unfolding same_nested same_marks same_items same_pairs

  sound_nested : (a b : Nested) → same_nested a b ≡ true → a ≡ b
  sound_nested nil nil e = refl
  sound_nested (bool a) (bool b) e = ap bool (same_bool_sound a b e)
  sound_nested (num a) (num b) e = ap num (equal_sound a b e)
  sound_nested (str a) (str b) e = ap str ((eq_iff a b).0 e)
  sound_nested (set_of a) (set_of b) e = ap set_of (sound_marks a b e)
  sound_nested (tuple_of a) (tuple_of b) e = ap tuple_of (sound_items a b e)
  sound_nested (function_of a) (function_of b) e = ap function_of (sound_pairs a b e)
  sound_nested _ _ e = cc

  sound_marks : (a b : Marks) → same_marks a b ≡ true → a ≡ b
  sound_marks no_mark no_mark e = refl
  sound_marks (mark a x as1) (mark b y bs) e =
      let (e1, e2) = both (same_nested a b && same_bool x y) (same_marks as1 bs) e in
      let (e3, e4) = both (same_nested a b) (same_bool x y) e1 in
      let p = sound_nested a b e3 in
      let q = same_bool_sound x y e4 in let r = sound_marks as1 bs e2 in cc
  sound_marks _ _ e = cc

  sound_items : (a b : Items) → same_items a b ≡ true → a ≡ b
  sound_items no_item no_item e = refl
  sound_items (item a as1) (item b bs) e =
      let (e1, e2) = both (same_nested a b) (same_items as1 bs) e in
      let p = sound_nested a b e1 in let r = sound_items as1 bs e2 in cc
  sound_items _ _ e = cc

  sound_pairs : (a b : Pairs) → same_pairs a b ≡ true → a ≡ b
  sound_pairs no_pair no_pair e = refl
  sound_pairs (pair a x as1) (pair b y bs) e =
      let (e1, e2) = both (same_nested a b && same_nested x y) (same_pairs as1 bs) e in
      let (e3, e4) = both (same_nested a b) (same_nested x y) e1 in
      let p = sound_nested a b e3 in
      let q = sound_nested x y e4 in let r = sound_pairs as1 bs e2 in cc
  sound_pairs _ _ e = cc

same_lem :
    (i j : Nested) → same_nested i j ≡ true → (k : Nested) → same_nested k i ≡ same_nested k j
same_lem i j e k = ap (same_nested k) (sound_nested i j e)

instance pub nested_keys : Hasher Nested
nested_keys = record {
  hash = λ v. 0;
  equal = same_nested;
  equal_refl = refl_nested;
  equal_same = same_lem;
  hash-equal = λ i j e. refl;
}

abbrev pub nested_maps : MapLib Nested
nested_maps = assoc_maps

abbrev pub marks_list : Marks → List (Nested × Bool)
marks_list no_mark = []
marks_list (mark v b ms) = (v, b) ∷ marks_list ms

abbrev pub list_marks : List (Nested × Bool) → Marks
list_marks [] = no_mark
list_marks ((v, b) ∷ es) = mark v b (list_marks es)

pub marks_round : (es : List (Nested × Bool)) → marks_list (list_marks es) ≡ es
marks_round [] = refl
marks_round ((v, b) ∷ es) = ap (λ (t : List (Nested × Bool)). (v, b) ∷ t) (marks_round es)

abbrev pub items_list : Items → List Nested
items_list no_item = []
items_list (item v xs) = v ∷ items_list xs

abbrev pub list_items : List Nested → Items
list_items [] = no_item
list_items (v ∷ vs) = item v (list_items vs)

pub items_round : (vs : List Nested) → items_list (list_items vs) ≡ vs
items_round [] = refl
items_round (v ∷ vs) = ap (λ (t : List Nested). v ∷ t) (items_round vs)

abbrev pub pairs_list : Pairs → List (Nested × Nested)
pairs_list no_pair = []
pairs_list (pair k v ps) = (k, v) ∷ pairs_list ps

abbrev pub list_pairs : List (Nested × Nested) → Pairs
list_pairs [] = no_pair
list_pairs ((k, v) ∷ es) = pair k v (list_pairs es)

pub pairs_round : (es : List (Nested × Nested)) → pairs_list (list_pairs es) ≡ es
pairs_round [] = refl
pairs_round ((k, v) ∷ es) = ap (λ (t : List (Nested × Nested)). (k, v) ∷ t) (pairs_round es)

abbrev as_bool : Nested → Option Bool
as_bool (bool b) = some b
as_bool _ = none

abbrev as_number : Nested → Option ℤ
as_number (num n) = some (wrap n)
as_number _ = none

number_inj : (m n : ℤ) → some m ≡ some n → m ≡ n
number_inj m n e = cc

pub text_same : (s : String) (v : Nested) → nested_keys.equal (str s) v ≡ true → str s ≡ v
unfolding nested_keys same_nested
text_same s v e = sound_nested (str s) v e

pub number_same : (m n : ℤ) → nested_keys.equal (num m) (num n) ≡ true → m ≡ n
unfolding nested_keys same_nested
number_same m n e = equal_sound m n e

pub number_range : (v : Nested) {n : ℤ} → as_number v ≡ some n → IsInt32 n
number_range nil e = absurd (cc)
number_range (bool b) e = absurd (cc)
number_range (str s) e = absurd (cc)
number_range (num m) e = subst IsInt32 (number_inj _ _ e) (wrap-IsInt32 m)
number_range (set_of ms) e = absurd (cc)
number_range (tuple_of xs) e = absurd (cc)
number_range (function_of ps) e = absurd (cc)

abbrev as_string : Nested → Option String
as_string (str s) = some s
as_string _ = none

abbrev as_set : Nested → Option (List (Nested × Bool))
as_set (set_of ms) = some (marks_list ms)
as_set _ = none

abbrev as_tuple : Nested → Option (List Nested)
as_tuple (tuple_of xs) = some (items_list xs)
as_tuple _ = none

abbrev as_function : Nested → Option (List (Nested × Nested))
as_function (function_of ps) = some (pairs_list ps)
as_function _ = none

pub one_kind :
    (v : Nested) {m : List (Nested × Nested)} → as_function v ≡ some m → as_tuple v ≡ none
one_kind (tuple_of xs) e = absurd (cc)
one_kind nil e = refl
one_kind (bool b) e = refl
one_kind (num n) e = refl
one_kind (str s) e = refl
one_kind (set_of ms) e = refl
one_kind (function_of ps) e = refl

unfoldable pub nested : Values nested_maps
unfolding assoc_maps
nested = record {
  as_bool = as_bool;
  make_bool = bool;
  as_number = as_number;
  make_number = num;
  as_string = as_string;
  make_string = str;
  as_set = as_set;
  make_set = λ m. set_of (list_marks m);
  as_tuple = as_tuple;
  make_tuple = λ vs. tuple_of (list_items vs);
  as_function = as_function;
  make_function = λ m. function_of (list_pairs m);
  as_bool-make_bool = λ b. refl;
  as_number-make_number = λ n r. ap some (wrap-eq_self n r);
  as_number-IsInt32 = number_range;
  as_string-make_string = λ s. refl;
  as_set-make_set = λ m. ap some (marks_round m);
  as_tuple-make_tuple = λ vs. ap some (items_round vs);
  as_function-make_function = λ m. ap some (pairs_round m);
  as_tuple-as_function = one_kind;
  equal-make_number = λ m n rm rn e. number_same m n e;
  equal-make_string = λ s v e. sym (text_same s v e);
}
