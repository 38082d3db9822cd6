-- ===== src/Examples/JsonTree.antt =====
-- A concrete type of JSON values for the tests of what is modelled over `Json`. Two argument texts
-- are parsed; every other text is refused.
use prosthetic_conscience.Prelude.{
  ℕ, ◌≡◌, refl, ap, String, List, [], ◌∷◌, Option, none, some, ◌==◌, string_eq, if◌then◌else◌,
}
use prosthetic_conscience.Map.{Map, get}
use prosthetic_conscience.Json.{Json, IsLawful, Parsed, parsed, failed}

mutual
  pub data Tree : Type 0 where
    leaf_null : Tree
    leaf_text : String → Tree
    leaf_number : ℕ → Tree
    node_array : Branches → Tree
    node_object : Names → Tree

  pub data Branches : Type 0 where
    no_branch : Branches
    branch : Tree → Branches → Branches

  pub data Names : Type 0 where
    no_name : Names
    name : String → Tree → Names → Names

abbrev pub to_branches : List Tree → Branches
to_branches [] = no_branch
to_branches (x ∷ xs) = branch x (to_branches xs)

abbrev pub of_branches : Branches → List Tree
of_branches no_branch = []
of_branches (branch x xs) = x ∷ of_branches xs

abbrev pub to_names : Map String Tree → Names
to_names [] = no_name
to_names ((key, x) ∷ m) = name key x (to_names m)

abbrev pub of_names : Names → Map String Tree
of_names no_name = []
of_names (name key x m) = (key, x) ∷ of_names m

of_branches-to_branches : (xs : List Tree) → of_branches (to_branches xs) ≡ xs
of_branches-to_branches [] = refl
of_branches-to_branches (x ∷ xs) = ap (◌∷◌ x) (of_branches-to_branches xs)

of_names-to_names : (m : Map String Tree) → of_names (to_names m) ≡ m
of_names-to_names [] = refl
of_names-to_names (p ∷ m) = ap (◌∷◌ p) (of_names-to_names m)

abbrev pub tree_get : Tree → String → Option Tree
tree_get (node_object m) key = get (of_names m) key
tree_get _ key = none

abbrev pub tree_as_object : Tree → Option (String → Option Tree)
tree_as_object (node_object m) = some (get (of_names m))
tree_as_object _ = none

abbrev pub tree_as_str : Tree → Option String
tree_as_str (leaf_text s) = some s
tree_as_str _ = none

abbrev pub tree_as_u64 : Tree → Option ℕ
tree_as_u64 (leaf_number n) = some n
tree_as_u64 _ = none

abbrev pub tree_as_array : Tree → Option (List Tree)
tree_as_array (node_array xs) = some (of_branches xs)
tree_as_array _ = none

abbrev pub tree_object : Map String Tree → Tree
tree_object m = node_object (to_names m)

abbrev pub tree_from_str : String → Parsed Tree
tree_from_str s =
    if s == "{}"
    then parsed (tree_object [])
    else if s == "{\"body\":\"rain\",\"kind\":\"fact\"}"
    then parsed (tree_object (("body", leaf_text "rain") ∷ ("kind", leaf_text "fact") ∷ []))
    else failed "expected value"

abbrev pub tree : Json Tree
tree = record {
  get = tree_get;
  as_object = tree_as_object;
  as_str = tree_as_str;
  as_u64 = tree_as_u64;
  as_array = tree_as_array;
  from_str = tree_from_str;
  to_string_pretty = λ value. some "{}";
  null = leaf_null;
  text = leaf_text;
  number = leaf_number;
  array = λ xs. node_array (to_branches xs);
  object = tree_object;
}

pub tree-IsLawful : IsLawful tree
tree-IsLawful = record {
  get_object = λ m key u. ap (λ x. get x key) (of_names-to_names m);
  as_object_object = λ m u. ap (λ x. some (get x)) (of_names-to_names m);
  as_str_object = λ m. refl;
  as_str_text = λ s. refl;
  as_u64_number = λ n h. refl;
  as_array_array = λ xs. ap some (of_branches-to_branches xs);
}
