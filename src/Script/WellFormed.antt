-- ===== src/Script/WellFormed.antt =====
-- What the grammar promises of an object pattern: behind `...` stands a name or a member, never
-- another pattern. And fields of nodes.
use testcafe_hammerhead.Common.{
  ◌≡◌, refl, String, Bool, true, ◌&&◌, not, str_eq, eq_iff, arith, if◌then◌else◌, if-elim,
}
use testcafe_hammerhead.Script.Syntax.{
  Node, tree, Fields, end_of_fields, field, Value, absent, null, flag, number, string, other, child,
  children, Nodes, empty, item, gap, find_field, set_field, is_type, as_node, as_nodes, child_of,
  children_of, with_value,
}
use testcafe_hammerhead.Script.Patterns.{is_destructuring}

pub find_field-set_field :
    (key sought : String) (value : Value) (fs : Fields)
    → find_field sought (set_field key value fs)
      ≡ (if str_eq key sought then value else find_field sought fs)
find_field-set_field key sought value end_of_fields = refl
find_field-set_field key sought value (field k v fs) =
    let ih = find_field-set_field key sought value fs in
    ground (arith, ih, eq_iff k key, eq_iff k sought, eq_iff key sought)

abbrev pub rest_is_name : Node → Bool
rest_is_name prop = not (is_type "RestElement" prop && is_destructuring (child_of "argument" prop))

abbrev pub rests_are_names : Nodes → Bool
rests_are_names empty = true
rests_are_names (item n ns) = rest_is_name n && rests_are_names ns
rests_are_names (gap ns) = rests_are_names ns

unfoldable mutual
  pub well_formed : Node → Bool
  well_formed (tree t s fs) =
      rests_are_names (as_nodes (find_field "properties" fs)) && well_formed_fields fs

  pub well_formed_fields : Fields → Bool
  well_formed_fields end_of_fields = true
  well_formed_fields (field k v fs) = well_formed_value v && well_formed_fields fs

  pub well_formed_value : Value → Bool
  well_formed_value (child n) = well_formed n
  well_formed_value (children ns) = well_formed_nodes ns
  well_formed_value _ = true

  pub well_formed_nodes : Nodes → Bool
  well_formed_nodes empty = true
  well_formed_nodes (item n ns) = well_formed n && well_formed_nodes ns
  well_formed_nodes (gap ns) = well_formed_nodes ns

pub and_left : (a b : Bool) → (a && b) ≡ true → a ≡ true
and_left a b h = ground arith

pub and_right : (a b : Bool) → (a && b) ≡ true → b ≡ true
and_right a b h = ground arith

find_field-well_formed :
    (key : String) (fs : Fields)
    → well_formed_fields fs ≡ true
    → well_formed_value (find_field key fs) ≡ true
unfolding well_formed
find_field-well_formed key end_of_fields h = refl
find_field-well_formed key (field k v fs) h =
    if-elim (λ (x : Value). well_formed_value x ≡ true) (str_eq k key) v (find_field key fs)
      (λ e. and_left (well_formed_value v) (well_formed_fields fs) h)
      (λ e.
        find_field-well_formed key fs (and_right (well_formed_value v) (well_formed_fields fs) h))

as_node-well_formed : (v : Value) → well_formed_value v ≡ true → well_formed (as_node v) ≡ true
unfolding well_formed
as_node-well_formed (child n) h = h
as_node-well_formed absent h = refl
as_node-well_formed null h = refl
as_node-well_formed (flag b) h = refl
as_node-well_formed (number n) h = refl
as_node-well_formed (string s) h = refl
as_node-well_formed (other s) h = refl
as_node-well_formed (children ns) h = refl

as_nodes-well_formed :
    (v : Value) → well_formed_value v ≡ true → well_formed_nodes (as_nodes v) ≡ true
unfolding well_formed
as_nodes-well_formed (children ns) h = h
as_nodes-well_formed (child n) h = refl
as_nodes-well_formed absent h = refl
as_nodes-well_formed null h = refl
as_nodes-well_formed (flag b) h = refl
as_nodes-well_formed (number n) h = refl
as_nodes-well_formed (string s) h = refl
as_nodes-well_formed (other s) h = refl

pub child_of-well_formed :
    (key : String) (n : Node) → well_formed n ≡ true → well_formed (child_of key n) ≡ true
unfolding well_formed
child_of-well_formed key (tree t s fs) h = as_node-well_formed (find_field key fs) (
    find_field-well_formed key fs (
      and_right (rests_are_names (as_nodes (find_field "properties" fs))) (well_formed_fields fs)
        h))

pub children_of-well_formed :
    (key : String) (n : Node) → well_formed n ≡ true → well_formed_nodes (children_of key n) ≡ true
unfolding well_formed
children_of-well_formed key (tree t s fs) h = as_nodes-well_formed (find_field key fs) (
    find_field-well_formed key fs (
      and_right (rests_are_names (as_nodes (find_field "properties" fs))) (well_formed_fields fs)
        h))

pub properties-rests_are_names :
    (n : Node) → well_formed n ≡ true → rests_are_names (children_of "properties" n) ≡ true
unfolding well_formed
properties-rests_are_names (tree t s fs) h =
    and_left (rests_are_names (as_nodes (find_field "properties" fs))) (well_formed_fields fs) h

-- What the loop over the properties of a pattern needs of them.
abbrev pub FitProperty : Node → Type 0
FitProperty n = (rest_is_name n ≡ true) × (well_formed (child_of "value" n) ≡ true)

abbrev pub EachProperty : (Node → Type 0) → Nodes → Type 0
EachProperty P empty = Unit
EachProperty P (item n ns) = P n × EachProperty P ns
EachProperty P (gap ns) = EachProperty P ns

abbrev pub FitProperties : Nodes → Type 0
FitProperties = EachProperty FitProperty

pub fit_properties :
    (ns : Nodes) → rests_are_names ns ≡ true → well_formed_nodes ns ≡ true → FitProperties ns
unfolding well_formed
fit_properties empty h k = tt
fit_properties (gap ns) h k = fit_properties ns h k
fit_properties (item n ns) h k = (
  (
    and_left (rest_is_name n) (rests_are_names ns) h,
    child_of-well_formed "value" n (and_left (well_formed n) (well_formed_nodes ns) k),
  ),
  fit_properties ns (and_right (rest_is_name n) (rests_are_names ns) h)
      (and_right (well_formed n) (well_formed_nodes ns) k),
)

-- Another key leaves a property as it was.
pub with_key-FitProperty :
    (v : Value) (n : Node) → FitProperty n → FitProperty (with_value "key" v n)
with_key-FitProperty v (tree t s fs) (h, k) = (
  rw (find_field-set_field "key" "argument" v fs) h,
  rw (find_field-set_field "key" "value" v fs) k,
)
