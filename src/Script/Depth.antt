-- ===== src/Script/Depth.antt =====
-- How deep the parts of a node are.
use testcafe_hammerhead.Common.{
  ℕ, ◌≤◌, ◌<◌, ◌≡◌, refl, sym, String, str_eq, arith, if-elim, ◌⊎◌, inl, inr,
}
use Prim.Native.Nat.{max}
use mathlib.Core.Path.{subst}
use testcafe_hammerhead.Script.Syntax.{
  Node, tree, Fields, end_of_fields, field, Value, absent, null, flag, number, string, other, child,
  children, Nodes, empty, item, gap, no_node, as_node, as_nodes, find_field, child_of, children_of,
  with_value,
}
use testcafe_hammerhead.Script.Destructuring.{
  depth, depth_of_fields, depth_of_value, depth_of_nodes,
}
use testcafe_hammerhead.Script.WellFormed.{EachProperty, find_field-set_field}

-- Fuel that is enough for a pattern, or for one that is missing.
abbrev pub IsEnough : ℕ → Node → Type 0
IsEnough n pattern = (depth pattern < n) ⊎ ((pattern ≡ no_node) × (1 ≤ n))

depth-find_field :
    (key : String) (fs : Fields) → depth_of_value (find_field key fs) ≤ depth_of_fields fs
unfolding depth
depth-find_field key end_of_fields = omega arith
depth-find_field key (field k v fs) =
    let ih = depth-find_field key fs in
    if-elim (λ (x : Value). depth_of_value x ≤ max (depth_of_value v) (depth_of_fields fs))
      (str_eq k key) v (find_field key fs) (λ e. omega arith) (λ e. omega (arith, ih))

as_node-IsEnough : (v : Value) (k : ℕ) → depth_of_value v < k → IsEnough k (as_node v)
unfolding depth
as_node-IsEnough (child n) k h = inl h
as_node-IsEnough absent k h = inr (refl, omega arith)
as_node-IsEnough null k h = inr (refl, omega arith)
as_node-IsEnough (flag b) k h = inr (refl, omega arith)
as_node-IsEnough (number n) k h = inr (refl, omega arith)
as_node-IsEnough (string s) k h = inr (refl, omega arith)
as_node-IsEnough (other s) k h = inr (refl, omega arith)
as_node-IsEnough (children ns) k h = inr (refl, omega arith)

pub child_of-IsEnough :
    (key : String) (n : Node) (k : ℕ) → depth n ≤ k → IsEnough k (child_of key n)
unfolding depth
child_of-IsEnough key (tree t s fs) k h =
    as_node-IsEnough (find_field key fs) k (omega (arith, depth-find_field key fs))

depth-as_nodes : (v : Value) → depth_of_nodes (as_nodes v) ≤ depth_of_value v
unfolding depth
depth-as_nodes (children ns) = omega arith
depth-as_nodes (child n) = omega arith
depth-as_nodes absent = omega arith
depth-as_nodes null = omega arith
depth-as_nodes (flag b) = omega arith
depth-as_nodes (number n) = omega arith
depth-as_nodes (string s) = omega arith
depth-as_nodes (other s) = omega arith

pub depth-children_of :
    (key : String) (n : Node) (k : ℕ) → depth n ≤ k → depth_of_nodes (children_of key n) < k
unfolding depth
depth-children_of key (tree t s fs) k h =
    omega (arith, depth-find_field key fs, depth-as_nodes (find_field key fs))

abbrev pub EnoughForValue : ℕ → Node → Type 0
EnoughForValue k n = IsEnough k (child_of "value" n)

pub enough_for_values :
    (ns : Nodes) (k : ℕ) → depth_of_nodes ns < k → EachProperty (EnoughForValue k) ns
unfolding depth
enough_for_values empty k h = tt
enough_for_values (gap ns) k h = enough_for_values ns k h
enough_for_values (item n ns) k h =
    (child_of-IsEnough "value" n k (omega arith), enough_for_values ns k (omega arith))

pub with_key-EnoughForValue :
    (k : ℕ) (v : Value) (n : Node) → EnoughForValue k n → EnoughForValue k (with_value "key" v n)
with_key-EnoughForValue k v (tree t s fs) h =
    subst (λ x. IsEnough k (as_node x)) (sym (find_field-set_field "key" "value" v fs)) h
