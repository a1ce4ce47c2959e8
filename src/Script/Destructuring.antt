-- ===== src/Script/Destructuring.antt =====
-- processing/script/destructuring.ts: a destructuring pattern and its value, taken apart into
-- assignments of one name each.
--
-- The callback `build` is the list of the calls that are made of it. A base name is empty where the
-- source passes none. Patterns are nested, so `process` takes the depth of the pattern as fuel.
use Prim.Native.Nat.{max}
use Prim.Native.String.{◌++◌ as str_append}
use testcafe_hammerhead.Common.{
  ℕ, zero, suc, String, Bool, true, false, ◌&&◌, ◌||◌, Option, none, some, List, [], ◌∷◌, ◌++◌,
  str_eq, any_of, truthy, if◌then◌else◌,
}
use testcafe_hammerhead.Script.Instruction
use testcafe_hammerhead.Script.Syntax.{
  Node, tree, Fields, end_of_fields, field, Value, child, children, number, Nodes, empty, item, gap,
  is_type, child_of, children_of, flag_of, value_of, text_of, with_value,
}
use testcafe_hammerhead.Script.Builder.{
  create_identifier, create_member_expression, create_simple_call_expression,
  create_array_expression, create_simple_literal, create_array_wrapper, create_binary_expression,
  create_undefined, create_conditional_expression, two,
}
use testcafe_hammerhead.Script.TempVariables.{
  generate_name, generate_index_name, generate_key_name, is_hh_temp_variable,
}

-- A call of `build`.
pub record Built : Type 0 where
  pub pattern : Node
  pub value : Option Node
  pub is_temp : Bool

pub record BuildState : Type 0 where
  pub counter : ℕ
  pub built : List Built

abbrev pub build : Node → Option Node → Bool → BuildState → BuildState
build pattern value is_temp st = record st {
  built = st.built ++ record { pattern = pattern; value = value; is_temp = is_temp } ∷ [];
}

abbrev pub Process : Type 0
Process = Node → Option Node → String → BuildState → BuildState

-- `process(prop.value, …)`
unfoldable pub process_object_property : Process → Node → Node → String → BuildState → BuildState
process_object_property process prop temp base_temp_name st =
    process (child_of "value" prop)
      (some (
        create_member_expression temp (child_of "key" prop)
          (flag_of "computed" prop || is_type "Literal" (child_of "key" prop))))
      base_temp_name st

abbrev pub create_object_rest : Node → Nodes → Node
create_object_rest temp keys =
    create_simple_call_expression (create_identifier Instruction.rest_object)
      (two temp (create_array_expression keys))

abbrev pub create_rest_array : Node → ℕ → Node
create_rest_array array start_index =
    create_simple_call_expression (create_identifier Instruction.rest_array)
      (two array (create_simple_literal (number start_index)))

unfoldable pub create_temp_identifier_or_use_existing :
    Node → String → BuildState → Node × BuildState
unfolding generate_name
create_temp_identifier_or_use_existing value base_temp_name st =
    if is_type "Identifier" value && is_hh_temp_variable (text_of "name" value)
    then (value, st)
    else if truthy base_temp_name
    then (
      create_identifier base_temp_name,
      build (create_identifier base_temp_name) (some value) true st,
    )
    else (
      create_identifier (generate_name st.counter),
      build (create_identifier (generate_name st.counter)) (some value) true
          (record st { counter = suc st.counter }),
    )

abbrev pub base_or_name : String → Node → String
base_or_name base_temp_name temp =
    if truthy base_temp_name then base_temp_name else text_of "name" temp

-- The last property is a rest element.
abbrev pub has_rest : Nodes → Bool
has_rest empty = false
has_rest (item n empty) = is_type "RestElement" n
has_rest (item n (item m ns)) = has_rest (item m ns)
has_rest (item n (gap ns)) = has_rest ns
has_rest (gap ns) = has_rest ns

pub record Keys : Type 0 where
  pub prop_names : Nodes
  pub properties : Nodes
  pub state : BuildState

-- The name of a property that the rest leaves out. A computed key is put into a variable first,
-- and the property then uses the variable.
unfoldable pub key_of_property : Node → BuildState → Node × Node × BuildState
unfolding generate_name
key_of_property prop st =
    let key = child_of "key" prop in
    if is_type "Identifier" key
    then (
      if flag_of "computed" prop then key else create_simple_literal (value_of "name" key),
      prop,
      st,
    )
    else if is_type "Literal" key
    then (key, prop, st)
    else (
      create_identifier (generate_name st.counter),
      with_value "key" (child (create_identifier (generate_name st.counter))) prop,
      build (create_identifier (generate_name st.counter)) (some key) true
          (record st { counter = suc st.counter }),
    )

-- The loop over the properties before the rest element.
unfoldable pub collect_keys : Nodes → BuildState → Keys
unfolding key_of_property
collect_keys empty st = record { prop_names = empty; properties = empty; state = st }
collect_keys (gap ns) st = collect_keys ns st
collect_keys (item n ns) st =
    let named = key_of_property n st in
    let rest = collect_keys ns named.2 in
    elim ns [
      | empty ↦ record { prop_names = empty; properties = item n empty; state = st }
      | _ ↦ record {
        prop_names = item named.0 rest.prop_names;
        properties = item named.1 rest.properties;
        state = rest.state;
      }
    ]

unfoldable pub next_base_name : String → Node → ℕ → List String → String
unfolding generate_key_name generate_index_name
next_base_name base prop i names =
    let name = generate_key_name base (child_of "key" prop) i in
    if any_of (str_eq name) names then generate_index_name name i else name

-- The loop over the properties.
unfoldable pub process_properties :
    Process → Node → Nodes → String → Nodes → ℕ → List String → BuildState → BuildState
unfolding process_object_property next_base_name
process_properties process temp prop_names base empty i names st = st
process_properties process temp prop_names base (gap ns) i names st =
    process_properties process temp prop_names base ns (suc i) names st
process_properties process temp prop_names base (item prop ns) i names st =
    elim (is_type "RestElement" prop) [
      | true ↦
          process_properties process temp prop_names base ns (suc i) names
            (build (child_of "argument" prop) (some (create_object_rest temp prop_names)) false st)
      | false ↦
          process_properties process temp prop_names base ns (suc i)
            (next_base_name base prop i names ∷ names)
            (process_object_property process prop temp (next_base_name base prop i names) st)
    ]

unfoldable pub keys_before_rest : Nodes → BuildState → Keys
unfolding collect_keys
keys_before_rest properties st =
    if has_rest properties
    then collect_keys properties st
    else record { prop_names = empty; properties = properties; state = st }

unfoldable pub process_object_pattern : Process → Node → Node → String → BuildState → BuildState
unfolding process_properties create_temp_identifier_or_use_existing keys_before_rest
process_object_pattern process pattern value base_temp_name st =
    let temp = create_temp_identifier_or_use_existing value base_temp_name st in
    let keys = keys_before_rest (children_of "properties" pattern) temp.1 in
    process_properties process temp.0 keys.prop_names (base_or_name base_temp_name temp.0)
      keys.properties 0 [] keys.state

-- The loop over the elements.
unfoldable pub process_elements : Process → Node → String → Nodes → ℕ → BuildState → BuildState
unfolding generate_index_name
process_elements process temp base empty i st = st
process_elements process temp base (gap ns) i st = process_elements process temp base ns (suc i) st
process_elements process temp base (item elem ns) i st =
    process_elements process temp base ns (suc i) (
      if is_type "RestElement" elem
      then process (child_of "argument" elem) (some (create_rest_array temp i))
          (generate_index_name base i) st
      else process elem
          (some (create_member_expression temp (create_simple_literal (number i)) true))
          (generate_index_name base i) st)

unfoldable pub process_array_pattern : Process → Node → Node → String → BuildState → BuildState
unfolding process_elements create_temp_identifier_or_use_existing
process_array_pattern process pattern value base_temp_name st =
    let temp =
      create_temp_identifier_or_use_existing
        (if is_type "ArrayExpression" value then value else create_array_wrapper value)
        base_temp_name st in
    process_elements process temp.0 (base_or_name base_temp_name temp.0)
      (children_of "elements" pattern) 0 temp.1

unfoldable pub process_assignment_pattern : Process → Node → Node → String → BuildState → BuildState
unfolding create_temp_identifier_or_use_existing
process_assignment_pattern process pattern value base_temp_name st =
    let temp = create_temp_identifier_or_use_existing value base_temp_name st in
    process (child_of "left" pattern)
      (some (
        create_conditional_expression (create_binary_expression temp.0 "===" create_undefined)
          (child_of "right" pattern) temp.0))
      (str_append (base_or_name base_temp_name temp.0) "$assign") temp.1

-- A pattern without a value, as in `var { a };`, builds nothing, and a name by itself is built.
unfoldable pub process_step : Process → Process
unfolding process_object_pattern process_array_pattern process_assignment_pattern
process_step process pattern none base_temp_name st =
    if is_type "ObjectPattern" pattern
      || is_type "ArrayPattern" pattern
      || is_type "AssignmentPattern" pattern
    then st
    else build pattern none false st
process_step process pattern (some value) base_temp_name st =
    if is_type "ObjectPattern" pattern
    then process_object_pattern process pattern value base_temp_name st
    else if is_type "ArrayPattern" pattern
    then process_array_pattern process pattern value base_temp_name st
    else if is_type "AssignmentPattern" pattern
    then process_assignment_pattern process pattern value base_temp_name st
    else build pattern (some value) false st

unfoldable pub process : ℕ → Process
unfolding process_step
process zero = λ pattern value base_temp_name st. st
process (suc fuel) = process_step (process fuel)

-- How deep a node is.
unfoldable mutual
  pub depth : Node → ℕ
  depth (tree t s fs) = suc (depth_of_fields fs)

  pub depth_of_fields : Fields → ℕ
  depth_of_fields end_of_fields = 0
  depth_of_fields (field k v fs) = max (depth_of_value v) (depth_of_fields fs)

  pub depth_of_value : Value → ℕ
  depth_of_value (child n) = depth n
  depth_of_value (children ns) = depth_of_nodes ns
  depth_of_value _ = 0

  pub depth_of_nodes : Nodes → ℕ
  depth_of_nodes empty = 0
  depth_of_nodes (item n ns) = max (depth n) (depth_of_nodes ns)
  depth_of_nodes (gap ns) = depth_of_nodes ns

unfoldable pub destructure : Node → Option Node → BuildState → BuildState
unfolding process depth
destructure pattern value st = process (suc (depth pattern)) pattern value "" st
