-- ===== src/Script/Tests.antt =====
-- The theorems on scripts at concrete nodes, and runs that the repository's own tests make too.
use testcafe_hammerhead.Common.{◌≡◌, refl, true, false, none, some, [], ◌∷◌, inl, inr, arith}
use testcafe_hammerhead.Common.Chars.{codes}
use testcafe_hammerhead.ProxyUrl.{get_resource_type_string, parse_resource_type}
use testcafe_hammerhead.Script.Identifiers.{script_type}
use testcafe_hammerhead.Script.Syntax.{
  Node, tree, end_of_fields, field, string, flag, child, children, Place, no_span, decimal,
}
use testcafe_hammerhead.Script.Builder.{
  one, create_identifier, create_member_expression, create_simple_literal,
  create_location_get_wrapper,
}
use testcafe_hammerhead.Script.Replace.{RunState, Settings, start_state}
use testcafe_hammerhead.Script.TempVariables.{generate_key_name}
use testcafe_hammerhead.Script.Destructuring.{BuildState, destructure, process, depth}
use testcafe_hammerhead.Script.Transform.{rewrite_node, rewritten, find_transformer}
use testcafe_hammerhead.Script.WellFormed.{well_formed}
use testcafe_hammerhead.Script.Fuel.{process-destructure}
use testcafe_hammerhead.Script.Loop.{Ended}
use testcafe_hammerhead.Script.Termination.{rewrite_node-Ended}
use testcafe_hammerhead.Script.Positions.{
  placed_in, LeftAlone, location_at, find_transformer-binding, rewrite_node-LeftAlone,
  rewrite_node-unguarded,
}
use testcafe_hammerhead.Script.Sets.{
  SetsTo, AddsTo, location_call, location_sum, behind_zero, rewrite_node-location,
}

abbrev settings : Settings
settings = record { resolver = none; base_url = "" }

abbrev start : RunState
start = start_state false

abbrev no_builds_yet : BuildState
no_builds_yet = record { counter = 0; built = [] }

-- `{ location: loc }`
abbrev property : Node
property = tree "Property" no_span (
    field "key" (child (create_identifier "location")) (
      field "computed" (flag false)
        (field "value" (child (create_identifier "loc")) end_of_fields)))

abbrev pattern : Node
pattern = tree "ObjectPattern" no_span (field "properties" (children (one property)) end_of_fields)

-- `var { location: loc } = window`
abbrev declaration : Node
declaration = tree "VariableDeclaration" no_span (
    field "declarations"
      (children (
        one (
          tree "VariableDeclarator" no_span (
            field "id" (child pattern)
              (field "init" (child (create_identifier "window")) end_of_fields)))))
      (field "kind" (string "var") end_of_fields))

abbrev in_program : Place
in_program = placed_in (tree "Program" no_span end_of_fields) "body" 0

abbrev first_of_sequence : Place
first_of_sequence = placed_in (tree "SequenceExpression" no_span end_of_fields) "expressions" 0

-- The text that a static import gives to the resolver is that of the type of scripts.
script_types : codes script_type ≡ get_resource_type_string (parse_resource_type (codes "s"))
unfolding get_resource_type_string parse_resource_type
script_types = refl

only_script : (parse_resource_type (codes script_type)).is_script ≡ true
unfolding parse_resource_type
only_script = refl

names : decimal 120 ≡ "120"
unfolding decimal
names = refl

key_names :
    generate_key_name "_hh$temp0" (create_simple_literal (string "a-b c1")) 3 ≡ "_hh$temp0$abc1"
unfolding generate_key_name
key_names = refl

-- `_hh$temp0 = window`, and `loc = _hh$temp0.location`.
destructured :
    (destructure pattern (some (create_identifier "window")) no_builds_yet).built
    ≡ record {
      pattern = create_identifier "_hh$temp0";
      value = some (create_identifier "window");
      is_temp = true;
    }
      ∷ record {
        pattern = create_identifier "loc";
        value = some (
            create_member_expression
              (create_identifier "_hh$temp0")
              (create_identifier "location")
              false);
        is_temp = false;
      }
      ∷ []
unfolding destructure
destructured = refl

rewrite_node-Ended_example : Ended (rewrite_node settings declaration in_program start)
unfolding well_formed
rewrite_node-Ended_example = rewrite_node-Ended settings declaration in_program start refl

process-destructure_example :
    process 9 pattern (some (create_identifier "window")) "" no_builds_yet
    ≡ destructure pattern (some (create_identifier "window")) no_builds_yet
unfolding depth
process-destructure_example =
    process-destructure 9 pattern (some (create_identifier "window")) no_builds_yet (omega arith)

-- `location = 1` does not wrap the `location` that it assigns.
find_transformer-binding_example :
    find_transformer settings start
      (location_at no_span)
      (placed_in (tree "AssignmentExpression" no_span end_of_fields) "left" 0)
    ≡ none
find_transformer-binding_example =
    find_transformer-binding settings start no_span (field "name" (string "location") end_of_fields)
      no_span end_of_fields 0 "AssignmentExpression" "left" (inr (inl refl))

rewrite_node-LeftAlone_example :
    LeftAlone (location_at no_span) (rewrite_node settings (location_at no_span) in_program start)
rewrite_node-LeftAlone_example =
    rewrite_node-LeftAlone settings in_program start no_span
      (field "name" (string "location") end_of_fields)

-- `catch (location)`
rewrite_node-unguarded_example :
    rewrite_node settings
      (location_at no_span)
      (placed_in (tree "CatchClause" no_span end_of_fields) "param" 0)
      start
    ≡ rewritten
        (location_at no_span)
        (some (create_location_get_wrapper (location_at no_span)))
        true
        start
rewrite_node-unguarded_example =
    rewrite_node-unguarded settings start no_span no_span end_of_fields 0 "CatchClause" "param"
      (inl refl)

-- `location = b` and `location += b`, as a statement, as the first part of a choice, and as the first
-- expression of a sequence.
rewrite_node-location_example :
    SetsTo settings start no_span no_span
      (create_identifier "b")
      (placed_in (tree "ExpressionStatement" no_span end_of_fields) "expression" 0)
      (behind_zero (location_call no_span (create_identifier "b") start))
    × AddsTo settings start no_span no_span
        (create_identifier "b")
        (placed_in (tree "ExpressionStatement" no_span end_of_fields) "expression" 0)
        (behind_zero (location_call no_span (location_sum no_span (create_identifier "b")) start))
    × SetsTo settings start no_span no_span
        (create_identifier "b")
        (placed_in (tree "ConditionalExpression" no_span end_of_fields) "consequent" 0)
        (location_call no_span (create_identifier "b") start)
    × AddsTo settings start no_span no_span
        (create_identifier "b")
        (placed_in (tree "ConditionalExpression" no_span end_of_fields) "consequent" 0)
        (location_call no_span (location_sum no_span (create_identifier "b")) start)
    × SetsTo settings start no_span no_span
        (create_identifier "b")
        (placed_in (tree "SequenceExpression" no_span end_of_fields) "expressions" 0)
        (behind_zero (location_call no_span (create_identifier "b") start))
    × AddsTo settings start no_span no_span
        (create_identifier "b")
        (placed_in (tree "SequenceExpression" no_span end_of_fields) "expressions" 0)
        (location_call no_span (location_sum no_span (create_identifier "b")) start)
rewrite_node-location_example =
    rewrite_node-location settings start no_span no_span (create_identifier "b")
      "ConditionalExpression" no_span end_of_fields 0 "consequent" (inr (inl refl))
