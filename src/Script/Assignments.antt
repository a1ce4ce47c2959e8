-- ===== src/Script/Assignments.antt =====
-- processing/script/transformers: computed-property-set.ts, concat-operator.ts, location-set.ts,
-- property-set.ts, for-in.ts and js-protocol-last-expression.ts.
use testcafe_hammerhead.Common.{
  suc, ◌+◌, String, Bool, true, false, ◌&&◌, ◌||◌, not, none, str_eq, ◌==◌, if◌then◌else◌,
}
use testcafe_hammerhead.Script.Instrumented.{should_instrument_property}
use testcafe_hammerhead.Script.Syntax.{
  Node, Place, is_type, is_at, is_parent, is_identifier, child_of, children_of, flag_of, value_of,
  equals_text, count_nodes, with_value, string, child,
}
use testcafe_hammerhead.Script.Builder.{
  one, two, create_identifier, create_property_set_wrapper, create_computed_property_set_wrapper,
  create_location_set_wrapper, create_expanded_concat_operation, create_html_processor_wrapper,
  create_variable_declaration, create_variable_declarator, create_assignment_expr_stmt,
  create_block_statement,
}
use testcafe_hammerhead.Script.Replace.{Run, RunState, replaced, kept, replace_child, unshift_node}
use testcafe_hammerhead.Script.TempVariables.{generate_name}

abbrev pub assigns_by : String → Node → Bool
assigns_by operator node = equals_text operator (value_of "operator" node)

unfoldable pub computed_property_set_condition : Node → Place → Bool
unfolding should_instrument_property
computed_property_set_condition node place =
    let left = child_of "left" node in
    if is_type "MemberExpression" left && is_type "Super" (child_of "object" left)
    then false
    else if assigns_by "=" node && is_type "MemberExpression" left && flag_of "computed" left
    then (if is_type "Literal" (child_of "property" left)
        then should_instrument_property (value_of "value" (child_of "property" left))
        else true)
    else false

unfoldable pub computed_property_set_run : Run
computed_property_set_run node place state = (
  replaced (
      create_computed_property_set_wrapper (child_of "property" (child_of "left" node))
        (child_of "object" (child_of "left" node)) (child_of "right" node)),
  state,
)

unfoldable pub concat_operator_condition : Node → Place → Bool
unfolding should_instrument_property
concat_operator_condition node place =
    let left = child_of "left" node in
    let property = child_of "property" left in
    if not (assigns_by "+=" node)
    then false
    else if is_type "Identifier" left
    then should_instrument_property (value_of "name" left)
    else if is_type "MemberExpression" left
    then (if flag_of "computed" left
        then (if is_type "Literal" property
            then should_instrument_property (value_of "value" property)
            else not (is_type "UpdateExpression" property))
        else if is_type "Identifier" property
        then should_instrument_property (value_of "name" property)
        else false)
    else false

unfoldable pub concat_operator_run : Run
concat_operator_run node place state = (
  replaced (create_expanded_concat_operation (child_of "left" node) (child_of "right" node)),
  state,
)

unfoldable pub location_set_condition : Node → Place → Bool
location_set_condition node place =
    assigns_by "=" node && is_identifier "location" (child_of "left" node)

-- Whether the call is put behind `0,`. `parent.expressions[0]` is the node itself only where the
-- node is placed.
unfoldable pub wraps_with_sequence : Place → Bool
wraps_with_sequence place =
    not (str_eq place.key "arguments")
    && not (str_eq place.key "consequent")
    && not (str_eq place.key "alternate")
    && (not (is_parent "SequenceExpression" place) || is_at "expressions" place && place.index == 0)

abbrev pub count_temp : RunState → RunState
count_temp state = record state { counter = suc state.counter }

unfoldable pub location_set_run : Run
unfolding wraps_with_sequence generate_name
location_set_run node place state = (
  replaced (
      create_location_set_wrapper (create_identifier (generate_name state.counter))
        (child_of "left" node) (child_of "right" node) (wraps_with_sequence place)),
  count_temp state,
)

unfoldable pub property_set_condition : Node → Place → Bool
unfolding should_instrument_property
property_set_condition node place =
    let left = child_of "left" node in
    if is_type "MemberExpression" left && is_type "Super" (child_of "object" left)
    then false
    else assigns_by "=" node
      && is_type "MemberExpression" left
      && not (flag_of "computed" left)
      && is_type "Identifier" (child_of "property" left)
      && should_instrument_property (value_of "name" (child_of "property" left))

unfoldable pub property_set_run : Run
property_set_run node place state = (
  replaced (
      create_property_set_wrapper (value_of "name" (child_of "property" (child_of "left" node)))
        (child_of "object" (child_of "left" node)) (child_of "right" node)),
  state,
)

unfoldable pub for_in_condition : Node → Place → Bool
for_in_condition node place = is_type "MemberExpression" (child_of "left" node)

-- A statement becomes the first of the body, which is made a block if it is none.
abbrev pub put_first_in_body : Node → Node → Node
put_first_in_body statement node =
    let body = child_of "body" node in
    if is_type "BlockStatement" body
    then with_value "body" (child (unshift_node statement body "body")) node
    else replace_child body (create_block_statement (two statement body)) node "body"

unfoldable pub for_in_run : Run
unfolding generate_name
for_in_run node place state =
    let temp = create_identifier (generate_name state.counter) in
    let left = child_of "left" node in
    let with_body = put_first_in_body (create_assignment_expr_stmt left temp) node in
    (
      kept (
          replace_child left
            (create_variable_declaration (string "var")
              (one (create_variable_declarator temp none)))
            with_body "left"),
      count_temp state,
    )

-- The parent is the program: its last statement is the node.
unfoldable pub last_expression_condition : RunState → Node → Place → Bool
last_expression_condition state node place =
    state.wrap_last_expr
    && is_parent "Program" place
    && is_at "body" place
    && place.index + 1 == count_nodes (children_of "body" place.parent)

unfoldable pub last_expression_run : Run
last_expression_run node place state =
    (replaced (create_html_processor_wrapper node), record state { wrap_last_expr = false })
