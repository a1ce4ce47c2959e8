-- ===== src/Script/Builder.antt =====
-- processing/script/node-builder.ts: the nodes that the transformers build.
use testcafe_hammerhead.Common.{
  String, Bool, true, false, ◌||◌, Option, none, some, List, [], ◌∷◌, truthy, if◌then◌else◌,
}
use testcafe_hammerhead.Script.Syntax.{
  Node, tree, Fields, end_of_fields, field, Value, null, flag, number, string, child, children,
  Nodes, empty, item, no_span, is_type, child_of, value_of, string_of,
}
use testcafe_hammerhead.Script.Instruction

abbrev pub built : String → Fields → Node
built t fs = tree t no_span fs

abbrev pub one : Node → Nodes
one n = item n empty

abbrev pub two : Node → Node → Nodes
two n m = item n (item m empty)

abbrev pub optional_child : Option Node → Value
optional_child none = null
optional_child (some n) = child n

abbrev pub create_identifier_of : Value → Node
create_identifier_of name = built "Identifier" (field "name" name end_of_fields)

abbrev pub create_identifier : String → Node
create_identifier name = create_identifier_of (string name)

abbrev pub create_expression_statement : Node → Node
create_expression_statement expression =
    built "ExpressionStatement" (field "expression" (child expression) end_of_fields)

abbrev pub create_assignment_expression : Node → String → Option Node → Node
create_assignment_expression left operator right = built "AssignmentExpression" (
    field "operator" (string operator)
      (field "left" (child left) (field "right" (optional_child right) end_of_fields)))

abbrev pub create_simple_call_expression : Node → Nodes → Node
create_simple_call_expression callee args = built "CallExpression" (
    field "callee" (child callee)
      (field "arguments" (children args) (field "optional" (flag false) end_of_fields)))

abbrev pub create_array_expression : Nodes → Node
create_array_expression elements =
    built "ArrayExpression" (field "elements" (children elements) end_of_fields)

abbrev pub create_member_expression : Node → Node → Bool → Node
create_member_expression object property computed = built "MemberExpression" (
    field "object" (child object) (
      field "property" (child property)
        (field "computed" (flag computed) (field "optional" (flag false) end_of_fields))))

abbrev pub create_binary_expression : Node → String → Node → Node
create_binary_expression left operator right = built "BinaryExpression" (
    field "left" (child left)
      (field "right" (child right) (field "operator" (string operator) end_of_fields)))

abbrev pub create_sequence_expression : Nodes → Node
create_sequence_expression expressions =
    built "SequenceExpression" (field "expressions" (children expressions) end_of_fields)

abbrev pub create_this_expression : Node
create_this_expression = built "ThisExpression" end_of_fields

abbrev pub create_logical_expression : Node → String → Node → Node
create_logical_expression left operator right = built "LogicalExpression" (
    field "left" (child left)
      (field "right" (child right) (field "operator" (string operator) end_of_fields)))

abbrev pub create_return_statement : Node → Node
create_return_statement argument =
    built "ReturnStatement" (field "argument" (child argument) end_of_fields)

-- Called with no name, no parameters, and neither `async` nor a generator.
abbrev pub create_function_expression : Node → Node
create_function_expression body = built "FunctionExpression" (
    field "id" null (
      field "params" (children empty) (
        field "body" (child body)
          (field "async" (flag false) (field "generator" (flag false) end_of_fields)))))

abbrev pub create_unary_expression : String → Node → Node
create_unary_expression operator argument = built "UnaryExpression" (
    field "operator" (string operator)
      (field "prefix" (flag true) (field "argument" (child argument) end_of_fields)))

abbrev pub create_simple_literal : Value → Node
create_simple_literal value = built "Literal" (field "value" value end_of_fields)

abbrev pub create_undefined : Node
create_undefined = create_unary_expression "void" (create_simple_literal (number 0))

abbrev pub create_conditional_expression : Node → Node → Node → Node
create_conditional_expression test consequent alternate = built "ConditionalExpression" (
    field "test" (child test)
      (field "consequent" (child consequent) (field "alternate" (child alternate) end_of_fields)))

abbrev pub create_assignment_expr_stmt : Node → Node → Node
create_assignment_expr_stmt left right =
    create_expression_statement (create_assignment_expression left "=" (some right))

abbrev pub create_block_statement : Nodes → Node
create_block_statement body = built "BlockStatement" (field "body" (children body) end_of_fields)

abbrev pub create_variable_declarator : Node → Option Node → Node
create_variable_declarator id init =
    built "VariableDeclarator"
      (field "id" (child id) (field "init" (optional_child init) end_of_fields))

abbrev pub create_variable_declaration : Value → Nodes → Node
create_variable_declaration kind declarations =
    built "VariableDeclaration"
      (field "declarations" (children declarations) (field "kind" kind end_of_fields))

abbrev pub create_process_script_method_call : Node → Bool → Node
create_process_script_method_call arg is_apply =
    create_simple_call_expression (create_identifier Instruction.process_script)
      (item arg (if is_apply then one (create_simple_literal (flag true)) else empty))

abbrev pub create_location_get_wrapper : Node → Node
create_location_get_wrapper location =
    create_simple_call_expression (create_identifier Instruction.get_location) (one location)

-- `temp` is the identifier that `generateName` has named.
abbrev pub create_location_set_function : Node → Node → Node → Node
create_location_set_function temp location value = create_function_expression (
    create_block_statement (
      two
        (create_variable_declaration (string "var")
          (one (create_variable_declarator temp (some value))))
        (create_return_statement (
          create_logical_expression
            (create_simple_call_expression (create_identifier Instruction.set_location)
              (two location temp))
            "||" (create_assignment_expression location "=" (some temp))))))

abbrev pub create_location_set_call : Node → Node → Node → Node
create_location_set_call temp location value =
    create_simple_call_expression
      (create_member_expression (create_location_set_function temp location value)
        (create_identifier "call") false)
      (one create_this_expression)

abbrev pub create_location_set_wrapper : Node → Node → Node → Bool → Node
create_location_set_wrapper temp location value wrap_with_sequence =
    if wrap_with_sequence
    then create_sequence_expression
        (two (create_simple_literal (number 0)) (create_location_set_call temp location value))
    else create_location_set_call temp location value

abbrev pub create_property_set_wrapper : Value → Node → Node → Node
create_property_set_wrapper property_name obj value =
    create_simple_call_expression (create_identifier Instruction.set_property)
      (item obj (two (create_simple_literal property_name) value))

-- The two flags that stand behind the arguments of a call when one of them is set.
abbrev pub optional_flags : Bool → Bool → Nodes
optional_flags optional callee_optional =
    if optional || callee_optional
    then item (create_simple_literal (flag optional))
        (if callee_optional then one (create_simple_literal (flag callee_optional)) else empty)
    else empty

abbrev pub create_method_call_wrapper : Node → Node → Nodes → Bool → Bool → Node
create_method_call_wrapper owner method method_args optional callee_optional =
    create_simple_call_expression (create_identifier Instruction.call_method) (
      item owner (
        item method
          (item (create_array_expression method_args) (optional_flags optional callee_optional))))

abbrev pub create_computed_property_get_wrapper : Node → Node → Bool → Node
create_computed_property_get_wrapper property owner optional =
    create_simple_call_expression (create_identifier Instruction.get_property) (
      item owner
        (item property (if optional then one (create_simple_literal (flag optional)) else empty)))

abbrev pub create_property_get_wrapper : Value → Node → Bool → Node
create_property_get_wrapper property_name owner optional =
    create_simple_call_expression (create_identifier Instruction.get_property) (
      item owner (
        item (create_simple_literal property_name)
          (if optional then one (create_simple_literal (flag optional)) else empty)))

abbrev pub create_computed_property_set_wrapper : Node → Node → Node → Node
create_computed_property_set_wrapper property owner value =
    create_simple_call_expression (create_identifier Instruction.set_property)
      (item owner (two property value))

abbrev pub create_get_eval_method_call : Node → Node
create_get_eval_method_call n =
    create_simple_call_expression (create_identifier Instruction.get_eval) (one n)

-- `resolver` is given the text of the literal and the text of the resource type of a script.
unfoldable pub get_proxy_url_literal : (String → String → String) → String → Node → Node
unfolding string_of
get_proxy_url_literal resolver script_type source =
    create_simple_literal (string (resolver (string_of (value_of "value" source)) script_type))

abbrev pub create_get_proxy_url_method_call : Node → String → Node
create_get_proxy_url_method_call arg base_url =
    create_simple_call_expression (create_identifier Instruction.get_proxy_url)
      (item arg (if truthy base_url then one (create_simple_literal (string base_url)) else empty))

abbrev pub create_get_post_message_method_call : Node → Node
create_get_post_message_method_call n =
    create_simple_call_expression (create_identifier Instruction.get_post_message) (
      if is_type "MemberExpression" n
      then one (child_of "object" n)
      else two (create_simple_literal null) n)

abbrev pub create_array_wrapper : Node → Node
create_array_wrapper array =
    create_simple_call_expression (create_identifier Instruction.array_from) (one array)

abbrev pub create_expanded_concat_operation : Node → Node → Node
create_expanded_concat_operation left right =
    create_assignment_expression left "=" (some (create_binary_expression left "+" right))

abbrev pub create_html_processor_wrapper : Node → Node
create_html_processor_wrapper n = create_expression_statement (
    create_simple_call_expression
      (create_member_expression (create_identifier "parent")
        (create_identifier Instruction.process_html) false)
      (two (create_identifier "window") (child_of "expression" n)))

abbrev pub variable_declarators : List String → Nodes
variable_declarators [] = empty
variable_declarators (name ∷ names) =
    item (create_variable_declarator (create_identifier name) none) (variable_declarators names)

abbrev pub create_temp_vars_declaration : List String → Node
create_temp_vars_declaration temp_vars =
    create_variable_declaration (string "var") (variable_declarators temp_vars)
