-- ===== src/Script/Identifiers.antt =====
-- processing/script/transformers: eval-get.ts, post-message-get.ts and location-get.ts, which wrap
-- identifiers, and static-import.ts.
--
-- `findTransformer` alone asks for a condition, and always with a parent, so the tests for a
-- missing parent do not stand here. A node stands at one place of the tree: the tests
-- `parent.left === node` and `parent.params.indexOf(node) !== -1` compare that place.
use testcafe_hammerhead.Common.{String, Bool, ◌&&◌, ◌||◌, not, none, some, ◌==◌}
use testcafe_hammerhead.Script.Instruction
use testcafe_hammerhead.Script.Syntax.{
  Node, Place, is_type, is_at, is_parent, is_identifier, child_of, flag_of, value_of, equals_text,
}
use testcafe_hammerhead.Script.Builder.{
  create_get_eval_method_call, create_get_post_message_method_call, create_location_get_wrapper,
  get_proxy_url_literal,
}
use testcafe_hammerhead.Script.Replace.{Run, Settings, replaced, kept}

abbrev pub is_function : Node → Bool
is_function n = is_type "FunctionExpression" n || is_type "FunctionDeclaration" n

-- `parent.operator === '++' || parent.operator === '--'` of an update.
abbrev pub is_update : Node → Bool
is_update n =
    is_type "UpdateExpression" n
    && (equals_text "++" (value_of "operator" n) || equals_text "--" (value_of "operator" n))

-- A call of one of the functions that hammerhead adds.
abbrev pub calls_instruction : String → Node → Bool
calls_instruction name n = is_type "CallExpression" n && is_identifier name (child_of "callee" n)

-- The tests that the three conditions share, each of which makes them false.
unfoldable pub is_skipped : Place → Bool
is_skipped place =
    is_parent "MethodDefinition" place
    || is_parent "ClassDeclaration" place
    || is_function place.parent && is_at "id" place
    || (is_function place.parent || is_parent "ArrowFunctionExpression" place)
      && is_at "params" place
    || is_parent "Property" place && is_at "key" place
    || is_parent "Property" place && is_at "value" place && flag_of "shorthand" place.parent
    || (is_parent "AssignmentExpression" place || is_parent "AssignmentPattern" place)
      && is_at "left" place
    || is_parent "VariableDeclarator" place && is_at "id" place
    || is_update place.parent
    || is_parent "RestElement" place
    || is_parent "ExportSpecifier" place
    || is_parent "ImportSpecifier" place

unfoldable pub eval_get_condition : Node → Place → Bool
unfolding is_skipped
eval_get_condition node place =
    equals_text "eval" (value_of "name" node)
    && not (
        is_skipped place
        || is_parent "CallExpression" place && is_at "callee" place
        || is_parent "MemberExpression" place
        || calls_instruction Instruction.get_eval place.parent)

unfoldable pub eval_get_run : Run
eval_get_run node place state = (replaced (create_get_eval_method_call node), state)

unfoldable pub post_message_get_condition : Node → Place → Bool
unfolding is_skipped
post_message_get_condition node place =
    equals_text "postMessage" (value_of "name" node)
    && not (
        is_skipped place
        || is_parent "MemberExpression" place
        || calls_instruction Instruction.get_post_message place.parent
        || calls_instruction Instruction.call_method place.parent
          && is_at "arguments" place
          && place.index == 1)

unfoldable pub post_message_get_run : Run
post_message_get_run node place state = (replaced (create_get_post_message_method_call node), state)

unfoldable pub location_get_condition : Node → Place → Bool
unfolding is_skipped
location_get_condition node place =
    equals_text "location" (value_of "name" node)
    && not (
        is_skipped place
        || is_parent "MemberExpression" place && is_at "property" place
        || calls_instruction Instruction.get_location place.parent
        || is_parent "PropertyDefinition" place)

unfoldable pub location_get_run : Run
location_get_run node place state = (replaced (create_location_get_wrapper node), state)

unfoldable pub static_import_condition : Node → Place → Bool
static_import_condition node place =
    (is_parent "ImportDeclaration" place
      || is_parent "ExportAllDeclaration" place
      || is_parent "ExportNamedDeclaration" place)
    && is_at "source" place

-- `getResourceTypeString({ isScript: true })`
abbrev pub script_type : String
script_type = "s"

unfoldable pub static_import_run : Settings → Run
unfolding get_proxy_url_literal
static_import_run settings node place state = elim settings.resolver [
  | none ↦ (kept node, state)
  | some resolver ↦ (replaced (get_proxy_url_literal resolver script_type node), state)
]
