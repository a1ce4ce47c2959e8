-- ===== src/Script/Members.antt =====
-- processing/script/transformers: window-eval-get.ts, window-post-message-get.ts, property-get.ts
-- and computed-property-get.ts, which wrap the reads of members.
use testcafe_hammerhead.Common.{String, Bool, ◌&&◌, ◌||◌, not}
use testcafe_hammerhead.Script.Instruction
use testcafe_hammerhead.Script.Instrumented.{should_instrument_property}
use testcafe_hammerhead.Script.Syntax.{
  Node, Place, is_type, is_at, is_parent, is_identifier, child_of, flag_of, value_of, equals_text,
}
use testcafe_hammerhead.Script.Builder.{
  create_get_eval_method_call, create_get_post_message_method_call, create_property_get_wrapper,
  create_computed_property_get_wrapper,
}
use testcafe_hammerhead.Script.Identifiers.{is_update, calls_instruction}
use testcafe_hammerhead.Script.Replace.{Run, replaced}

-- `.name` or `['name']` as the property of a member.
abbrev pub names_property : String → Node → Bool
names_property name node =
    is_identifier name (child_of "property" node)
    || is_type "Literal" (child_of "property" node)
      && equals_text name (value_of "value" (child_of "property" node))

-- The condition of the two transformers for a member of the window.
unfoldable pub window_get_condition : String → String → Node → Place → Bool
window_get_condition name instruction node place =
    not (
      is_parent "MemberExpression" place && (is_at "property" place || is_at "object" place)
      || is_parent "CallExpression" place && is_at "callee" place
      || is_parent "AssignmentExpression" place && is_at "left" place
      || calls_instruction instruction place.parent)
    && names_property name node

unfoldable pub window_eval_get_condition : Node → Place → Bool
unfolding window_get_condition
window_eval_get_condition = window_get_condition "eval" Instruction.get_eval

unfoldable pub window_eval_get_run : Run
window_eval_get_run node place state = (replaced (create_get_eval_method_call node), state)

unfoldable pub window_post_message_get_condition : Node → Place → Bool
unfolding window_get_condition
window_post_message_get_condition = window_get_condition "postMessage" Instruction.get_post_message

unfoldable pub window_post_message_get_run : Run
window_post_message_get_run node place state =
    (replaced (create_get_post_message_method_call node), state)

-- The parents of a member that is written, deleted or called, which the two transformers for
-- properties leave alone. In the source a `ParenthesizedExpression` is looked through for `new`,
-- but what it holds is the member itself, which is never a `new` expression.
unfoldable pub is_not_read : Place → Bool
is_not_read place =
    is_parent "AssignmentExpression" place && is_at "left" place
    || is_parent "UnaryExpression" place && equals_text "delete" (value_of "operator" place.parent)
    || is_parent "CallExpression" place && is_at "callee" place
    || is_update place.parent
    || is_parent "NewExpression" place && is_at "callee" place
    || is_parent "ForInStatement" place && is_at "left" place

unfoldable pub property_get_condition : Node → Place → Bool
unfolding is_not_read should_instrument_property
property_get_condition node place = not (
    flag_of "computed" node
    || is_type "Identifier" (child_of "property" node)
      && not (should_instrument_property (value_of "name" (child_of "property" node)))
    || is_type "PrivateIdentifier" (child_of "property" node)
    || is_type "Super" (child_of "object" node)
    || is_not_read place)

unfoldable pub property_get_run : Run
property_get_run node place state = (
  replaced (
      create_property_get_wrapper (value_of "name" (child_of "property" node))
        (child_of "object" node) (flag_of "optional" node)),
  state,
)

unfoldable pub computed_property_get_condition : Node → Place → Bool
unfolding is_not_read should_instrument_property
computed_property_get_condition node place = not (
    not (flag_of "computed" node)
    || is_type "Literal" (child_of "property" node)
      && not (should_instrument_property (value_of "value" (child_of "property" node)))
    || is_type "Super" (child_of "object" node)
    || is_not_read place)

unfoldable pub computed_property_get_run : Run
computed_property_get_run node place state = (
  replaced (
      create_computed_property_get_wrapper (child_of "property" node) (child_of "object" node)
        (flag_of "optional" node)),
  state,
)
