-- ===== src/Script/Calls.antt =====
-- processing/script/transformers: eval.ts, eval-bind.ts, eval-call-apply.ts,
-- post-message-call-apply-bind.ts, method-call.ts and dynamic-import.ts.
use testcafe_hammerhead.Common.{
  ℕ, String, Bool, true, false, ◌&&◌, ◌||◌, not, ltb, ◌==◌, if◌then◌else◌,
}
use testcafe_hammerhead.Script.Instrumented.{should_instrument_method}
use testcafe_hammerhead.Script.Syntax.{
  Node, Place, is_type, is_identifier, child_of, children_of, flag_of, value_of, equals_text,
  count_nodes, nth_node, with_value, child,
}
use testcafe_hammerhead.Script.Builder.{
  create_process_script_method_call, create_get_eval_method_call,
  create_get_post_message_method_call, create_simple_literal, create_method_call_wrapper,
  create_get_proxy_url_method_call,
}
use testcafe_hammerhead.Script.Replace.{Run, Settings, replaced, kept, replace_child, replace_nth}
use testcafe_hammerhead.Script.Members.{names_property}

-- `node.callee` is a member whose property is an identifier of this name.
abbrev pub calls_by : String → Node → Bool
calls_by name node =
    is_type "MemberExpression" (child_of "callee" node)
    && is_identifier name (child_of "property" (child_of "callee" node))

-- A use of a function: its name, or a member with its name.
abbrev pub refers_to : String → Node → Bool
refers_to name node =
    is_identifier name node || is_type "MemberExpression" node && names_property name node

abbrev pub argument_count : Node → ℕ
argument_count node = count_nodes (children_of "arguments" node)

abbrev pub argument : ℕ → Node → Node
argument i node = nth_node (children_of "arguments" node) i

abbrev pub callee_object : Node → Node
callee_object node = child_of "object" (child_of "callee" node)

unfoldable pub eval_condition : Node → Place → Bool
eval_condition node place =
    not (argument_count node == 0) && refers_to "eval" (child_of "callee" node)

unfoldable pub eval_run : Run
eval_run node place state = (
  kept (
      replace_nth (argument 0 node) (create_process_script_method_call (argument 0 node) false) node
        "arguments" 0),
  state,
)

unfoldable pub eval_bind_condition : Node → Place → Bool
eval_bind_condition node place = calls_by "bind" node && refers_to "eval" (callee_object node)

-- A member of the callee is replaced, and with it the callee of the node.
abbrev pub replace_callee_object : Node → Node → Node
replace_callee_object new node =
    with_value "callee"
      (child (replace_child (callee_object node) new (child_of "callee" node) "object")) node

unfoldable pub eval_bind_run : Run
eval_bind_run node place state =
    (kept (replace_callee_object (create_get_eval_method_call (callee_object node)) node), state)

unfoldable pub eval_call_apply_condition : Node → Place → Bool
eval_call_apply_condition node place =
    not (ltb (argument_count node) 2)
    && (calls_by "call" node || calls_by "apply" node)
    && refers_to "eval" (callee_object node)

unfoldable pub eval_call_apply_run : Run
eval_call_apply_run node place state = (
  kept (
      replace_nth (argument 1 node)
        (create_process_script_method_call (argument 1 node)
          (equals_text "apply" (value_of "name" (child_of "property" (child_of "callee" node)))))
        node "arguments" 1),
  state,
)

unfoldable pub post_message_call_apply_bind_condition : Node → Place → Bool
post_message_call_apply_bind_condition node place =
    (calls_by "call" node || calls_by "apply" node || calls_by "bind" node)
    && not (ltb (argument_count node) 2 && not (calls_by "bind" node))
    && refers_to "postMessage" (callee_object node)

unfoldable pub post_message_call_apply_bind_run : Run
post_message_call_apply_bind_run node place state = (
  kept (replace_callee_object (create_get_post_message_method_call (callee_object node)) node),
  state,
)

unfoldable pub method_call_condition : Node → Place → Bool
unfolding should_instrument_method
method_call_condition node place =
    let callee = child_of "callee" node in
    let property = child_of "property" callee in
    is_type "MemberExpression" callee
    && not (is_type "Super" (child_of "object" callee))
    && (if flag_of "computed" callee
        then (if is_type "Literal" property
            then should_instrument_method (value_of "value" property)
            else true)
        else is_type "Identifier" property && should_instrument_method (value_of "name" property))

abbrev pub method_of : Node → Node
method_of callee =
    if flag_of "computed" callee
    then child_of "property" callee
    else create_simple_literal (value_of "name" (child_of "property" callee))

unfoldable pub method_call_run : Run
method_call_run node place state = (
  replaced (
      create_method_call_wrapper (callee_object node) (method_of (child_of "callee" node))
        (children_of "arguments" node) (flag_of "optional" node)
        (flag_of "optional" (child_of "callee" node))),
  state,
)

unfoldable pub dynamic_import_run : Settings → Run
dynamic_import_run settings node place state = (
  kept (
      replace_child (child_of "source" node)
        (create_get_proxy_url_method_call (child_of "source" node) settings.base_url) node
        "source"),
  state,
)
