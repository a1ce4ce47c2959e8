-- ===== src/Script/Params.antt =====
-- processing/script/transformers/func-args-destructing.ts: the patterns among the parameters of a
-- function.
use testcafe_hammerhead.Common.{
  ℕ, suc, Bool, true, false, ◌&&◌, ◌||◌, not, some, ◌==◌, if◌then◌else◌,
}
use testcafe_hammerhead.Script.Syntax.{
  Node, Nodes, empty, item, gap, child, children, flag, string, Place, is_type, child_of,
  children_of, with_value, count_nodes,
}
use testcafe_hammerhead.Script.Builder.{
  two, create_identifier, create_variable_declaration, create_variable_declarator,
  create_block_statement, create_return_statement,
}
use testcafe_hammerhead.Script.Replace.{
  Run, RunState, replaced, kept, placed_at, replace_child, unshift_node,
}
use testcafe_hammerhead.Script.TempVariables.{generate_name}
use testcafe_hammerhead.Script.Patterns.{is_destructuring, re_transformed}

-- The pattern of a parameter, that of its default value's left side included.
abbrev pub param_pattern : Node → Node
param_pattern param = if is_type "AssignmentPattern" param then child_of "left" param else param

unfoldable pub any_pattern_param : Nodes → Bool
any_pattern_param empty = false
any_pattern_param (gap ns) = any_pattern_param ns
any_pattern_param (item n ns) = is_destructuring (param_pattern n) || any_pattern_param ns

unfoldable pub func_args_condition : Node → Place → Bool
unfolding any_pattern_param
func_args_condition node place = any_pattern_param (children_of "params" node)

abbrev pub has_parts : Node → Bool
has_parts pattern =
    is_type "ObjectPattern" pattern && not (count_nodes (children_of "properties" pattern) == 0)
    || is_type "ArrayPattern" pattern && not (count_nodes (children_of "elements" pattern) == 0)

abbrev pub replace_param : Node → Node → Node
replace_param temp param =
    if is_type "AssignmentPattern" param
    then replace_child (child_of "left" param) temp param "left"
    else placed_at param temp

pub record Params : Type 0 where
  pub params : Nodes
  pub declarations : Nodes
  pub counter : ℕ

unfoldable pub replace_params : Nodes → ℕ → Params
unfolding generate_name
replace_params empty counter = record { params = empty; declarations = empty; counter = counter }
replace_params (gap ns) counter =
    let rest = replace_params ns counter in record rest { params = gap rest.params }
replace_params (item n ns) counter = elim (has_parts (param_pattern n)) [
  | true ↦
      let rest = replace_params ns (suc counter) in
      let temp = create_identifier (generate_name counter) in
      record {
        params = item (replace_param temp n) rest.params;
        declarations =
            item (create_variable_declarator (param_pattern n) (some temp)) rest.declarations;
        counter = rest.counter;
      }
  | false ↦ let rest = replace_params ns counter in record rest { params = item n rest.params }
]

unfoldable pub func_args_run : Run
unfolding replace_params
func_args_run node place state =
    let done = replace_params (children_of "params" node) state.counter in
    let with_params = with_value "params" (children done.params) node in
    let body = child_of "body" node in
    let declaration = create_variable_declaration (string "var") done.declarations in
    let next : RunState = record state { counter = done.counter } in
    if count_nodes done.declarations == 0
    then (kept node, state)
    else if is_type "BlockStatement" body
    then (
      kept (
          with_value "body" (child (unshift_node (re_transformed declaration) body "body"))
            with_params),
      next,
    )
    else (
      replaced (
          with_value "expression" (flag false) (
            replace_child body
              (create_block_statement (two declaration (create_return_statement body))) with_params
              "body")),
      next,
    )
