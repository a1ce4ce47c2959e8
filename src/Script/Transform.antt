-- ===== src/Script/Transform.antt =====
-- processing/script/transformers/index.ts and transform.ts: the transformers in their order, the
-- first one whose condition holds, and the loop that applies them to one node.
use testcafe_hammerhead.Common.{
  ℕ, zero, suc, String, Bool, true, false, Option, none, some, List, [], ◌∷◌, str_eq, if◌then◌else◌,
}
use testcafe_hammerhead.Script.Syntax.{Node, Place, type_of}
use testcafe_hammerhead.Script.Replace.{Run, RunState, Settings, Outcome, replaced, kept}
use testcafe_hammerhead.Script.Identifiers.{
  eval_get_condition, eval_get_run, post_message_get_condition, post_message_get_run,
  location_get_condition, location_get_run, static_import_condition, static_import_run,
}
use testcafe_hammerhead.Script.Members.{
  window_eval_get_condition, window_eval_get_run, window_post_message_get_condition,
  window_post_message_get_run, property_get_condition, property_get_run,
  computed_property_get_condition, computed_property_get_run,
}
use testcafe_hammerhead.Script.Calls.{
  eval_condition, eval_run, eval_bind_condition, eval_bind_run, eval_call_apply_condition,
  eval_call_apply_run, post_message_call_apply_bind_condition, post_message_call_apply_bind_run,
  method_call_condition, method_call_run, dynamic_import_run,
}
use testcafe_hammerhead.Script.Assignments.{
  computed_property_set_condition, computed_property_set_run, concat_operator_condition,
  concat_operator_run, location_set_condition, location_set_run, property_set_condition,
  property_set_run, for_in_condition, for_in_run, last_expression_condition, last_expression_run,
}
use testcafe_hammerhead.Script.Patterns.{
  assignment_destructuring_condition, assignment_destructuring_run,
  declaration_destructuring_condition, declaration_destructuring_run, for_of_condition, for_of_run,
}
use testcafe_hammerhead.Script.Params.{func_args_condition, func_args_run}

pub record Transformer : Type 0 where
  pub node_replacement_require_transform : Bool
  pub node_types : String
  pub condition : RunState → Node → Place → Bool
  pub run : Run

abbrev pub transformer : Bool → String → (Node → Place → Bool) → Run → Transformer
transformer require_transform node_type condition run = record {
  node_replacement_require_transform = require_transform;
  node_types = node_type;
  condition = λ state. condition;
  run = run;
}

abbrev pub func_args_destructing : String → Transformer
func_args_destructing t = transformer false t func_args_condition func_args_run

abbrev pub last_expression : Transformer
last_expression = record {
  node_replacement_require_transform = true;
  node_types = "ExpressionStatement";
  condition = last_expression_condition;
  run = last_expression_run;
}

abbrev pub transformers : Settings → List Transformer
transformers settings =
    func_args_destructing "FunctionDeclaration"
    ∷ func_args_destructing "FunctionExpression"
    ∷ func_args_destructing "ArrowFunctionExpression"
    ∷ transformer true "AssignmentExpression" assignment_destructuring_condition
        assignment_destructuring_run
    ∷ transformer true "MemberExpression" computed_property_get_condition computed_property_get_run
    ∷ transformer true "AssignmentExpression" computed_property_set_condition
        computed_property_set_run
    ∷ transformer true "AssignmentExpression" concat_operator_condition concat_operator_run
    ∷ transformer false "CallExpression" eval_condition eval_run
    ∷ transformer false "CallExpression" eval_bind_condition eval_bind_run
    ∷ transformer false "CallExpression" eval_call_apply_condition eval_call_apply_run
    ∷ transformer false "Identifier" eval_get_condition eval_get_run
    ∷ transformer false "MemberExpression" window_eval_get_condition window_eval_get_run
    ∷ transformer false "Identifier" post_message_get_condition post_message_get_run
    ∷ transformer false "MemberExpression" window_post_message_get_condition
        window_post_message_get_run
    ∷ transformer false "CallExpression" post_message_call_apply_bind_condition
        post_message_call_apply_bind_run
    ∷ transformer false "ForInStatement" for_in_condition for_in_run
    ∷ transformer false "ForOfStatement" for_of_condition for_of_run
    ∷ transformer false "Identifier" location_get_condition location_get_run
    ∷ transformer false "AssignmentExpression" location_set_condition location_set_run
    ∷ transformer true "MemberExpression" property_get_condition property_get_run
    ∷ transformer true "AssignmentExpression" property_set_condition property_set_run
    ∷ transformer true "CallExpression" method_call_condition method_call_run
    ∷ last_expression
    ∷ transformer false "Literal" static_import_condition (static_import_run settings)
    ∷ transformer true "ImportExpression" (λ node place. true) (dynamic_import_run settings)
    ∷ transformer true "VariableDeclaration" declaration_destructuring_condition
        declaration_destructuring_run
    ∷ []

-- The transformers for a type of nodes, in their order.
unfoldable pub for_type : String → List Transformer → List Transformer
for_type t [] = []
for_type t (r ∷ rs) =
    let others = for_type t rs in if str_eq r.node_types t then r ∷ others else others

unfoldable pub first_that : (Transformer → Bool) → List Transformer → Option Transformer
first_that holds [] = none
first_that holds (t ∷ ts) = let later = first_that holds ts in if holds t then some t else later

unfoldable pub find_transformer : Settings → RunState → Node → Place → Option Transformer
unfolding first_that for_type
find_transformer settings state node place =
    first_that (λ t. t.condition state node place) (for_type (type_of node) (transformers settings))

-- What the loop leaves: the node, changed in place or not, the replacement if there is one at the
-- end, whether a transformer has replaced anything, and the state. `out_of_fuel` is a loop that has
-- not ended.
pub data Rewritten : Type 0 where
  rewritten : (node : Node) → Option Node → Bool → RunState → Rewritten
  out_of_fuel : Rewritten

-- A replacement that has not been put in its place.
abbrev pub unplaced : Place → Place
unplaced place = record place { is_placed = false }

-- What is done with the result of a run: `rest` is the loop from here on.
unfoldable pub after_run :
    (Node → Place → RunState → Rewritten)
    → Transformer
    → Place
    → Node
    → Bool
    → Outcome × RunState
    → Rewritten
after_run rest t place node transformed (kept changed, state) =
    rewritten changed none transformed state
after_run rest t place node transformed (replaced new, state) =
    if t.node_replacement_require_transform
    then rest new (unplaced place) state
    else rewritten node (some new) true state

-- One round of `while (transformer)`: `current` is the last replacement, or none.
unfoldable pub rewrite : ℕ → Settings → Node → Option Node → Bool → Place → RunState → Rewritten
unfolding find_transformer after_run
rewrite zero settings node current transformed place state = out_of_fuel
rewrite (suc fuel) settings node current transformed place state =
    elim (find_transformer settings state node place) [
      | none ↦ rewritten node current transformed state
      | some t ↦
          after_run (λ new at st. rewrite fuel settings new (some new) true at st) t place node
            transformed (t.run node place state)
    ]

-- The rounds of fuel for one node.
abbrev pub rewrite_rounds : ℕ
rewrite_rounds = 3

unfoldable pub rewrite_node : Settings → Node → Place → RunState → Rewritten
unfolding rewrite
rewrite_node settings node place state = rewrite rewrite_rounds settings node none false place state
