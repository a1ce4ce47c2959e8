-- ===== src/Script/Sets.antt =====
-- The assignments that are rewritten.
use testcafe_hammerhead.Common.{
  ℕ, ◌≡◌, refl, String, true, false, some, List, [], ◌∷◌, All, In, All-In,
}
use testcafe_hammerhead.Script.Instruction
use testcafe_hammerhead.Script.Syntax.{
  Span, Node, tree, Fields, end_of_fields, field, string, flag, number, child, Place, no_span,
}
use testcafe_hammerhead.Script.Builder.{
  create_identifier, create_property_set_wrapper, create_binary_expression,
  create_simple_call_expression, create_member_expression, create_function_expression,
  create_block_statement, create_variable_declaration, create_variable_declarator, one,
  create_return_statement, create_logical_expression, create_assignment_expression,
  create_this_expression, create_sequence_expression, create_simple_literal, two,
}
use testcafe_hammerhead.Script.Replace.{RunState, Settings}
use testcafe_hammerhead.Script.TempVariables.{generate_name}
use testcafe_hammerhead.Script.Assignments.{
  computed_property_set_condition, concat_operator_condition, location_set_condition,
  property_set_condition, concat_operator_run, location_set_run, wraps_with_sequence, count_temp,
}
use testcafe_hammerhead.Script.Positions.{placed_in}
use testcafe_hammerhead.Script.Patterns.{assignment_destructuring_condition}
use testcafe_hammerhead.Script.Transform.{
  find_transformer, first_that, for_type, Rewritten, rewritten, rewrite, rewrite_node, after_run,
}

abbrev pub assignment_at : Span → Node → String → Node → Node
assignment_at sp left operator right = tree "AssignmentExpression" sp (
    field "operator" (string operator)
      (field "left" (child left) (field "right" (child right) end_of_fields)))

abbrev pub identifier_at : Span → String → Node
identifier_at sp name = tree "Identifier" sp (field "name" (string name) end_of_fields)

abbrev pub member_at : Span → Node → Node → Node
member_at sp object property = tree "MemberExpression" sp (
    field "object" (child object) (
      field "property" (child property)
        (field "computed" (flag false) (field "optional" (flag false) end_of_fields))))

abbrev pub set_by_call : Node → String → Node → RunState → Rewritten
set_by_call object name right state =
    rewritten (create_property_set_wrapper (string name) object right)
      (some (create_property_set_wrapper (string name) object right)) true state

-- The call `function(){var temp = right; return __set$Loc(location, temp) || (location = temp)}`,
-- with `.call(this)`.
abbrev pub location_call : Span → Node → RunState → Node
location_call isp value state =
    let location = identifier_at isp "location" in
    let temp = create_identifier (generate_name state.counter) in
    create_simple_call_expression
      (create_member_expression
        (create_function_expression (
          create_block_statement (
            two
              (create_variable_declaration (string "var")
                (one (create_variable_declarator temp (some value))))
              (create_return_statement (
                create_logical_expression
                  (create_simple_call_expression (create_identifier "__set$Loc")
                    (two location temp))
                  "||" (create_assignment_expression location "=" (some temp)))))))
        (create_identifier "call") false)
      (one create_this_expression)

abbrev pub location_sum : Span → Node → Node
location_sum isp right = create_binary_expression (identifier_at isp "location") "+" right

-- An assignment to `location` is replaced by the node.
abbrev pub SetsTo : Settings → RunState → Span → Span → Node → Place → Node → Type 0
SetsTo settings state sp isp right place new =
    rewrite_node settings (assignment_at sp (identifier_at isp "location") "=" right) place state
    ≡ rewritten (assignment_at sp (identifier_at isp "location") "=" right) (some new) true
        (count_temp state)

abbrev pub AddsTo : Settings → RunState → Span → Span → Node → Place → Node → Type 0
AddsTo settings state sp isp right place new =
    rewrite_node settings (assignment_at sp (identifier_at isp "location") "+=" right) place state
    ≡ rewritten (assignment_at no_span (identifier_at isp "location") "=" (location_sum isp right))
        (some new) true (count_temp state)

-- `(0, call)`
abbrev pub behind_zero : Node → Node
behind_zero call = create_sequence_expression (two (create_simple_literal (number 0)) call)

-- The fields at which a call stands alone.
abbrev pub bare_keys : List String
bare_keys = "arguments" ∷ "consequent" ∷ "alternate" ∷ []

module _ (settings : Settings) (state : RunState) (sp isp : Span) (right : Node) (t : String)
    (psp : Span) (pfs : Fields) (i : ℕ) where
  abbrev BareAt : String → Type 0
  BareAt key =
      SetsTo settings state sp isp right (placed_in (tree t psp pfs) key i)
        (location_call isp right state)
      × AddsTo settings state sp isp right (placed_in (tree t psp pfs) key i)
          (location_call isp (location_sum isp right) state)

  bare_at : All BareAt bare_keys
  unfolding rewrite_node rewrite find_transformer first_that for_type wraps_with_sequence
      assignment_destructuring_condition computed_property_set_condition concat_operator_condition
      location_set_condition property_set_condition location_set_run concat_operator_run after_run
      generate_name
  bare_at = ((refl, refl), ((refl, refl), ((refl, refl), tt)))

  -- `location = right` becomes a call of a function that sets the location, and `location += right`
  -- becomes the same call with the sum. As an expression statement, both are put behind `0,`. Under
  -- the fields `arguments`, `consequent` and `alternate` neither is. As the first expression of a
  -- sequence `location = right` is put behind `0,` and `location += right` is not, so that the
  -- sequence begins with `function`.
  pub rewrite_node-location :
      (key : String)
      → In key bare_keys
      → SetsTo settings state sp isp right
          (placed_in (tree "ExpressionStatement" psp pfs) "expression" i)
          (behind_zero (location_call isp right state))
        × AddsTo settings state sp isp right
            (placed_in (tree "ExpressionStatement" psp pfs) "expression" i)
            (behind_zero (location_call isp (location_sum isp right) state))
        × SetsTo settings state sp isp right
            (placed_in (tree t psp pfs) key i)
            (location_call isp right state)
        × AddsTo settings state sp isp right
            (placed_in (tree t psp pfs) key i)
            (location_call isp (location_sum isp right) state)
        × SetsTo settings state sp isp right
            (placed_in (tree "SequenceExpression" psp pfs) "expressions" 0)
            (behind_zero (location_call isp right state))
        × AddsTo settings state sp isp right
            (placed_in (tree "SequenceExpression" psp pfs) "expressions" 0)
            (location_call isp (location_sum isp right) state)
  unfolding rewrite_node rewrite find_transformer first_that for_type wraps_with_sequence
      assignment_destructuring_condition computed_property_set_condition concat_operator_condition
      location_set_condition property_set_condition location_set_run concat_operator_run after_run
      generate_name
  rewrite_node-location key m =
      let bare = All-In BareAt bare_keys key bare_at m in (refl, refl, bare.0, bare.1, refl, refl)
