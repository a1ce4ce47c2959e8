-- ===== src/Script/Patterns.antt =====
-- processing/script/transformers: assignment-destructuring.ts, declaration-destructuring.ts and
-- for-of.ts.
use testcafe_hammerhead.Common.{
  ℕ, suc, String, Bool, true, false, ◌&&◌, ◌||◌, not, Option, none, some, List, [], ◌∷◌, ◌++◌, ◌==◌,
  any_of, if◌then◌else◌,
}
use testcafe_hammerhead.Script.Syntax.{
  Node, Nodes, empty, item, gap, child, children, flag, string, Value, Place, is_type, is_parent,
  child_of, children_of, text_of, value_of, equals_text, with_value, nth_node, set_nth,
}
use testcafe_hammerhead.Script.Builder.{
  one, create_identifier, create_assignment_expression, create_sequence_expression,
  create_variable_declaration, create_variable_declarator, create_assignment_expr_stmt,
}
use testcafe_hammerhead.Script.Replace.{Run, RunState, replaced, kept, placed_at, replace_child}
use testcafe_hammerhead.Script.TempVariables.{generate_name}
use testcafe_hammerhead.Script.Assignments.{put_first_in_body, assigns_by, count_temp}
use testcafe_hammerhead.Script.Destructuring.{Built, BuildState, destructure}

abbrev pub is_destructuring : Node → Bool
is_destructuring pattern = is_type "ObjectPattern" pattern || is_type "ArrayPattern" pattern

unfoldable pub assignment_destructuring_condition : Node → Place → Bool
assignment_destructuring_condition node place =
    assigns_by "=" node && is_destructuring (child_of "left" node)

-- `null` is no expression.
abbrev pub as_option : Value → Option Node
as_option (child n) = some n
as_option _ = none

abbrev pub first_temp : List Built → Nodes
first_temp [] = empty
first_temp (b ∷ bs) = if b.is_temp then one b.pattern else empty

-- The assignments, and the first variable behind them if the pattern needed one.
abbrev pub assignments : List Built → Nodes → Nodes
assignments [] last = last
assignments (b ∷ bs) last =
    item (create_assignment_expression b.pattern "=" b.value) (assignments bs last)

abbrev pub temp_names : List Built → List String
temp_names [] = []
temp_names (b ∷ bs) =
    let names = temp_names bs in if b.is_temp then text_of "name" b.pattern ∷ names else names

abbrev pub no_builds : RunState → BuildState
no_builds state = record { counter = state.counter; built = [] }

unfoldable pub assignment_destructuring_run : Run
unfolding destructure
assignment_destructuring_run node place state =
    let st =
      destructure (child_of "left" node) (as_option (value_of "right" node)) (no_builds state) in
    (
      replaced (create_sequence_expression (assignments st.built (first_temp st.built))),
      record state { counter = st.counter; temp_vars = state.temp_vars ++ temp_names st.built },
    )

unfoldable pub any_destructured : Nodes → Bool
any_destructured empty = false
any_destructured (gap ns) = any_destructured ns
any_destructured (item n ns) = is_destructuring (child_of "id" n) || any_destructured ns

unfoldable pub declaration_destructuring_condition : Node → Place → Bool
unfolding any_destructured
declaration_destructuring_condition node place =
    not (is_parent "ForInStatement" place) && any_destructured (children_of "declarations" node)

unfoldable pub destructure_all : Nodes → BuildState → BuildState
unfolding destructure
destructure_all empty st = st
destructure_all (gap ns) st = destructure_all ns st
destructure_all (item n ns) st =
    destructure_all ns (destructure (child_of "id" n) (as_option (value_of "init" n)) st)

abbrev pub declarators : List Built → Nodes
declarators [] = empty
declarators (b ∷ bs) = item (create_variable_declarator b.pattern b.value) (declarators bs)

unfoldable pub declaration_destructuring_run : Run
unfolding destructure_all
declaration_destructuring_run node place state =
    let st = destructure_all (children_of "declarations" node) (no_builds state) in
    (
      replaced (create_variable_declaration (value_of "kind" node) (declarators st.built)),
      record state { counter = st.counter },
    )

abbrev pub first_declarator : Node → Node
first_declarator declaration = nth_node (children_of "declarations" declaration) 0

unfoldable pub for_of_condition : Node → Place → Bool
for_of_condition node place =
    let left = child_of "left" node in
    is_destructuring
      (if is_type "VariableDeclaration" left then child_of "id" (first_declarator left) else left)

-- The names that a declarator declares: itself, or the elements or the values of its pattern.
abbrev pub identifier_names : Nodes → List String
identifier_names empty = []
identifier_names (gap ns) = identifier_names ns
identifier_names (item n ns) =
    let names = identifier_names ns in
    if is_type "Identifier" n then text_of "name" n ∷ names else names

abbrev pub property_values : Nodes → Nodes
property_values empty = empty
property_values (gap ns) = property_values ns
property_values (item n ns) = item (child_of "value" n) (property_values ns)

abbrev pub declared_names : Node → List String
declared_names declarator =
    let id = child_of "id" declarator in
    if is_type "VariableDeclarator" declarator
    then (if is_type "Identifier" id
        then text_of "name" id ∷ []
        else if is_type "ArrayPattern" id
        then identifier_names (children_of "elements" id)
        else if is_type "ObjectPattern" id
        then identifier_names (property_values (children_of "properties" id))
        else [])
    else []

abbrev pub names_of_declarators : Nodes → List String
names_of_declarators empty = []
names_of_declarators (gap ns) = names_of_declarators ns
names_of_declarators (item n ns) = declared_names n ++ names_of_declarators ns

-- `walkDeclarators`
unfoldable pub walk_declarators : Nodes → List String
walk_declarators empty = []
walk_declarators (gap ns) = walk_declarators ns
walk_declarators (item n ns) =
    (if is_type "VariableDeclaration" n
      then names_of_declarators (children_of "declarations" n)
      else [])
    ++ walk_declarators ns

-- The positions of the elements with a name.
abbrev pub positions_of : String → Nodes → ℕ → List ℕ
positions_of name empty i = []
positions_of name (gap ns) i = positions_of name ns (suc i)
positions_of name (item n ns) i =
    let found = positions_of name ns (suc i) in
    if equals_text name (value_of "name" n) then i ∷ found else found

abbrev pub nodes_to_replace : List String → Nodes → List ℕ
nodes_to_replace [] elements = []
nodes_to_replace (name ∷ names) elements =
    positions_of name elements 0 ++ nodes_to_replace names elements

-- A position that was replaced before is not found again, but takes a name.
unfoldable pub replace_positions : List ℕ → List ℕ → Nodes → ℕ → Nodes × ℕ
unfolding generate_name
replace_positions [] seen elements counter = (elements, counter)
replace_positions (i ∷ is) seen elements counter =
    replace_positions is (i ∷ seen)
      (if any_of (λ j. j == i) seen
        then elements
        else set_nth elements i
            (placed_at (nth_node elements i) (create_identifier (generate_name counter))))
      (suc counter)

unfoldable pub replace_duplicate_declarators : Node → Node → ℕ → Node × ℕ
unfolding walk_declarators replace_positions
replace_duplicate_declarators pattern body counter =
    let elements = children_of "elements" pattern in
    let names = walk_declarators (children_of "body" body) in
    let done = replace_positions (nodes_to_replace names elements) [] elements counter in
    if is_type "ArrayPattern" pattern && is_type "BlockStatement" body
    then (with_value "elements" (children done.0) pattern, done.1)
    else (pattern, counter)

-- The declaration of the pattern, which the traversal transforms once more.
abbrev pub re_transformed : Node → Node
re_transformed declaration = with_value "reTransform" (flag true) declaration

-- The first declarator of the left side declares the variable.
abbrev pub declare_temp : Node → Node → Node
declare_temp temp left =
    let declarator = first_declarator left in
    with_value "declarations"
      (children (
        set_nth (children_of "declarations" left) 0
          (replace_child (child_of "id" declarator) temp declarator "id")))
      left

unfoldable pub for_of_run : Run
unfolding replace_duplicate_declarators generate_name
for_of_run node place state =
    let temp = create_identifier (generate_name state.counter) in
    let left = child_of "left" node in
    let distinct =
      replace_duplicate_declarators (child_of "id" (first_declarator left)) (child_of "body" node)
        (suc state.counter) in
    if is_type "VariableDeclaration" left
    then (
      kept (
          put_first_in_body
            (re_transformed (
              create_variable_declaration (value_of "kind" left)
                (one (create_variable_declarator distinct.0 (some temp)))))
            (with_value "left" (child (declare_temp temp left)) node)),
      record state { counter = distinct.1 },
    )
    else (
      kept (
          put_first_in_body (create_assignment_expr_stmt left temp) (
            replace_child left
              (create_variable_declaration (string "var")
                (one (create_variable_declarator temp none)))
              node "left")),
      count_temp state,
    )
