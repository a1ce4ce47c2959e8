-- ===== src/Script/Replace.antt =====
-- processing/script/transformers/replace-node.ts, and what the transformers
-- of a script share: the state that they pass on and the result of a run.
use testcafe_hammerhead.Common.{ℕ, ◌+◌, String, Bool, Option, none, some, List, []}
use testcafe_hammerhead.Script.Syntax.{
  Node, tree, child, children, Nodes, item, span_of, with_value, children_of, set_nth, Place,
}

-- `start`, `end` and the origin of the new node are those of the old one.
abbrev pub placed_at : Node → Node → Node
placed_at old (tree t s fs) =
    tree t
      (record {
        start = (span_of old).start;
        end = (span_of old).end;
        origin_start = (span_of old).start;
        origin_end = (span_of old).end;
      })
      fs

-- `replaceNode(parent[key], newNode, parent, key)`, for a field that holds a node.
abbrev pub replace_child : Node → Node → Node → String → Node
replace_child old new parent key = with_value key (child (placed_at old new)) parent

-- `replaceNode(parent[key][i], newNode, parent, key)`, for a field that holds an array.
abbrev pub replace_nth : Node → Node → Node → String → ℕ → Node
replace_nth old new parent key i =
    with_value key (children (set_nth (children_of key parent) i (placed_at old new))) parent

-- The place of a node that is put before the others of an array.
abbrev pub first_start : Nodes → Node → Option ℕ
first_start (item n ns) parent = (span_of n).start
first_start _ parent = elim (span_of parent).start [ none ↦ none | some s ↦ some (s + 1) ]

abbrev pub placed_first : Option ℕ → Node → Node
placed_first at (tree t s fs) =
    tree t (record { start = at; end = at; origin_start = at; origin_end = at }) fs

-- `replaceNode(null, newNode, parent, key)`, for a field that holds an array.
abbrev pub unshift_node : Node → Node → String → Node
unshift_node new parent key =
    with_value key
      (children (
        item (placed_first (first_start (children_of key parent) parent) new)
          (children_of key parent)))
      parent

-- What a run reads and changes besides its node: the counter of the temporary variables, the
-- variables of the enclosing block, and the mark for the last expression of the script.
pub record RunState : Type 0 where
  pub counter : ℕ
  pub temp_vars : List String
  pub wrap_last_expr : Bool

-- The state before the first node: the counter is reset, and `beforeTransform` sets the mark.
abbrev pub start_state : Bool → RunState
start_state wrap_last_expr_with_process_html = record {
  counter = 0;
  temp_vars = [];
  wrap_last_expr = wrap_last_expr_with_process_html;
}

-- What `beforeTransform` sets. `base_url` is the result of `getBaseUrl`.
pub record Settings : Type 0 where
  pub resolver : Option (String → String → String)
  pub base_url : String

-- `run` gives a replacement, or null when it has changed the node in place or not at all.
pub data Outcome : Type 0 where
  replaced kept : Node → Outcome

abbrev pub Run : Type 0
Run = Node → Place → RunState → Outcome × RunState
