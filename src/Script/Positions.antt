-- ===== src/Script/Positions.antt =====
-- Where an identifier stands decides whether it is wrapped.
use testcafe_hammerhead.Common.{
  ℕ, ◌≡◌, refl, sym, String, true, false, none, some, List, [], ◌∷◌, All, In, All-In, str_eq,
  eq_iff, arith, inl, inr,
}
use mathlib.Core.Path.{subst}
use testcafe_hammerhead.Script.Syntax.{
  Span, Node, tree, Fields, end_of_fields, field, Value, absent, null, flag, number, string, other,
  child, children, Place, is_type, nth_node, children_of, value_of, equals_text,
}
use testcafe_hammerhead.Script.Builder.{create_location_get_wrapper}
use testcafe_hammerhead.Script.Replace.{RunState, Settings}
use testcafe_hammerhead.Script.Identifiers.{
  is_skipped, eval_get_condition, post_message_get_condition, location_get_condition, eval_get_run,
  post_message_get_run, location_get_run,
}
use testcafe_hammerhead.Script.Transform.{
  Transformer, transformers, find_transformer, first_that, for_type, Rewritten, rewritten,
  out_of_fuel, rewrite, rewrite_node, after_run,
}
use testcafe_hammerhead.Script.WellFormed.{and_left}
use testcafe_hammerhead.Script.Loop.{first_that-cases}

-- A node at a place of its parent.
abbrev pub placed_in : Node → String → ℕ → Place
placed_in parent key i = record { parent = parent; key = key; index = i; is_placed = true }

-- Positions of an identifier, by the type of the parent and the field, that the conditions know:
-- where a name is bound or assigned, or names a member. The list does not have all such positions.
abbrev pub binding_positions : List (String × String)
binding_positions =
    ("VariableDeclarator", "id")
    ∷ ("AssignmentExpression", "left")
    ∷ ("AssignmentPattern", "left")
    ∷ ("FunctionDeclaration", "id")
    ∷ ("FunctionExpression", "id")
    ∷ ("FunctionDeclaration", "params")
    ∷ ("FunctionExpression", "params")
    ∷ ("ArrowFunctionExpression", "params")
    ∷ ("ClassDeclaration", "id")
    ∷ ("MethodDefinition", "key")
    ∷ ("MemberExpression", "property")
    ∷ ("Property", "key")
    ∷ ("RestElement", "argument")
    ∷ ("ExportSpecifier", "local")
    ∷ ("ExportSpecifier", "exported")
    ∷ ("ImportSpecifier", "local")
    ∷ ("ImportSpecifier", "imported")
    ∷ []

-- The positions in which a name is bound or is a label, of which no condition knows.
abbrev pub unguarded_positions : List (String × String)
unguarded_positions =
    ("CatchClause", "param")
    ∷ ("LabeledStatement", "label")
    ∷ ("BreakStatement", "label")
    ∷ ("ContinueStatement", "label")
    ∷ ("ClassExpression", "id")
    ∷ ("ImportDefaultSpecifier", "local")
    ∷ ("ImportNamespaceSpecifier", "local")
    ∷ ("ForInStatement", "left")
    ∷ ("ForOfStatement", "left")
    ∷ []

module _ (settings : Settings) (state : RunState) (sp : Span) (fs : Fields) where
  abbrev SkippedAt : Span → Fields → ℕ → String × String → Type 0
  SkippedAt psp pfs i (t, key) =
      find_transformer settings state (tree "Identifier" sp fs) (placed_in (tree t psp pfs) key i)
      ≡ none

  skipped_at : (psp : Span) (pfs : Fields) (i : ℕ) → All (SkippedAt psp pfs i) binding_positions
  unfolding find_transformer first_that for_type is_skipped eval_get_condition
      post_message_get_condition location_get_condition
  skipped_at psp pfs i = ground arith

  -- No transformer applies to an identifier, whatever its name is, that is the `id` of a variable
  -- declarator, of a function declaration or expression or of a class declaration, the left of an
  -- assignment expression or pattern, among the parameters of a function declaration or expression or
  -- an arrow function, the argument of a rest element, the `property` of a member expression or the
  -- key of a property or a method, be they computed or not, or the `local` or other name of an export
  -- or an import specifier. Of other positions it says nothing.
  pub find_transformer-binding :
      (psp : Span) (pfs : Fields) (i : ℕ) (t key : String)
      → In (t, key) binding_positions
      → find_transformer settings state (tree "Identifier" sp fs) (placed_in (tree t psp pfs) key i)
        ≡ none
  find_transformer-binding psp pfs i t key m =
      All-In (SkippedAt psp pfs i) binding_positions (t, key) (skipped_at psp pfs i) m

-- A value is no other text than itself.
other_text :
    (a b : String) (v : Value)
    → str_eq a b ≡ false
    → equals_text a v ≡ true
    → equals_text b v ≡ false
other_text a b (string s) d e = subst (λ x. str_eq x b ≡ false) (sym ((eq_iff s a).0 e)) d
other_text a b absent d e = refl
other_text a b null d e = refl
other_text a b (flag x) d e = refl
other_text a b (number n) d e = refl
other_text a b (other s) d e = refl
other_text a b (child n) d e = refl
other_text a b (children ns) d e = refl

-- A replacement, if there is one, is a call that has the node among its arguments, and no
-- transformer applies to the node there.
abbrev pub LeftAlone : Node → Rewritten → Type 0
LeftAlone node (rewritten n (some wrapper) transformed st) =
    (is_type "CallExpression" wrapper ≡ true)
    × ((i : ℕ) × (nth_node (children_of "arguments" wrapper) i ≡ node))
    × ((settings : Settings) (state : RunState) (i : ℕ)
        → find_transformer settings state node (placed_in wrapper "arguments" i) ≡ none)
LeftAlone node (rewritten n none transformed st) = Unit
LeftAlone node out_of_fuel = ⊥

module _ (settings : Settings) (place : Place) (state : RunState) (sp : Span) (fs : Fields) where
  abbrev LeavesAlone : Transformer → Type 0
  LeavesAlone t = LeftAlone (tree "Identifier" sp fs) (
      after_run (λ new at st. rewrite 2 settings new (some new) true at st) t place
        (tree "Identifier" sp fs) false (t.run (tree "Identifier" sp fs) place state))

  leaves_alone :
      All
        (λ (t : Transformer).
          t.condition state (tree "Identifier" sp fs) place ≡ true → LeavesAlone t)
        (for_type "Identifier" (transformers settings))
  unfolding for_type after_run eval_get_run post_message_get_run location_get_run find_transformer
      first_that eval_get_condition post_message_get_condition location_get_condition
  leaves_alone =
      let name = value_of "name" (tree "Identifier" sp fs) in
      (
        (λ c.
            let e = and_left (equals_text "eval" name) _ c in
            (
              refl,
              (0, refl),
              λ settings' state' i. ground (
                arith,
                other_text "eval" "postMessage" name refl e,
                other_text "eval" "location" name refl e,
              ),
            )),
        (
          (λ c.
              let e = and_left (equals_text "postMessage" name) _ c in
              (
                refl,
                (1, refl),
                λ settings' state' i. ground (
                  arith,
                  other_text "postMessage" "eval" name refl e,
                  other_text "postMessage" "location" name refl e,
                ),
              )),
          (
            (λ c.
                let e = and_left (equals_text "location" name) _ c in
                (
                  refl,
                  (0, refl),
                  λ settings' state' i. ground (
                    arith,
                    other_text "location" "eval" name refl e,
                    other_text "location" "postMessage" name refl e,
                  ),
                )),
            tt,
          ),
        ),
      )

  -- The wrapper of an identifier is not wrapped again: where the loop puts something in the place of
  -- an identifier, it is a call with the identifier among its arguments, and no transformer applies to
  -- the identifier there, at whatever index.
  pub rewrite_node-LeftAlone :
      LeftAlone
        (tree "Identifier" sp fs)
        (rewrite_node settings (tree "Identifier" sp fs) place state)
  unfolding rewrite_node rewrite find_transformer
  rewrite_node-LeftAlone =
      elim (first_that-cases LeavesAlone (λ t. t.condition state (tree "Identifier" sp fs) place)
        (for_type "Identifier" (transformers settings)) leaves_alone tt) [
          | inl e ↦ rw (e, rewrite) tt
          | inr (t, e, p) ↦ rw (e, rewrite) p
        ]

abbrev pub location_at : Span → Node
location_at sp = tree "Identifier" sp (field "name" (string "location") end_of_fields)

abbrev WrappedAt : Settings → RunState → Span → Span → Fields → ℕ → String × String → Type 0
WrappedAt settings state sp psp pfs i (t, key) =
    rewrite_node settings (location_at sp) (placed_in (tree t psp pfs) key i) state
    ≡ rewritten (location_at sp) (some (create_location_get_wrapper (location_at sp))) true state

wrapped_at :
    (settings : Settings) (state : RunState) (sp psp : Span) (pfs : Fields) (i : ℕ)
    → All (WrappedAt settings state sp psp pfs i) unguarded_positions
unfolding rewrite_node rewrite find_transformer first_that for_type is_skipped eval_get_condition
    post_message_get_condition location_get_condition location_get_run after_run
wrapped_at settings state sp psp pfs i =
    (refl, (refl, (refl, (refl, (refl, (refl, (refl, (refl, (refl, tt)))))))))

-- At the name of a caught error, a label, the name of a class expression, the name of a default
-- or a namespace import, and on the left of `for (… in …)` and `for (… of …)`, the identifier
-- `location` is replaced by a call, which may not stand there.
pub rewrite_node-unguarded :
    (settings : Settings) (state : RunState) (sp psp : Span) (pfs : Fields) (i : ℕ) (t key : String)
    → In (t, key) unguarded_positions
    → rewrite_node settings (location_at sp) (placed_in (tree t psp pfs) key i) state
      ≡ rewritten (location_at sp) (some (create_location_get_wrapper (location_at sp))) true state
rewrite_node-unguarded settings state sp psp pfs i t key m =
    All-In (WrappedAt settings state sp psp pfs i) unguarded_positions (t, key)
      (wrapped_at settings state sp psp pfs i) m
