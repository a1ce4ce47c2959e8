-- ===== src/Script/Termination.antt =====
-- The end of the loop that rewrites one node.
use testcafe_hammerhead.Common.{
  ◌≡◌, refl, String, true, false, ◌||◌, none, List, [], ◌∷◌, All, str_eq, arith, eq_iff, sym, clash,
  Bool-cases, inl, inr,
}
use mathlib.Core.Path.{subst}
use testcafe_hammerhead.Script.Instruction
use testcafe_hammerhead.Script.Syntax.{
  Node, Nodes, item, gap, empty, Place, child_of, children_of, value_of, is_type, type_of,
}
use testcafe_hammerhead.Script.Replace.{RunState, Settings, Outcome, replaced, kept}
use testcafe_hammerhead.Script.Members.{property_get_run, computed_property_get_run}
use testcafe_hammerhead.Script.Calls.{method_call_run, dynamic_import_run}
use testcafe_hammerhead.Script.Assignments.{
  computed_property_set_run, concat_operator_condition, concat_operator_run, property_set_run,
  last_expression_run,
}
use testcafe_hammerhead.Script.Destructuring.{BuildState}
use testcafe_hammerhead.Script.Patterns.{
  is_destructuring, assignment_destructuring_run, declaration_destructuring_run, destructure_all,
  no_builds,
}
use testcafe_hammerhead.Script.Transform.{
  Transformer, transformers, rewrite_node, after_run, unplaced,
}
use testcafe_hammerhead.Script.WellFormed.{
  well_formed, well_formed_nodes, child_of-well_formed, children_of-well_formed, and_left,
  and_right,
}
use testcafe_hammerhead.Script.Flat.{IsFlat}
use testcafe_hammerhead.Script.Destructured.{destructure-IsFlat}
use testcafe_hammerhead.Script.Loop.{Ended, Round, rest_of_loop, round, for_type-All}
use testcafe_hammerhead.Script.Rounds.{
  call-Ends, assignment-Ends, declaration-Ends, sequence-Ends, statement-Ends,
}

destructure_all-IsFlat :
    (ns : Nodes) (st : BuildState)
    → well_formed_nodes ns ≡ true
    → IsFlat st.built
    → IsFlat (destructure_all ns st).built
unfolding destructure_all well_formed
destructure_all-IsFlat empty st w h = h
destructure_all-IsFlat (gap ns) st w h = destructure_all-IsFlat ns st w h
destructure_all-IsFlat (item n ns) st w h =
    destructure_all-IsFlat ns _ (and_right (well_formed n) (well_formed_nodes ns) w) (
      destructure-IsFlat (child_of "id" n) _ st
        (child_of-well_formed "id" n (and_left (well_formed n) (well_formed_nodes ns) w)) h)

concat-type :
    (node : Node) (place : Place)
    → concat_operator_condition node place ≡ true
    → (is_type "Identifier" (child_of "left" node)
        || is_type "MemberExpression" (child_of "left" node))
      ≡ true
unfolding concat_operator_condition
concat-type node place c = ground arith

-- Two types that differ are not both the type of a node.
other_type : (s a b : String) → str_eq a b ≡ false → str_eq s a ≡ true → str_eq s b ≡ false
other_type s a b d e = subst (λ x. str_eq x b ≡ false) (sym ((eq_iff s a).0 e)) d

no_pattern_type :
    (s : String)
    → (str_eq s "Identifier" || str_eq s "MemberExpression") ≡ true
    → (str_eq s "ObjectPattern" || str_eq s "ArrayPattern") ≡ false
no_pattern_type s h = ground (
  arith,
  other_type s "Identifier" "ObjectPattern" refl,
  other_type s "Identifier" "ArrayPattern" refl,
  other_type s "MemberExpression" "ObjectPattern" refl,
  other_type s "MemberExpression" "ArrayPattern" refl,
)

-- Only a name or a member is concatenated to.
concat-left :
    (node : Node) (place : Place)
    → concat_operator_condition node place ≡ true
    → is_destructuring (child_of "left" node) ≡ false
concat-left node place c =
    no_pattern_type (type_of (child_of "left" node)) (concat-type node place c)

module _ (settings : Settings) (node : Node) (place : Place) (state : RunState) where
  -- A transformer whose replacement is not transformed again ends the loop.
  at_once :
      (t : Transformer)
      → t.node_replacement_require_transform ≡ false
      → (r : Outcome × RunState) → Ended (after_run (rest_of_loop settings 2) t place node false r)
  unfolding after_run
  at_once t h (kept m, s) = refl
  at_once t h (replaced m, s) = rw h refl

  required_rounds :
      (l : List Transformer)
      → All
          (λ (t : Transformer).
            t.node_replacement_require_transform ≡ true → Round settings 2 false node place state t)
          l
      → All (Round settings 2 false node place state) l
  required_rounds [] h = tt
  required_rounds (t ∷ ts) (p, h) = (
    elim (Bool-cases t.node_replacement_require_transform) [
      | inl e ↦ p e
      | inr e ↦ λ c. at_once t e (t.run node place state)
    ],
    required_rounds ts h,
  )

  rounds_end :
      well_formed node ≡ true
      → All (Round settings 2 false node place state) (transformers settings)
  unfolding after_run computed_property_get_run computed_property_set_run concat_operator_run
      property_get_run property_set_run method_call_run last_expression_run
      assignment_destructuring_run declaration_destructuring_run dynamic_import_run
  rounds_end w = required_rounds (transformers settings) (
    (λ h. absurd (clash false h refl)),
    (
      (λ h. absurd (clash false h refl)),
      (
        (λ h. absurd (clash false h refl)),
        (
          (λ h c. sequence-Ends settings 1 (unplaced place) _ _),
          (
            (λ h c. call-Ends settings 1 (unplaced place) state Instruction.get_property _ refl),
            (
              (λ h c. call-Ends settings 1 (unplaced place) state Instruction.set_property _ refl),
              (
                (λ h c.
                    assignment-Ends settings 0 (unplaced place) state (child_of "left" node) _
                      (concat-left node place c)),
                (
                  (λ h. absurd (clash false h refl)),
                  (
                    (λ h. absurd (clash false h refl)),
                    (
                      (λ h. absurd (clash false h refl)),
                      (
                        (λ h. absurd (clash false h refl)),
                        (
                          (λ h. absurd (clash false h refl)),
                          (
                            (λ h. absurd (clash false h refl)),
                            (
                              (λ h. absurd (clash false h refl)),
                              (
                                (λ h. absurd (clash false h refl)),
                                (
                                  (λ h. absurd (clash false h refl)),
                                  (
                                    (λ h. absurd (clash false h refl)),
                                    (
                                      (λ h. absurd (clash false h refl)),
                                      (
                                        (λ h. absurd (clash false h refl)),
                                        (
                                          (λ h c.
                                              call-Ends settings 1 (unplaced place) state
                                                Instruction.get_property _ refl),
                                          (
                                            (λ h c.
                                                call-Ends settings 1 (unplaced place) state
                                                  Instruction.set_property _ refl),
                                            (
                                              (λ h c.
                                                  call-Ends settings 1 (unplaced place) state
                                                    Instruction.call_method _ refl),
                                              (
                                                (λ h c.
                                                    statement-Ends settings 1 (unplaced place) _ _
                                                      refl),
                                                (
                                                  (λ h. absurd (clash false h refl)),
                                                  (
                                                    (λ h c. refl),
                                                    (
                                                      (λ h c.
                                                          declaration-Ends settings 1
                                                            (unplaced place) _
                                                            (value_of "kind" node) _
                                                            (destructure_all-IsFlat
                                                            (children_of "declarations" node)
                                                            (no_builds state)
                                                            (children_of-well_formed "declarations"
                                                            node w)
                                                            (record { all_flat = tt }))),
                                                      tt,
                                                    ),
                                                  ),
                                                ),
                                              ),
                                            ),
                                          ),
                                        ),
                                      ),
                                    ),
                                  ),
                                ),
                              ),
                            ),
                          ),
                        ),
                      ),
                    ),
                  ),
                ),
              ),
            ),
          ),
        ),
      ),
    ),
  )

-- The loop over the transformers of one node ends, and when it does it has a replacement at hand
-- exactly if a transformer has replaced the node, for every node whose object patterns have no
-- pattern behind `...`.
pub rewrite_node-Ended :
    (settings : Settings) (node : Node) (place : Place) (state : RunState)
    → well_formed node ≡ true
    → Ended (rewrite_node settings node place state)
unfolding rewrite_node
rewrite_node-Ended settings node place state w =
    round settings 2 node none false place state refl (
      for_type-All _ (type_of node) (transformers settings)
        (rounds_end settings node place state w))
