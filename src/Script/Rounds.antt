-- ===== src/Script/Rounds.antt =====
-- What the loop makes of a replacement, for each kind of node that a transformer has built.
use testcafe_hammerhead.Common.{
  ℕ, suc, ◌≡◌, refl, String, true, false, ◌&&◌, not, some, List, [], ◌∷◌, str_eq, arith, clash,
}
use testcafe_hammerhead.Script.Instruction
use testcafe_hammerhead.Script.Syntax.{Node, Nodes, Place, Value, is_parent}
use testcafe_hammerhead.Script.Builder.{
  create_sequence_expression, create_assignment_expression, create_variable_declaration,
  create_expression_statement,
}
use testcafe_hammerhead.Script.Replace.{RunState, Settings}
use testcafe_hammerhead.Script.Assignments.{
  computed_property_set_run, concat_operator_condition, location_set_run, property_set_run,
  last_expression_condition,
}
use testcafe_hammerhead.Script.Destructuring.{Built}
use testcafe_hammerhead.Script.Patterns.{
  is_destructuring, assignment_destructuring_condition, declaration_destructuring_condition,
  any_destructured, declarators,
}
use testcafe_hammerhead.Script.Transform.{for_type, rewrite, after_run, unplaced}
use testcafe_hammerhead.Script.Flat.{IsFlat}
use testcafe_hammerhead.Script.Loop.{call_of, find_transformer-call, Ended, round, last_round}

names-not_destructured : (l : List Built) → IsFlat l → any_destructured (declarators l) ≡ false
unfolding any_destructured
names-not_destructured [] h = refl
names-not_destructured (b ∷ bs) h =
    let p = h.all_flat in rw (p.0, names-not_destructured bs (record { all_flat = p.1 })) refl

not_destructured :
    (place : Place) (l : List Built)
    → IsFlat l
    → (not (is_parent "ForInStatement" place) && any_destructured (declarators l)) ≡ true
    → ⊥
not_destructured place l h c = ground (arith, names-not_destructured l h)

not_last :
    (place : Place) (state : RunState) (n : Node)
    → state.wrap_last_expr ≡ false
    → last_expression_condition state n place ≡ true
    → ⊥
unfolding last_expression_condition
not_last place state n h c = ground arith

-- The loop goes on with a node that it has built.
abbrev pub Ends : Settings → ℕ → Place → RunState → Node → Type 0
Ends settings fuel place state new = Ended (rewrite fuel settings new (some new) true place state)

pub call-Ends :
    (settings : Settings) (fuel : ℕ) (place : Place) (state : RunState) (name : String)
    (args : Nodes)
    → str_eq name "eval" ≡ false
    → Ends settings (suc fuel) place state (call_of name args)
call-Ends settings fuel place state name args h =
    last_round settings fuel (call_of name args) (some _) true place state
      (find_transformer-call settings state name args place h) refl

module _ (settings : Settings) (fuel : ℕ) (place : Place) (state : RunState) where
  pub assignment-Ends :
      (left right : Node)
      → is_destructuring left ≡ false
      → Ends settings
          (suc (suc fuel))
          place
          state
          (create_assignment_expression left "=" (some right))
  unfolding for_type assignment_destructuring_condition concat_operator_condition
      computed_property_set_run property_set_run location_set_run after_run
  assignment-Ends left right h =
      round settings (suc fuel) (create_assignment_expression left "=" (some right)) (some _) true
        place state refl
        (
          (λ c. absurd (clash (is_destructuring left) c h)),
          (
            (λ c. call-Ends settings fuel (unplaced place) state Instruction.set_property _ refl),
            (
              (λ c. absurd (clash false c refl)),
              (
                (λ c. refl),
                (
                  (λ c.
                      call-Ends settings fuel (unplaced place) state Instruction.set_property _
                        refl),
                  tt,
                ),
              ),
            ),
          ),
        )

  pub declaration-Ends :
      (kind : Value) (l : List Built)
      → IsFlat l
      → Ends settings (suc fuel) place state (create_variable_declaration kind (declarators l))
  unfolding for_type declaration_destructuring_condition any_destructured
  declaration-Ends kind l h =
      round settings fuel (create_variable_declaration kind (declarators l)) (some _) true place
        state refl ((λ c. absurd (not_destructured place l h c)), tt)

  pub sequence-Ends :
      (ns : Nodes) → Ends settings (suc fuel) place state (create_sequence_expression ns)
  unfolding for_type
  sequence-Ends ns =
      round settings fuel (create_sequence_expression ns) (some _) true place state refl tt

  -- Once the last expression is wrapped, the mark is off.
  pub statement-Ends :
      (expression : Node)
      → state.wrap_last_expr ≡ false
      → Ends settings (suc fuel) place state (create_expression_statement expression)
  unfolding for_type last_expression_condition
  statement-Ends expression h =
      round settings fuel (create_expression_statement expression) (some _) true place state refl
        ((λ c. absurd (not_last place state expression h c)), tt)
