-- ===== src/Script/Fuel.antt =====
-- The fuel of destructuring.
use testcafe_hammerhead.Common.{
  ℕ, zero, suc, ◌+◌, ◌-◌, ◌≤◌, ◌<◌, ◌≡◌, refl, ap, sym, ◌∙◌, String, true, false, Option, none,
  some, List, [], ◌∷◌, arith, if◌then◌else◌, if-elim, inl, inr,
}
use testcafe_hammerhead.Script.Syntax.{
  Node, number, Nodes, empty, item, gap, no_node, is_type, child_of, children_of,
}
use testcafe_hammerhead.Script.Builder.{
  create_member_expression, create_simple_literal, create_array_wrapper,
}
use testcafe_hammerhead.Script.TempVariables.{generate_index_name}
use testcafe_hammerhead.Script.Destructuring.{
  BuildState, Process, build, process, process_step, process_object_pattern, process_array_pattern,
  process_assignment_pattern, process_properties, process_elements, process_object_property,
  create_temp_identifier_or_use_existing, collect_keys, keys_before_rest, create_rest_array,
  create_object_rest, next_base_name, base_or_name, has_rest, depth, depth_of_nodes, destructure,
  Keys,
}
use testcafe_hammerhead.Script.WellFormed.{EachProperty}
use testcafe_hammerhead.Script.Flat.{collect_keys-EachProperty}
use testcafe_hammerhead.Script.Depth.{
  IsEnough, EnoughForValue, child_of-IsEnough, depth-children_of, enough_for_values,
  with_key-EnoughForValue,
}

record EnoughKeys (k : ℕ) (keys : Keys) : Type 0 where
  enough : EachProperty (EnoughForValue k) keys.properties

missing_value :
    (p q : Process) (pattern : Node) (base : String) (st : BuildState)
    → process_step p pattern none base st ≡ process_step q pattern none base st
unfolding process_step
missing_value p q pattern base st = refl

missing_pattern :
    (p q : Process) (value : Node) (base : String) (st : BuildState)
    → process_step p no_node (some value) base st ≡ process_step q no_node (some value) base st
unfolding process_step
missing_pattern p q value base st = refl

module _ (p q : Process) (k : ℕ)
    (agree : (pattern : Node) (value : Option Node) (base : String) (st : BuildState)
      → IsEnough k pattern
      → p pattern value base st ≡ q pattern value base st) where
  process_elements-agree :
      (temp : Node) (base : String) (ns : Nodes) (i : ℕ) (st : BuildState)
      → depth_of_nodes ns < k
      → process_elements p temp base ns i st ≡ process_elements q temp base ns i st
  unfolding process_elements depth
  process_elements-agree temp base empty i st h = refl
  process_elements-agree temp base (gap ns) i st h =
      process_elements-agree temp base ns (suc i) st h
  process_elements-agree temp base (item n ns) i st h =
      let rest =
        agree (child_of "argument" n) (some (create_rest_array temp i)) (generate_index_name base i)
          st (child_of-IsEnough "argument" n k (omega arith)) in
      let one =
        agree n (some (create_member_expression temp (create_simple_literal (number i)) true))
          (generate_index_name base i) st (inl (omega arith)) in
      ap (λ s. process_elements p temp base ns (suc i) s)
        (λ j. if is_type "RestElement" n then rest j else one j)
      ∙ process_elements-agree temp base ns (suc i) _ (omega arith)

  process_properties-agree :
      (temp : Node) (prop_names : Nodes) (base : String) (ns : Nodes) (i : ℕ) (names : List String)
      (st : BuildState)
      → EachProperty (EnoughForValue k) ns
      → process_properties p temp prop_names base ns i names st
        ≡ process_properties q temp prop_names base ns i names st
  unfolding process_properties process_object_property
  process_properties-agree temp prop_names base empty i names st h = refl
  process_properties-agree temp prop_names base (gap ns) i names st h =
      process_properties-agree temp prop_names base ns (suc i) names st h
  process_properties-agree temp prop_names base (item n ns) i names st (h, f) =
      let rest =
        process_properties-agree temp prop_names base ns (suc i) names
          (build (child_of "argument" n) (some (create_object_rest temp prop_names)) false st) f in
      let value =
        ap
          (λ s.
            process_properties p temp prop_names base ns (suc i)
              (next_base_name base n i names ∷ names) s)
          (agree (child_of "value" n) _ (next_base_name base n i names) st h)
        ∙ process_properties-agree temp prop_names base ns (suc i)
            (next_base_name base n i names ∷ names) _ f in
      λ j. elim (is_type "RestElement" n) as (λ _. BuildState) [ true ↦ rest j | false ↦ value j ]

  keys-EnoughForValue :
      (ns : Nodes) (st : BuildState)
      → EachProperty (EnoughForValue k) ns
      → EachProperty (EnoughForValue k) (keys_before_rest ns st).properties
  unfolding keys_before_rest
  keys-EnoughForValue ns st h =
      let keys =
        if-elim (EnoughKeys k) (has_rest ns) (collect_keys ns st)
          (record { prop_names = empty; properties = ns; state = st })
          (λ e. record {
            enough =
                collect_keys-EachProperty (EnoughForValue k) (with_key-EnoughForValue k) ns st h;
          })
          (λ e. record { enough = h }) in
      keys.enough

  module _ (pattern value : Node) (base : String) (st : BuildState) (h : depth pattern ≤ k) where
    process_object_pattern-agree :
        process_object_pattern p pattern value base st
        ≡ process_object_pattern q pattern value base st
    unfolding process_object_pattern
    process_object_pattern-agree =
        let temp = create_temp_identifier_or_use_existing value base st in
        let properties = children_of "properties" pattern in
        process_properties-agree temp.0 (keys_before_rest properties temp.1).prop_names
          (base_or_name base temp.0) (keys_before_rest properties temp.1).properties 0 []
          (keys_before_rest properties temp.1).state
          (keys-EnoughForValue properties temp.1
            (enough_for_values properties k (depth-children_of "properties" pattern k h)))

    process_array_pattern-agree :
        process_array_pattern p pattern value base st
        ≡ process_array_pattern q pattern value base st
    unfolding process_array_pattern
    process_array_pattern-agree =
        let array = if is_type "ArrayExpression" value then value else create_array_wrapper value in
        let temp = create_temp_identifier_or_use_existing array base st in
        process_elements-agree temp.0 (base_or_name base temp.0) (children_of "elements" pattern) 0
          temp.1 (depth-children_of "elements" pattern k h)

    process_assignment_pattern-agree :
        process_assignment_pattern p pattern value base st
        ≡ process_assignment_pattern q pattern value base st
    unfolding process_assignment_pattern
    process_assignment_pattern-agree =
        agree (child_of "left" pattern) _ _ (create_temp_identifier_or_use_existing value base st).1
          (child_of-IsEnough "left" pattern k h)

    process_step-agree :
        process_step p pattern (some value) base st ≡ process_step q pattern (some value) base st
    unfolding process_step
    process_step-agree = λ j.
        if is_type "ObjectPattern" pattern
        then process_object_pattern-agree j
        else if is_type "ArrayPattern" pattern
        then process_array_pattern-agree j
        else if is_type "AssignmentPattern" pattern
        then process_assignment_pattern-agree j
        else build pattern (some value) false st

-- More fuel does not change what a pattern is taken apart to.
process-more :
    (n : ℕ) (pattern : Node) (value : Option Node) (base : String) (st : BuildState)
    → IsEnough n pattern
    → process n pattern value base st ≡ process (suc n) pattern value base st
unfolding process
process-more zero pattern value base st (inl h) = absurd (omega (arith, h))
process-more zero pattern value base st (inr (e, h)) = absurd (omega (arith, h))
process-more (suc n) pattern none base st h =
    missing_value (process n) (process_step (process n)) pattern base st
process-more (suc n) pattern (some value) base st (inl h) =
    process_step-agree (process n) (process (suc n)) n (process-more n) pattern value base st
      (omega (arith, h))
process-more (suc n) pattern (some value) base st (inr (e, h)) =
    rw e (missing_pattern (process n) (process_step (process n)) value base st)

process-extra :
    (extra : ℕ) (pattern : Node) (value : Option Node) (st : BuildState)
    → process (suc (depth pattern) + extra) pattern value "" st ≡ destructure pattern value st
unfolding destructure
process-extra zero pattern value st =
    let e : suc (depth pattern) + zero ≡ suc (depth pattern) = omega arith in
    ap (λ n. process n pattern value "" st) e
process-extra (suc extra) pattern value st =
    let e : suc (depth pattern) + suc extra ≡ suc (suc (depth pattern) + extra) = omega arith in
    ap (λ n. process n pattern value "" st) e
    ∙ sym (process-more (suc (depth pattern) + extra) pattern value "" st (inl (omega arith)))
    ∙ process-extra extra pattern value st

-- The recursion over a pattern goes no deeper than the pattern: with any fuel above its depth,
-- destructuring builds the same.
pub process-destructure :
    (fuel : ℕ) (pattern : Node) (value : Option Node) (st : BuildState)
    → depth pattern < fuel
    → process fuel pattern value "" st ≡ destructure pattern value st
process-destructure fuel pattern value st h =
    let extra = fuel - suc (depth pattern) in
    let e : fuel ≡ suc (depth pattern) + extra = omega (arith, h) in
    ap (λ n. process n pattern value "" st) e ∙ process-extra extra pattern value st
