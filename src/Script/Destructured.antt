-- ===== src/Script/Destructured.antt =====
-- The patterns in what destructuring builds.
use testcafe_hammerhead.Common.{
  ℕ, zero, suc, ◌≡◌, String, Bool, true, false, ◌||◌, Option, none, some, List, [], ◌∷◌, Bool-cases,
  inl, inr, if◌then◌else◌, if-elim, arith,
}
use testcafe_hammerhead.Script.Syntax.{
  Node, Nodes, empty, item, gap, number, is_type, child_of, children_of,
}
use testcafe_hammerhead.Script.Builder.{
  create_member_expression, create_simple_literal, create_array_wrapper,
}
use testcafe_hammerhead.Script.TempVariables.{generate_index_name}
use testcafe_hammerhead.Script.Destructuring.{
  Built, BuildState, Process, Keys, build, process, process_step, process_object_pattern,
  process_array_pattern, process_assignment_pattern, process_properties, process_elements,
  process_object_property, create_temp_identifier_or_use_existing, collect_keys, keys_before_rest,
  create_rest_array, create_object_rest, next_base_name, base_or_name, has_rest, depth, destructure,
}
use testcafe_hammerhead.Script.Patterns.{is_destructuring}
use testcafe_hammerhead.Script.WellFormed.{
  well_formed, well_formed_nodes, FitProperty, FitProperties, fit_properties, with_key-FitProperty,
  child_of-well_formed, children_of-well_formed, properties-rests_are_names, rest_is_name, and_left,
  and_right,
}
use testcafe_hammerhead.Script.Flat.{
  IsFlat, FlatIn, build-IsFlat, temp-FlatIn, collect_keys-IsFlat, collect_keys-EachProperty,
}

-- A callback that keeps the builds flat.
abbrev Keeps : Process → Type 0
Keeps process =
    (pattern : Node) (value : Option Node) (base : String) (st : BuildState)
    → well_formed pattern ≡ true
    → IsFlat st.built
    → IsFlat (process pattern value base st).built

abbrev all_built : BuildState → List Built
all_built st = st.built

record FitKeys (keys : Keys) : Type 0 where
  fit : FitProperties keys.properties
  flat_keys : IsFlat keys.state.built

keys_before_rest-FitKeys :
    (ns : Nodes) (st : BuildState)
    → FitProperties ns
    → IsFlat st.built
    → FitKeys (keys_before_rest ns st)
unfolding keys_before_rest
keys_before_rest-FitKeys ns st f h =
    if-elim FitKeys (has_rest ns) (collect_keys ns st)
      (record { prop_names = empty; properties = ns; state = st })
      (λ e. record {
        fit = collect_keys-EachProperty FitProperty with_key-FitProperty ns st f;
        flat_keys = collect_keys-IsFlat ns st h;
      })
      (λ e. record { fit = f; flat_keys = h })

abbrev is_pattern : Node → Bool
is_pattern pattern =
    is_type "ObjectPattern" pattern
    || is_type "ArrayPattern" pattern
    || is_type "AssignmentPattern" pattern

no_pattern : (pattern : Node) → is_pattern pattern ≡ false → is_destructuring pattern ≡ false
no_pattern pattern e = ground arith

neither :
    (pattern : Node)
    → is_type "ObjectPattern" pattern ≡ false
    → is_type "ArrayPattern" pattern ≡ false
    → is_destructuring pattern ≡ false
neither pattern e f = ground arith

rest_argument :
    (n : Node)
    → is_type "RestElement" n ≡ true
    → rest_is_name n ≡ true
    → is_destructuring (child_of "argument" n) ≡ false
rest_argument n e h = ground arith

module _ (process : Process) (keeps : Keeps process) where
  process_elements-IsFlat :
      (temp : Node) (base : String) (ns : Nodes) (i : ℕ) (st : BuildState)
      → well_formed_nodes ns ≡ true
      → IsFlat st.built
      → IsFlat (process_elements process temp base ns i st).built
  unfolding process_elements well_formed
  process_elements-IsFlat temp base empty i st w h = h
  process_elements-IsFlat temp base (gap ns) i st w h =
      process_elements-IsFlat temp base ns (suc i) st w h
  process_elements-IsFlat temp base (item n ns) i st w h =
      let wn = and_left (well_formed n) (well_formed_nodes ns) w in
      let step =
        if-elim (FlatIn all_built) (is_type "RestElement" n)
          (process (child_of "argument" n) (some (create_rest_array temp i))
            (generate_index_name base i) st)
          (process n (some (create_member_expression temp (create_simple_literal (number i)) true))
            (generate_index_name base i) st)
          (λ e. record { flat = keeps _ _ _ st (child_of-well_formed "argument" n wn) h })
          (λ e. record { flat = keeps _ _ _ st wn h }) in
      process_elements-IsFlat temp base ns (suc i) _
        (and_right (well_formed n) (well_formed_nodes ns) w) step.flat

  process_properties-IsFlat :
      (temp : Node) (prop_names : Nodes) (base : String) (ns : Nodes) (i : ℕ) (names : List String)
      (st : BuildState)
      → FitProperties ns
      → IsFlat st.built
      → IsFlat (process_properties process temp prop_names base ns i names st).built
  unfolding process_properties process_object_property
  process_properties-IsFlat temp prop_names base empty i names st f h = h
  process_properties-IsFlat temp prop_names base (gap ns) i names st f h =
      process_properties-IsFlat temp prop_names base ns (suc i) names st f h
  process_properties-IsFlat temp prop_names base (item n ns) i names st ((r, w), f) h =
      elim (Bool-cases (is_type "RestElement" n)) [
        | inl e ↦
            rw (e, process_properties)
              (process_properties-IsFlat temp prop_names base ns (suc i) names _ f (
                build-IsFlat (child_of "argument" n) (some (create_object_rest temp prop_names))
                  false st (rest_argument n e r) h))
        | inr e ↦
            rw (e, process_properties)
              (process_properties-IsFlat temp prop_names base ns (suc i)
                (next_base_name base n i names ∷ names) _ f
                (keeps (child_of "value" n) _ (next_base_name base n i names) st w h))
      ]

  process_object_pattern-IsFlat :
      (pattern value : Node) (base : String) (st : BuildState)
      → well_formed pattern ≡ true
      → IsFlat st.built
      → IsFlat (process_object_pattern process pattern value base st).built
  unfolding process_object_pattern
  process_object_pattern-IsFlat pattern value base st w h =
      let temp = create_temp_identifier_or_use_existing value base st in
      let properties = children_of "properties" pattern in
      let keys =
        keys_before_rest-FitKeys properties temp.1
          (fit_properties properties (properties-rests_are_names pattern w)
            (children_of-well_formed "properties" pattern w))
          ((temp-FlatIn value base st h).flat) in
      process_properties-IsFlat temp.0 (keys_before_rest properties temp.1).prop_names
        (base_or_name base temp.0) (keys_before_rest properties temp.1).properties 0 []
        (keys_before_rest properties temp.1).state keys.fit keys.flat_keys

  process_array_pattern-IsFlat :
      (pattern value : Node) (base : String) (st : BuildState)
      → well_formed pattern ≡ true
      → IsFlat st.built
      → IsFlat (process_array_pattern process pattern value base st).built
  unfolding process_array_pattern
  process_array_pattern-IsFlat pattern value base st w h =
      let array = if is_type "ArrayExpression" value then value else create_array_wrapper value in
      let temp = create_temp_identifier_or_use_existing array base st in
      process_elements-IsFlat temp.0 (base_or_name base temp.0) (children_of "elements" pattern) 0
        temp.1 (children_of-well_formed "elements" pattern w) ((temp-FlatIn array base st h).flat)

  process_assignment_pattern-IsFlat :
      (pattern value : Node) (base : String) (st : BuildState)
      → well_formed pattern ≡ true
      → IsFlat st.built
      → IsFlat (process_assignment_pattern process pattern value base st).built
  unfolding process_assignment_pattern
  process_assignment_pattern-IsFlat pattern value base st w h =
      keeps (child_of "left" pattern) _ _ (create_temp_identifier_or_use_existing value base st).1
        (child_of-well_formed "left" pattern w) ((temp-FlatIn value base st h).flat)

  process_step-IsFlat : Keeps (process_step process)
  unfolding process_step
  process_step-IsFlat pattern none base st w h =
      let done =
        if-elim (FlatIn all_built) (is_pattern pattern) st (build pattern none false st)
          (λ e. record { flat = h })
          (λ e. record { flat = build-IsFlat pattern none false st (no_pattern pattern e) h }) in
      done.flat
  process_step-IsFlat pattern (some value) base st w h =
      let object = process_object_pattern process pattern value base st in
      let array = process_array_pattern process pattern value base st in
      let assigned = process_assignment_pattern process pattern value base st in
      let name = build pattern (some value) false st in
      let done =
        if-elim (FlatIn all_built) (is_type "ObjectPattern" pattern) object
          (if is_type "ArrayPattern" pattern
            then array
            else if is_type "AssignmentPattern" pattern
            then assigned
            else name)
          (λ e. record { flat = process_object_pattern-IsFlat pattern value base st w h })
          (λ e.
            if-elim (FlatIn all_built) (is_type "ArrayPattern" pattern) array
              (if is_type "AssignmentPattern" pattern then assigned else name)
              (λ f. record { flat = process_array_pattern-IsFlat pattern value base st w h })
              (λ f.
                if-elim (FlatIn all_built) (is_type "AssignmentPattern" pattern) assigned name
                  (λ g. record {
                    flat = process_assignment_pattern-IsFlat pattern value base st w h;
                  })
                  (λ g. record {
                    flat = build-IsFlat pattern (some value) false st (neither pattern e f) h;
                  }))) in
      done.flat

process-IsFlat : (fuel : ℕ) → Keeps (process fuel)
unfolding process
process-IsFlat zero = λ pattern value base st w h. h
process-IsFlat (suc fuel) = process_step-IsFlat (process fuel) (process-IsFlat fuel)

-- Destructuring adds only builds of single names and members: if no pattern that was built before
-- is an object or an array pattern, and behind each `...` of an object pattern stands no pattern,
-- then none that is built afterwards is.
pub destructure-IsFlat :
    (pattern : Node) (value : Option Node) (st : BuildState)
    → well_formed pattern ≡ true
    → IsFlat st.built
    → IsFlat (destructure pattern value st).built
unfolding destructure
destructure-IsFlat pattern value st = process-IsFlat (suc (depth pattern)) pattern value "" st
