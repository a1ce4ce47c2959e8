-- ===== src/Script/Flat.antt =====
-- Variables and keys in what destructuring builds.
use testcafe_hammerhead.Common.{
  suc, ◌≡◌, refl, String, Bool, true, false, Option, some, List, [], ◌∷◌, ◌++◌, ◌&&◌, All,
  if◌then◌else◌, if-elim, truthy,
}
use testcafe_hammerhead.Script.Syntax.{
  Node, Nodes, empty, item, gap, Value, child, is_type, child_of, flag_of, value_of, text_of,
  with_value,
}
use testcafe_hammerhead.Script.Builder.{create_identifier, create_simple_literal}
use testcafe_hammerhead.Script.TempVariables.{generate_name, is_hh_temp_variable}
use testcafe_hammerhead.Script.Destructuring.{
  Built, BuildState, build, create_temp_identifier_or_use_existing, collect_keys, key_of_property,
}
use testcafe_hammerhead.Script.Patterns.{is_destructuring}
use testcafe_hammerhead.Script.WellFormed.{EachProperty}

pub record IsFlat (l : List Built) : Type 0 where
  pub all_flat : All (λ (b : Built). is_destructuring b.pattern ≡ false) l

All-append :
    (xs ys : List Built)
    → All (λ (b : Built). is_destructuring b.pattern ≡ false) xs
    → All (λ (b : Built). is_destructuring b.pattern ≡ false) ys
    → All (λ (b : Built). is_destructuring b.pattern ≡ false) (xs ++ ys)
All-append [] ys h k = k
All-append (x ∷ xs) ys (p, h) k = (p, All-append xs ys h k)

pub build-IsFlat :
    (pattern : Node) (value : Option Node) (is_temp : Bool) (st : BuildState)
    → is_destructuring pattern ≡ false
    → IsFlat st.built
    → IsFlat (build pattern value is_temp st).built
build-IsFlat pattern value is_temp st e h = record {
  all_flat =
      All-append st.built (record { pattern = pattern; value = value; is_temp = is_temp } ∷ [])
        h.all_flat (e, tt);
}

-- A result that has flat builds.
pub record FlatIn {A : Type 0} (builds : A → List Built) (r : A) : Type 0 where
  pub flat : IsFlat (builds r)

abbrev pub named : Node × BuildState → List Built
named r = r.1.built

-- A variable of this name is built.
abbrev build_temp : String → Node → BuildState → BuildState
build_temp name value st = build (create_identifier name) (some value) true st

build_temp-IsFlat :
    (name : String) (value : Node) (st : BuildState)
    → IsFlat st.built
    → IsFlat (build_temp name value st).built
build_temp-IsFlat name value st h =
    build-IsFlat (create_identifier name) (some value) true st refl h

abbrev next_state : BuildState → BuildState
next_state st = record st { counter = suc st.counter }

pub temp-FlatIn :
    (value : Node) (base : String) (st : BuildState)
    → IsFlat st.built
    → FlatIn named (create_temp_identifier_or_use_existing value base st)
unfolding create_temp_identifier_or_use_existing
temp-FlatIn value base st h =
    let fresh : Node × BuildState = (
      create_identifier (generate_name st.counter),
      build_temp (generate_name st.counter) value (next_state st),
    ) in
    let based : Node × BuildState = (create_identifier base, build_temp base value st) in
    let old : Node × BuildState = (value, st) in
    if-elim (FlatIn named)
      (is_type "Identifier" value && is_hh_temp_variable (text_of "name" value)) old
      (if truthy base then based else fresh) (λ e. record { flat = h })
      (λ e.
        if-elim (FlatIn named) (truthy base) based fresh
          (λ f. record { flat = build_temp-IsFlat base value st h })
          (λ f. record {
            flat = build_temp-IsFlat (generate_name st.counter) value (next_state st) h;
          }))

module _ (prop : Node) (st : BuildState) where
  abbrev plain_key : Node × Node × BuildState
  plain_key = (
    if flag_of "computed" prop
        then child_of "key" prop
        else create_simple_literal (value_of "name" (child_of "key" prop)),
    prop,
    st,
  )

  abbrev literal_key : Node × Node × BuildState
  literal_key = (child_of "key" prop, prop, st)

  abbrev temp_key : Node × Node × BuildState
  temp_key = (
    create_identifier (generate_name st.counter),
    with_value "key" (child (create_identifier (generate_name st.counter))) prop,
    build_temp (generate_name st.counter) (child_of "key" prop) (next_state st),
  )

  key_of_property-cases :
      (P : Node × Node × BuildState → Type 0)
      → P plain_key
      → P literal_key
      → P temp_key
      → P (key_of_property prop st)
  unfolding key_of_property
  key_of_property-cases P a b c =
      if-elim P (is_type "Identifier" (child_of "key" prop)) plain_key
        (if is_type "Literal" (child_of "key" prop) then literal_key else temp_key) (λ e. a)
        (λ e.
          if-elim P (is_type "Literal" (child_of "key" prop)) literal_key temp_key (λ f. b)
            (λ f. c))

record Keyed (r : Node × Node × BuildState) : Type 0 where
  keyed_flat : IsFlat r.2.built

record KeyedFit (P : Node → Type 0) (r : Node × Node × BuildState) : Type 0 where
  keyed_fit : P r.1

key_of_property-IsFlat :
    (prop : Node) (st : BuildState) → IsFlat st.built → IsFlat (key_of_property prop st).2.built
key_of_property-IsFlat prop st h =
    let keyed =
      key_of_property-cases prop st Keyed (record { keyed_flat = h }) (record { keyed_flat = h })
        (record {
          keyed_flat =
              build_temp-IsFlat (generate_name st.counter) (child_of "key" prop) (next_state st) h;
        }) in
    keyed.keyed_flat

pub collect_keys-IsFlat :
    (ns : Nodes) (st : BuildState) → IsFlat st.built → IsFlat (collect_keys ns st).state.built
unfolding collect_keys
collect_keys-IsFlat empty st h = h
collect_keys-IsFlat (gap ns) st h = collect_keys-IsFlat ns st h
collect_keys-IsFlat (item n empty) st h = h
collect_keys-IsFlat (item n (item m ns)) st h =
    collect_keys-IsFlat (item m ns) (key_of_property n st).2 (key_of_property-IsFlat n st h)
collect_keys-IsFlat (item n (gap ns)) st h =
    collect_keys-IsFlat (gap ns) (key_of_property n st).2 (key_of_property-IsFlat n st h)

-- The keys that are changed leave what else holds of the properties.
module _ (P : Node → Type 0) (kept : (v : Value) (n : Node) → P n → P (with_value "key" v n)) where
  key_of_property-kept : (prop : Node) (st : BuildState) → P prop → P (key_of_property prop st).1
  key_of_property-kept prop st h =
      let keyed =
        key_of_property-cases prop st (KeyedFit P) (record { keyed_fit = h })
          (record { keyed_fit = h })
          (record {
            keyed_fit = kept (child (create_identifier (generate_name st.counter))) prop h;
          }) in
      keyed.keyed_fit

  pub collect_keys-EachProperty :
      (ns : Nodes) (st : BuildState)
      → EachProperty P ns
      → EachProperty P (collect_keys ns st).properties
  unfolding collect_keys
  collect_keys-EachProperty empty st h = tt
  collect_keys-EachProperty (gap ns) st h = collect_keys-EachProperty ns st h
  collect_keys-EachProperty (item n empty) st h = h
  collect_keys-EachProperty (item n (item m ns)) st (h, k) = (
    key_of_property-kept n st h,
    collect_keys-EachProperty (item m ns) (key_of_property n st).2 k,
  )
  collect_keys-EachProperty (item n (gap ns)) st (h, k) =
      (key_of_property-kept n st h, collect_keys-EachProperty (gap ns) (key_of_property n st).2 k)
