-- ===== src/Router/Matches.antt =====
-- What a route with parameters matches.
use mathlib.Core.List.{append_assoc}
use mathlib.Core.Option
use testcafe_hammerhead.Common.{
  ℕ, ◌≡◌, refl, sym, ap, ◌∙◌, ◌≢◌, true, false, Option, none, some, List, [], ◌∷◌, ◌++◌, map,
  ==_iff, arith, Bool-cases, Option-cases, inl, inr,
}
use testcafe_hammerhead.Common.Chars.{Text}
use testcafe_hammerhead.Charset.Labels.{is_space}
use testcafe_hammerhead.Router.{
  RePart, literal, group, strip, match_group, match_re, is_param, Exec, exec_re, parts_of, re_of,
  is_plain_route, prepare_param_info,
}

-- The texts that an expression describes: the literals as they stand, and for each group a value
-- of one character at least, without white space.
abbrev pub Fills : List RePart → List Text → Text → Type 0
Fills [] values s = (values ≡ []) × (s ≡ [])
Fills (literal t ∷ ps) values s = (rest : Text) × (s ≡ t ++ rest) × Fills ps values rest
Fills (group ∷ ps) values s =
    (value : Text) × (others : List Text) × (rest : Text) × (values ≡ value ∷ others)
    × (is_param value ≡ true)
    × (s ≡ value ++ rest)
    × Fills ps others rest

strip-append : (t s rest : Text) → strip t s ≡ some rest → s ≡ t ++ rest
strip-append [] s rest e = cc
strip-append (c ∷ t) [] rest e = absurd (cc)
strip-append (c ∷ t) (a ∷ s) rest e = ground (arith, strip-append t s rest, ==_iff a c)

strip-of_append : (t rest : Text) → strip t (t ++ rest) ≡ some rest
strip-of_append [] rest = refl
strip-of_append (c ∷ t) rest = ground (arith, strip-of_append t rest, ==_iff c c)

some_inj : (x y : List Text) → some x ≡ some y → x ≡ y
some_inj x y e = cc

not_none : (x : List Text) → some x ≡ none → ⊥
not_none x e = cc

-- What a group has matched: its value, and the rest, which the other parts match.
record GroupMatched (match : Text → Option (List Text)) (taken s : Text) (values : List Text)
    : Type 0 where
  value : Text
  others : List Text
  rest : Text
  values_eq : values ≡ (taken ++ value) ∷ others
  value_is_param : is_param value ≡ true
  text_eq_parts : s ≡ value ++ rest
  rest_matches : match rest ≡ some others

longer :
    (match : Text → Option (List Text)) (taken s : Text) (values : List Text) (c : ℕ)
    → is_space c ≡ false
    → GroupMatched match (taken ++ c ∷ []) s values
    → GroupMatched match taken (c ∷ s) values
longer match taken s values c n m = record {
  value = c ∷ m.value;
  others = m.others;
  rest = m.rest;
  values_eq = m.values_eq ∙ ap (λ v. v ∷ m.others) (append_assoc taken (c ∷ []) m.value);
  value_is_param = ground (arith, n, m.value_is_param);
  text_eq_parts = ap (λ u. c ∷ u) m.text_eq_parts;
  rest_matches = m.rest_matches;
}

module _ (match : Text → Option (List Text)) (taken : Text) (c : ℕ) (s : Text) where
  spaced :
      (values : List Text) → is_space c ≡ true → match_group match taken (c ∷ s) ≡ some values → ⊥
  unfolding match_group
  spaced values w e = ground (arith, w, e)

  skipped :
      is_space c ≡ false
      → match s ≡ none
      → match_group match taken (c ∷ s) ≡ match_group match (taken ++ c ∷ []) s
  unfolding match_group
  skipped w k = rw (w, k) refl

  matched :
      (others : List Text)
      → is_space c ≡ false
      → match s ≡ some others
      → match_group match taken (c ∷ s) ≡ some ((taken ++ c ∷ []) ∷ others)
  unfolding match_group
  matched others w k = rw (w, k) refl

match_group-GroupMatched :
    (match : Text → Option (List Text)) (taken s : Text) (values : List Text)
    → match_group match taken s ≡ some values
    → GroupMatched match taken s values
unfolding match_group
match_group-GroupMatched match taken [] values e = absurd (cc)
match_group-GroupMatched match taken (c ∷ s) values e = elim (Bool-cases (is_space c)) [
  | inl w ↦ absurd (spaced match taken c s values w e)
  | inr w ↦ elim (Option-cases (match s)) [
    | inl k ↦ longer match taken s values c w (
        match_group-GroupMatched match (taken ++ c ∷ []) s values
          (sym (skipped match taken c s w k) ∙ e))
    | inr (others, k) ↦ record {
      value = c ∷ [];
      others = others;
      rest = s;
      values_eq = some_inj values _ (sym e ∙ matched match taken c s others w k);
      value_is_param = ground (arith, w);
      text_eq_parts = refl;
      rest_matches = k;
    }
  ]
]

module _ (match : Text → Option (List Text)) (rest : Text) (rest_matches : match rest ≢ none) where
  match_group-found :
      (taken value : Text) → is_param value ≡ true → match_group match taken (value ++ rest) ≢ none
  match_group-found taken [] p = absurd (cc)
  match_group-found taken (c ∷ []) p = elim (Option-cases (match rest)) [
    | inl k ↦ absurd (rest_matches k)
    | inr (others, k) ↦
        λ e. absurd (not_none _ (sym (matched match taken c rest others (ground (arith, p)) k) ∙ e))
  ]
  match_group-found taken (c ∷ d ∷ value) p = elim (Option-cases (match (d ∷ value ++ rest))) [
    | inl k ↦ λ e.
        match_group-found (taken ++ c ∷ []) (d ∷ value) (ground (arith, p))
          (sym (skipped match taken c (d ∷ value ++ rest) (ground (arith, p)) k) ∙ e)
    | inr (others, k) ↦ λ e. absurd (
        not_none _
          (sym (matched match taken c (d ∷ value ++ rest) others (ground (arith, p)) k) ∙ e))
  ]

literal_none :
    (t : Text) (ps : List RePart) (s : Text) → strip t s ≡ none → match_re (literal t ∷ ps) s ≡ none
unfolding match_re
literal_none t ps s k = rw (k, match_re) refl

literal_some :
    (t : Text) (ps : List RePart) (s rest : Text)
    → strip t s ≡ some rest
    → match_re (literal t ∷ ps) s ≡ match_re ps rest
unfolding match_re
literal_some t ps s rest k = ground (arith, k)

match_re-Fills :
    (ps : List RePart) (s : Text) (values : List Text)
    → match_re ps s ≡ some values
    → Fills ps values s
unfolding match_re
match_re-Fills [] [] values e = (sym (some_inj [] values e), refl)
match_re-Fills [] (c ∷ s) values e = absurd (cc)
match_re-Fills (literal t ∷ ps) s values e = elim (Option-cases (strip t s)) [
  | inl k ↦ absurd (not_none values (sym e ∙ literal_none t ps s k))
  | inr (rest, k) ↦ (
    rest,
    strip-append t s rest k,
    match_re-Fills ps rest values (sym (literal_some t ps s rest k) ∙ e),
  )
]
match_re-Fills (group ∷ ps) s values e =
    let m = match_group-GroupMatched (match_re ps) [] s values e in
    (
      m.value,
      m.others,
      m.rest,
      m.values_eq,
      m.value_is_param,
      m.text_eq_parts,
      match_re-Fills ps m.rest m.others m.rest_matches,
    )

match_re-found :
    (ps : List RePart) (s : Text) (values : List Text) → Fills ps values s → match_re ps s ≢ none
unfolding match_re
match_re-found [] s values (e, f) = rw f (λ h. absurd (not_none [] h))
match_re-found (literal t ∷ ps) s values (rest, e, f) = rw e (λ h.
    match_re-found ps rest values f
      (sym (literal_some t ps (t ++ rest) rest (strip-of_append t rest)) ∙ h))
match_re-found (group ∷ ps) s values (value, others, rest, e, p, f, g) =
    rw f (match_group-found (match_re ps) rest (match_re-found ps rest others g) [] value p)

-- What plain parts match: exactly the texts that `Fills` describes.
pub match_re_iff :
    (ps : List RePart) (s : Text)
    → ((values : List Text) → match_re ps s ≡ some values → Fills ps values s)
      × ((values : List Text) → Fills ps values s → match_re ps s ≢ none)
match_re_iff ps s = (match_re-Fills ps s, match_re-found ps s)

some_values_inj : (x y : List (Option Text)) → some x ≡ some y → x ≡ y
some_values_inj x y e = cc

no_values : (x : List (Option Text)) → none ≡ some x → ⊥
no_values x e = cc

module _ (exec : Exec) (tokens : List Text) (method : Text)
    (plain : is_plain_route tokens method ≡ true) where
  exec_re-plain :
      (s : Text)
      → exec_re exec (prepare_param_info tokens method).1 s
        ≡ Option.map (map some) (match_re (parts_of tokens method) s)
  unfolding prepare_param_info re_of exec_re
  exec_re-plain s = rw plain refl

-- The expression of a route, where neither its method nor a token that is no parameter has a
-- character that is special in expressions, matches exactly the texts that come about when each
-- parameter is given a value of one character at least and without white space, and the values that
-- it gives are such values.
pub exec_re_iff :
    (exec : Exec) (tokens : List Text) (method s : Text)
    → is_plain_route tokens method ≡ true
    → ((values : List (Option Text))
        → exec_re exec (prepare_param_info tokens method).1 s ≡ some values
        → (texts : List Text) × (values ≡ map some texts) × Fills (parts_of tokens method) texts s)
      × ((texts : List Text)
          → Fills (parts_of tokens method) texts s
          → exec_re exec (prepare_param_info tokens method).1 s ≢ none)
exec_re_iff exec tokens method s plain =
    let ps = parts_of tokens method in
    let e = exec_re-plain exec tokens method plain s in
    elim (Option-cases (match_re ps s)) [
      | inl k ↦ (
        λ values h. absurd (no_values values (sym (e ∙ ap (Option.map (map some)) k) ∙ h)),
        λ texts fills. absurd ((match_re_iff ps s).1 texts fills k),
      )
      | inr (texts, k) ↦ (
        λ values h. (
          texts,
          some_values_inj values (map some texts) (sym h ∙ e ∙ ap (Option.map (map some)) k),
          (match_re_iff ps s).0 texts k,
        ),
        λ others fills h.
            absurd (no_values (map some texts) (sym h ∙ e ∙ ap (Option.map (map some)) k)),
      )
    ]
