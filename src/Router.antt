-- ===== src/Router.antt =====
-- proxy/router.ts: the routes of the proxy, and the handler that a request is given to.
--
-- Functions and contents are compared by identity only, so they are numbers. The tokens of a route
-- with parameters stand in its expression as they are. Where they and the method have no characters
-- that are special in expressions, the expression is the list of its parts, and is matched here;
-- otherwise it is its source text, and `exec`, what the language's RegExp finds for it, is a
-- parameter. That RegExp throws for a source that is no expression is left out. How contents are
-- processed and tagged is outside.
pub mod Matches
pub mod Registered
mod Tests
use mathlib.Core.Option
use testcafe_hammerhead.Common.{
  ℕ, Bool, true, false, ◌&&◌, ◌||◌, not, Option, none, some, List, [], ◌∷◌, ◌++◌, ◌==◌, any_of, map,
  if◌then◌else◌,
}
use testcafe_hammerhead.Common.Chars.{Text, codes, text_eq, split_on, is_empty}
use testcafe_hammerhead.Charset.Labels.{is_space}

pub data Handler : Type 0 where
  static_content function : ℕ → Handler

pub record Route : Type 0 where
  pub handler : Handler
  pub is_static : Bool

-- `(\S+?)`, or the text itself.
pub data RePart : Type 0 where
  literal : Text → RePart
  group : RePart

-- An expression between `^` and `$`: plain text and groups, or the source of any other.
pub data Re : Type 0 where
  parts : List RePart → Re
  source : Text → Re

-- What RegExp gives for a source and a text: the values of the groups, `none` for `undefined`.
abbrev pub Exec : Type 0
Exec = Text → Text → Option (List (Option Text))

pub record RouteWithParams : Type 0 where
  pub handler : ℕ
  pub param_names : List Text
  pub re : Re

pub record Router : Type 0 where
  pub routes : List (Text × Route)
  pub routes_with_params : List RouteWithParams

-- A text without its last character, if that is the given one.
abbrev pub before_last : ℕ → Text → Option Text
before_last c [] = none
before_last c (a ∷ []) = if a == c then some [] else none
before_last c (a ∷ b ∷ s) = elim (before_last c (b ∷ s)) [ none ↦ none | some t ↦ some (a ∷ t) ]

abbrev pub is_param : Text → Bool
is_param name = not (is_empty name) && not (any_of is_space name)

-- `token.match(PARAM_RE)`: a name in braces.
unfoldable pub param_name : Text → Option Text
param_name [] = none
param_name (c ∷ s) =
    if c == b'{'
    then elim (before_last b'}' s) [
      | none ↦ none
      | some name ↦ if is_param name then some name else none
    ]
    else none

unfoldable pub has_param : Text → Bool
unfolding param_name
has_param token = elim (param_name token) [ none ↦ false | some name ↦ true ]

unfoldable pub names_of_params : List Text → List Text
unfolding param_name
names_of_params [] = []
names_of_params (token ∷ tokens) = elim (param_name token) [
  | none ↦ names_of_params tokens
  | some name ↦ name ∷ names_of_params tokens
]

unfoldable pub part_of : Text → RePart
unfolding param_name
part_of token = elim (param_name token) [ none ↦ literal token | some name ↦ group ]

-- `reParts.join('/')`
unfoldable pub join_parts : List Text → List RePart
unfolding part_of
join_parts [] = []
join_parts (token ∷ []) = part_of token ∷ []
join_parts (token ∷ next ∷ tokens) =
    part_of token ∷ literal (codes "/") ∷ join_parts (next ∷ tokens)

-- `^$\.*+?()[]{}|`
abbrev pub is_special : ℕ → Bool
is_special c = c == 92 || any_of (λ d. c == d) (codes "^$.*+?()[]{}|")

abbrev pub has_special : Text → Bool
has_special token = any_of is_special token

unfoldable pub has_special_token : List Text → Bool
unfolding has_param
has_special_token tokens = any_of (λ token. not (has_param token) && has_special token) tokens

unfoldable pub parts_of : List Text → Text → List RePart
unfolding join_parts
parts_of tokens method = literal (method ++ codes " ") ∷ join_parts tokens

abbrev pub source_of : List RePart → Text
source_of [] = []
source_of (literal t ∷ ps) = t ++ source_of ps
source_of (group ∷ ps) = codes "(" ++ 92 ∷ codes "S+?)" ++ source_of ps

-- Neither the method nor a token that is no parameter has a special character.
unfoldable pub is_plain_route : List Text → Text → Bool
unfolding has_special_token
is_plain_route tokens method = not (has_special method) && not (has_special_token tokens)

-- `new RegExp(…)`
unfoldable pub re_of : List Text → Text → Re
unfolding parts_of is_plain_route
re_of tokens method =
    if is_plain_route tokens method
    then parts (parts_of tokens method)
    else source (source_of (parts_of tokens method))

unfoldable pub prepare_param_info : List Text → Text → List Text × Re
unfolding names_of_params re_of
prepare_param_info tokens method = (names_of_params tokens, re_of tokens method)

abbrev pub get_route : Text → List (Text × Route) → Option Route
get_route name [] = none
get_route name ((key, route) ∷ rest) = if text_eq key name then some route else get_route name rest

abbrev pub set_route : Text → Route → List (Text × Route) → List (Text × Route)
set_route name route [] = (name, route) ∷ []
set_route name route ((key, old) ∷ rest) =
    if text_eq key name then (key, route) ∷ rest else (key, old) ∷ set_route name route rest

abbrev pub delete_route : Text → List (Text × Route) → List (Text × Route)
delete_route name [] = []
delete_route name ((key, old) ∷ rest) =
    if text_eq key name then rest else (key, old) ∷ delete_route name rest

abbrev pub route_name : Text → Text → Text
route_name method route = method ++ codes " " ++ route

unfoldable pub is_route_with_params : Text → Bool
unfolding has_param
is_route_with_params route = any_of has_param (split_on b'/' route)

unfoldable pub new_route_with_params : List Text → Text → ℕ → RouteWithParams
unfolding prepare_param_info
new_route_with_params tokens method handler = record {
  handler = handler;
  param_names = (prepare_param_info tokens method).0;
  re = (prepare_param_info tokens method).1;
}

abbrev pub put_route : Text → Route → Router → Router
put_route name route r = record r { routes = set_route name route r.routes }

unfoldable pub register_route : Text → Text → Handler → Router → Router
unfolding is_route_with_params new_route_with_params
register_route route method (static_content content) r =
    put_route (route_name method route)
      (record { handler = static_content content; is_static = true }) r
register_route route method (function f) r =
    if is_route_with_params route
    then record r {
      routes_with_params =
          r.routes_with_params ++ new_route_with_params (split_on b'/' route) method f ∷ [];
    }
    else put_route (route_name method route) (record { handler = function f; is_static = false }) r

abbrev pub re_source : Re → Text
re_source (parts ps) = source_of ps
re_source (source s) = s

-- `isEqual` compares expressions by their source.
abbrev pub same_re : Re → Re → Bool
same_re a b = text_eq (re_source a) (re_source b)

abbrev pub same_names : List Text → List Text → Bool
same_names [] [] = true
same_names (s ∷ ss) (t ∷ ts) = text_eq s t && same_names ss ts
same_names _ _ = false

abbrev pub same_route : List Text × Re → RouteWithParams → Bool
same_route info route = same_re route.re info.1 && same_names route.param_names info.0

-- The first of the routes with this expression and these names is taken out.
unfoldable pub unregister_route_with_params :
    List Text × Re → List RouteWithParams → List RouteWithParams
unregister_route_with_params info [] = []
unregister_route_with_params info (route ∷ routes) =
    let others = unregister_route_with_params info routes in
    if same_route info route then routes else route ∷ others

unfoldable pub unregister_route : Text → Text → Router → Router
unfolding is_route_with_params prepare_param_info unregister_route_with_params
unregister_route route method r = record {
  routes = delete_route (route_name method route) r.routes;
  routes_with_params =
      if is_route_with_params route
      then unregister_route_with_params (prepare_param_info (split_on b'/' route) method)
          r.routes_with_params
      else r.routes_with_params;
}

-- What is left of a text behind its beginning.
abbrev pub strip : Text → Text → Option Text
strip [] s = some s
strip (c ∷ t) [] = none
strip (c ∷ t) (a ∷ s) = let rest = strip t s in if a == c then rest else none

-- A group takes as few characters as it can, one at least, and none that is white space.
unfoldable pub match_group : (Text → Option (List Text)) → Text → Text → Option (List Text)
match_group match taken [] = none
match_group match taken (c ∷ s) =
    let more = match_group match (taken ++ c ∷ []) s in
    if is_space c
    then none
    else elim (match s) [ none ↦ more | some values ↦ some ((taken ++ c ∷ []) ∷ values) ]

-- The values of the groups, where the whole text matches.
unfoldable pub match_re : List RePart → Text → Option (List Text)
unfolding match_group
match_re [] [] = some []
match_re [] (c ∷ s) = none
match_re (literal t ∷ ps) s = elim (strip t s) [ none ↦ none | some rest ↦ match_re ps rest ]
match_re (group ∷ ps) s = match_group (match_re ps) [] s

unfoldable pub exec_re : Exec → Re → Text → Option (List (Option Text))
unfolding match_re
exec_re exec (parts ps) s = Option.map (map some) (match_re ps s)
exec_re exec (source re) s = exec re s

-- `buildRouteParamsMap`: the assignments that it makes, in their order.
abbrev pub build_route_params_map : List (Option Text) → List Text → List (Text × Option Text)
build_route_params_map (value ∷ values) (name ∷ names) =
    (name, value) ∷ build_route_params_map values names
build_route_params_map _ _ = []

pub data Routed : Type 0 where
  respond_static handle : ℕ → Routed
  handle_with_params : ℕ → List (Text × Option Text) → Routed
  not_routed : Routed

unfoldable pub route_with_params : Exec → List RouteWithParams → Text → Routed
unfolding exec_re
route_with_params exec [] query = not_routed
route_with_params exec (r ∷ rs) query =
    let later = route_with_params exec rs query in
    elim (exec_re exec r.re query) [
      | none ↦ later
      | some values ↦ handle_with_params r.handler (build_route_params_map values r.param_names)
    ]

abbrev pub handler_id : Handler → ℕ
handler_id (static_content content) = content
handler_id (function f) = f

abbrev pub respond : Route → Routed
respond route =
    if route.is_static
    then respond_static (handler_id route.handler)
    else handle (handler_id route.handler)

-- `_route`, for a method and the path of a request.
unfoldable pub route_request : Exec → Router → Text → Text → Routed
unfolding route_with_params
route_request exec r method path = elim (get_route (route_name method path) r.routes) [
  | some route ↦ respond route
  | none ↦ route_with_params exec r.routes_with_params (route_name method path)
]
