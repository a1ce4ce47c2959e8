-- ===== src/Router/Tests.antt =====
-- The theorems on routes at a concrete router.
use testcafe_hammerhead.Common.{◌≡◌, ◌≢◌, refl, Option, none, some, map, List, [], ◌∷◌}
use testcafe_hammerhead.Common.Chars.{Text, codes, split_on}
use testcafe_hammerhead.Router.{
  static_content, function, source, Exec, exec_re, is_plain_route, parts_of, Router, register_route,
  unregister_route, route_request, route_name, handle_with_params, respond_static,
  is_route_with_params, prepare_param_info, route_with_params,
}
use testcafe_hammerhead.Router.Matches.{Fills, exec_re_iff}
use testcafe_hammerhead.Router.Registered.{
  Handled, unregister_route-register_route, route_request-register_route,
}

abbrev empty_router : Router
empty_router = record { routes = []; routes_with_params = [] }

abbrev get : Text
get = codes "GET"

-- Nothing special occurs here.
abbrev no_special : Exec
no_special re s = none

abbrev connect : Text
connect = codes "/connect/{id}/{page}"

-- The second group takes the rest of the path: nothing else is left for it to be.
connected :
    route_request no_special
      (register_route connect get (function 7) empty_router)
      get
      (codes "/connect/a1/p/q")
    ≡ handle_with_params 7
        ((codes "id", some (codes "a1")) ∷ (codes "page", some (codes "p/q")) ∷ [])
unfolding register_route route_request
connected = refl

static :
    route_request no_special
      (register_route (codes "/task.js") get (static_content 3) empty_router)
      get
      (codes "/task.js")
    ≡ respond_static 3
unfolding register_route route_request
static = refl

exec_re_iff_example :
    ((values : List (Option Text))
      → exec_re no_special
          (prepare_param_info (split_on b'/' connect) get).1
          (codes "GET /connect/a/b")
        ≡ some values
      → (texts : List Text) × (values ≡ map some texts)
        × Fills (parts_of (split_on b'/' connect) get) texts (codes "GET /connect/a/b"))
    × ((texts : List Text)
        → Fills (parts_of (split_on b'/' connect) get) texts (codes "GET /connect/a/b")
        → exec_re no_special
            (prepare_param_info (split_on b'/' connect) get).1
            (codes "GET /connect/a/b")
          ≢ none)
unfolding is_plain_route
exec_re_iff_example =
    exec_re_iff no_special (split_on b'/' connect) get (codes "GET /connect/a/b") refl

-- A token with a special character goes to RegExp as it is.
special_token :
    (prepare_param_info (codes "" ∷ codes "a.b" ∷ codes "{id}" ∷ []) get).1
    ≡ source (codes "GET /a.b/(\\S+?)")
unfolding prepare_param_info
special_token = refl

unregister_route-register_route_example :
    unregister_route connect get (register_route connect get (function 7) empty_router)
    ≡ empty_router
unregister_route-register_route_example =
    unregister_route-register_route connect get (function 7) empty_router
      (record { no_route = refl; no_route_with_params = refl })

route_request-register_route_example :
    Handled connect get (route_name get (codes "/connect/a1/p")) 7 (
      route_request no_special
        (register_route connect get (function 7) empty_router)
        get
        (codes "/connect/a1/p"))
unfolding parts_of is_plain_route is_route_with_params route_with_params
route_request-register_route_example =
    route_request-register_route no_special connect get (codes "/connect/a1/p") 7 empty_router
      (codes "a1" ∷ codes "p" ∷ []) refl refl refl refl
      (
        codes "/connect/a1/p",
        refl,
        (
          codes "/connect/a1/p",
          refl,
          (
            codes "connect/a1/p",
            refl,
            (
              codes "/a1/p",
              refl,
              (
                codes "a1/p",
                refl,
                (
                  codes "a1",
                  codes "p" ∷ [],
                  codes "/p",
                  refl,
                  refl,
                  refl,
                  (codes "p", refl, (codes "p", [], [], refl, refl, refl, (refl, refl))),
                ),
              ),
            ),
          ),
        ),
      )
