-- ===== src/Router/Registered.antt =====
-- Routes that are registered, and unregistered again.
use testcafe_hammerhead.Common.{
  ℕ, ◌≡◌, refl, ap, ◌∙◌, true, false, Option, none, some, map, List, [], ◌∷◌, ◌++◌, any_of, arith,
  if-elim, Option-cases, inl, inr,
}
use testcafe_hammerhead.Common.Chars.{Text, split_on}
use testcafe_hammerhead.Charset.Names.{text_eq_refl}
use testcafe_hammerhead.Router.{
  Handler, static_content, function, Route, Re, RouteWithParams, Router, get_route, set_route,
  delete_route, route_name, is_route_with_params, prepare_param_info, new_route_with_params,
  register_route, unregister_route, unregister_route_with_params, re_source, same_names, same_route,
  Exec, exec_re, is_plain_route, parts_of, route_with_params, route_request, Routed,
  handle_with_params, not_routed, build_route_params_map, put_route,
}
use testcafe_hammerhead.Router.Matches.{Fills, exec_re_iff}

same_names_refl : (names : List Text) → same_names names names ≡ true
same_names_refl [] = refl
same_names_refl (t ∷ ts) = rw (text_eq_refl t, same_names_refl ts) refl

delete_route-unknown :
    (name : Text) (l : List (Text × Route)) → get_route name l ≡ none → delete_route name l ≡ l
delete_route-unknown name [] h = refl
delete_route-unknown name ((key, route) ∷ l) h = ground (arith, h, delete_route-unknown name l)

delete_route-set_route :
    (name : Text) (route : Route) (l : List (Text × Route))
    → get_route name l ≡ none
    → delete_route name (set_route name route l) ≡ l
delete_route-set_route name route [] h = rw (text_eq_refl name) refl
delete_route-set_route name route ((key, old) ∷ l) h =
    ground (arith, h, delete_route-set_route name route l)

unregister-append :
    (info : List Text × Re) (new : RouteWithParams) (l : List RouteWithParams)
    → same_route info new ≡ true
    → any_of (same_route info) l ≡ false
    → unregister_route_with_params info (l ++ new ∷ []) ≡ l
unfolding unregister_route_with_params
unregister-append info new [] s h = rw s refl
unregister-append info new (route ∷ l) s h = ground (arith, s, h, unregister-append info new l s)

-- The expression and the names of a route.
abbrev pub info_of : Text → Text → List Text × Re
info_of route method = prepare_param_info (split_on b'/' route) method

-- Neither the routes nor those with parameters have this one.
pub record IsNew (route method : Text) (r : Router) : Type 0 where
  pub no_route : get_route (route_name method route) r.routes ≡ none
  pub no_route_with_params : any_of (same_route (info_of route method)) r.routes_with_params ≡ false

unregister-unknown :
    (info : List Text × Re) (l : List RouteWithParams)
    → any_of (same_route info) l ≡ false
    → unregister_route_with_params info l ≡ l
unfolding unregister_route_with_params
unregister-unknown info [] h = refl
unregister-unknown info (x ∷ l) h = ground (arith, h, unregister-unknown info l)

same_route-new :
    (route method : Text) (f : ℕ)
    → same_route (info_of route method) (new_route_with_params (split_on b'/' route) method f)
      ≡ true
unfolding new_route_with_params
same_route-new route method f =
    rw
      (
        text_eq_refl (re_source (prepare_param_info (split_on b'/' route) method).1),
        same_names_refl (prepare_param_info (split_on b'/' route) method).0,
      )
      refl

router_of : List (Text × Route) → List RouteWithParams → Router
router_of routes with_params = record { routes = routes; routes_with_params = with_params }

module _ (route method : Text) (r : Router) (new : IsNew route method r) where
  unregister-put :
      (x : Route) → unregister_route route method (put_route (route_name method route) x r) ≡ r
  unfolding unregister_route router_of
  unregister-put x =
      let routes = delete_route-set_route (route_name method route) x r.routes new.no_route in
      let others =
        unregister-unknown (info_of route method) r.routes_with_params new.no_route_with_params in
      if-elim
        (λ l.
          router_of
            (delete_route (route_name method route)
              (set_route (route_name method route) x r.routes))
            l
          ≡ r)
        (is_route_with_params route)
        (unregister_route_with_params (info_of route method) r.routes_with_params)
        r.routes_with_params (λ e i. router_of (routes i) (others i))
        (λ e i. router_of (routes i) r.routes_with_params)

  unregister-push :
      (f : ℕ)
      → is_route_with_params route ≡ true
      → unregister_route route method (record r {
        routes_with_params =
            r.routes_with_params ++ new_route_with_params (split_on b'/' route) method f ∷ [];
      })
        ≡ r
  unfolding unregister_route router_of
  unregister-push f e =
      let routes = delete_route-unknown (route_name method route) r.routes new.no_route in
      let others =
        unregister-append (info_of route method)
          (new_route_with_params (split_on b'/' route) method f) r.routes_with_params
          (same_route-new route method f) new.no_route_with_params in
      rw e (λ i. router_of (routes i) (others i))

-- A route that was not registered before and is registered, whatever its handler, and then
-- unregistered leaves the router as it was.
pub unregister_route-register_route :
    (route method : Text) (handler : Handler) (r : Router)
    → IsNew route method r
    → unregister_route route method (register_route route method handler r) ≡ r
unfolding register_route
unregister_route-register_route route method (static_content content) r new =
    unregister-put route method r new _
unregister_route-register_route route method (function f) r new =
    if-elim (λ s. unregister_route route method s ≡ r) (is_route_with_params route)
      (record r {
        routes_with_params =
            r.routes_with_params ++ new_route_with_params (split_on b'/' route) method f ∷ [];
      })
      (put_route (route_name method route) (record { handler = function f; is_static = false }) r)
      (λ e. unregister-push route method r new f e) (λ e. unregister-put route method r new _)

module _ (exec : Exec) where
  route-append :
      (l : List RouteWithParams) (new : RouteWithParams) (query : Text)
      (values : List (Option Text))
      → route_with_params exec l query ≡ not_routed
      → exec_re exec new.re query ≡ some values
      → route_with_params exec (l ++ new ∷ []) query
        ≡ handle_with_params new.handler (build_route_params_map values new.param_names)
  unfolding route_with_params
  route-append [] new query values n m = ground (arith, m)
  route-append (x ∷ l) new query values n m = ground (arith, n, m, route-append l new query values)

  unrouted :
      (r : Router) (method path : Text)
      → get_route (route_name method path) r.routes ≡ none
      → route_request exec r method path
        ≡ route_with_params exec r.routes_with_params (route_name method path)
  unfolding route_request
  unrouted r method path g = rw (g, route_request) refl

-- What a request is given to a handler with: values of the parameters that make the query out of
-- the route.
pub record Handled (route method query : Text) (f : ℕ) (routed : Routed) : Type 0 where
  pub values : List Text
  pub fills : Fills (parts_of (split_on b'/' route) method) values query
  pub handled :
      routed
      ≡ handle_with_params f (build_route_params_map (map some values) (info_of route method).0)

-- A function that is registered for a route with parameters handles every request whose method and
-- path come from the route by values of its parameters, and is given such values by name, provided
-- that neither the method nor a token that is no parameter has a character that is special in
-- expressions, that no route was registered for this very path, nor one with parameters before that
-- matches.
pub route_request-register_route :
    (exec : Exec) (route method path : Text) (f : ℕ) (r : Router) (values : List Text)
    → is_route_with_params route ≡ true
    → is_plain_route (split_on b'/' route) method ≡ true
    → get_route (route_name method path) r.routes ≡ none
    → route_with_params exec r.routes_with_params (route_name method path) ≡ not_routed
    → Fills (parts_of (split_on b'/' route) method) values (route_name method path)
    → Handled route method
        (route_name method path)
        f
        (route_request exec (register_route route method (function f) r) method path)
unfolding register_route route_request
route_request-register_route exec route method path f r values e plain g n fills =
    let q = route_name method path in
    let iff = exec_re_iff exec (split_on b'/' route) method q plain in
    elim (Option-cases (exec_re exec (info_of route method).1 q)) [
      | inl k ↦ absurd (iff.1 values fills k)
      | inr (found, k) ↦
          let (texts, same, filled) = iff.0 found k in
          record {
            values = texts;
            fills = filled;
            handled = rw e (
                unrouted exec
                  (record r {
                    routes_with_params =
                        r.routes_with_params
                        ++ new_route_with_params (split_on b'/' route) method f ∷ [];
                  })
                  method path g
                ∙ route-append exec r.routes_with_params
                    (new_route_with_params (split_on b'/' route) method f) q found n k
                ∙ ap
                    (λ vs.
                      handle_with_params f (build_route_params_map vs (info_of route method).0))
                    same);
          }
    ]
