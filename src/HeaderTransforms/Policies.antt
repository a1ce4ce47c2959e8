-- ===== src/HeaderTransforms/Policies.antt =====
-- What the headers of requests and responses are, whatever comes in.
use testcafe_hammerhead.Common.{
  ℕ, ◌≡◌, refl, ap, ◌∙◌, Bool, true, false, Option, none, some, List, [], ◌∷◌, if◌then◌else◌,
  if-elim, clash, All,
}
use testcafe_hammerhead.Common.Chars.{Text, codes}
use testcafe_hammerhead.HeaderTransforms.{get, is_there, transformed}
use testcafe_hammerhead.HeaderTransforms.Prefixes.{
  add_authorization_prefix, has_authorization_prefix, transform_authorization_header,
  prefixes_removed,
}
use testcafe_hammerhead.HeaderTransforms.Transformed.{get-transform_headers, given, forced, or_kept}
use testcafe_hammerhead.HeaderTransforms.Transforms.{
  Value, text, texts, RequestInfo, ResponseInfo, on_text, as_text, non_empty, or_undefined,
  is_truthy, request_transforms, forced_request_transforms, forced_cookie, for_request,
  response_transforms, forced_response_transforms, for_response,
}

abbrev pub security_policy_names : List Text
security_policy_names =
    codes "content-security-policy"
    ∷ codes "content-security-policy-report-only"
    ∷ codes "x-content-security-policy"
    ∷ codes "x-content-security-policy-report-only"
    ∷ codes "x-webkit-csp"
    ∷ []

none_either : (b : Bool) → ◌≡◌ {A = Option Value} (if b then none else none) none
none_either true = refl
none_either false = refl

there_or_none : (o : Option Value) → (if is_there o then o else none) ≡ o
there_or_none none = refl
there_or_none (some v) = refl

kept_alone : (o : Option Value) → or_kept o none ≡ o
kept_alone none = refl
kept_alone (some v) = refl

module _ (ctx : ResponseInfo) where
  get-for_response :
      (name : Text)
      → get name (for_response ctx)
        ≡ forced ctx name forced_response_transforms
            (given ctx name ctx.headers response_transforms)
  unfolding for_response forced_response_transforms
  get-for_response name =
      get-transform_headers ctx ctx.headers response_transforms forced_response_transforms name
        (refl, (refl, (refl, tt)))

  -- None of the five headers `content-security-policy`, `content-security-policy-report-only`,
  -- `x-content-security-policy`, `x-content-security-policy-report-only` and `x-webkit-csp` reaches the
  -- browser, and its `set-cookie` is what the proxy makes of the site's, be there one or not.
  pub for_response-security :
      (get (codes "set-cookie") (for_response ctx)
        ≡ some (texts (ctx.sync_cookies (get (codes "set-cookie") ctx.headers))))
      × All (λ name. get name (for_response ctx) ≡ none) security_policy_names
  unfolding response_transforms forced_response_transforms
  for_response-security = (
    get-for_response (codes "set-cookie")
        ∙ ap (λ o. some (texts (ctx.sync_cookies o)))
            (there_or_none (get (codes "set-cookie") ctx.headers)),
    (
      dropped (codes "content-security-policy") refl refl,
      (
        dropped (codes "content-security-policy-report-only") refl refl,
        (
          dropped (codes "x-content-security-policy") refl refl,
          (
            dropped (codes "x-content-security-policy-report-only") refl refl,
            (dropped (codes "x-webkit-csp") refl refl, tt),
          ),
        ),
      ),
    ),
  )
    where
      dropped :
          (name : Text)
          → is_there (get name forced_response_transforms) ≡ false
          → transformed ctx (get name response_transforms) (get name ctx.headers) ≡ none
          → get name (for_response ctx) ≡ none
      dropped name unforced skipped =
          get-for_response name
          ∙ ap
              (λ b.
                if b
                then or_kept
                    (transformed ctx (get name forced_response_transforms)
                      (given ctx name ctx.headers response_transforms))
                    (given ctx name ctx.headers response_transforms)
                else given ctx name ctx.headers response_transforms)
              unforced
          ∙ ap (λ o. if is_there (get name ctx.headers) then o else none) skipped
          ∙ none_either (is_there (get name ctx.headers))

unprefixed :
    (value : Text)
    → has_authorization_prefix value ≡ false
    → transform_authorization_header value ≡ none
unfolding transform_authorization_header
unprefixed value p =
    if-elim (λ o. o ≡ none) (has_authorization_prefix value) _ _
      (λ t. absurd (clash (has_authorization_prefix value) t p)) (λ f. refl)

module _ (ctx : RequestInfo) where
  get-for_request :
      (name : Text)
      → get name (for_request ctx)
        ≡ forced ctx name forced_request_transforms (given ctx name ctx.headers request_transforms)
  unfolding for_request
  get-for_request name =
      get-transform_headers ctx ctx.headers request_transforms forced_request_transforms name
        (refl, tt)

  get-for_request_cookie : get (codes "cookie") (for_request ctx) ≡ forced_cookie none ctx
  unfolding forced_cookie
  get-for_request_cookie =
      get-for_request (codes "cookie")
      ∙ ap (λ o. or_kept (forced_cookie o ctx) o)
          (none_either (is_there (get (codes "cookie") ctx.headers)))
      ∙ kept_alone (forced_cookie none ctx)

  -- A request that has a non-empty `is-api-request` header is sent with the non-empty cookie header
  -- that it has, and without one if it has none. Any other request is sent without cookies where
  -- credentials are omitted, else with the text that the session's jar gives, if it is not empty,
  -- whatever cookies the browser sends. An authorization that starts with the prefix of the proxy's
  -- scripts is sent without the prefix, and one that does not have the prefix is dropped.
  pub for_request-credentials :
      (m c : ℕ) (marker cookie value : Text)
      → (get (codes "is-api-request") ctx.headers ≡ some (text (m ∷ marker))
          → get (codes "cookie") ctx.headers ≡ some (text (c ∷ cookie))
          → get (codes "cookie") (for_request ctx) ≡ some (text (c ∷ cookie)))
        × (get (codes "is-api-request") ctx.headers ≡ some (text (m ∷ marker))
            → get (codes "cookie") ctx.headers ≡ none
            → get (codes "cookie") (for_request ctx) ≡ none)
        × (get (codes "is-api-request") ctx.headers ≡ none
            → ctx.omits_credentials ≡ true
            → get (codes "cookie") (for_request ctx) ≡ none)
        × (get (codes "is-api-request") ctx.headers ≡ none
            → ctx.omits_credentials ≡ false
            → ctx.cookie_header ≡ c ∷ cookie
            → get (codes "cookie") (for_request ctx) ≡ some (text (c ∷ cookie)))
        × (get (codes "is-api-request") ctx.headers ≡ none
            → ctx.omits_credentials ≡ false
            → ctx.cookie_header ≡ []
            → get (codes "cookie") (for_request ctx) ≡ none)
        × (get (codes "authorization") ctx.headers ≡ some (text (add_authorization_prefix value))
            → get (codes "authorization") (for_request ctx) ≡ some (text value))
        × (get (codes "authorization") ctx.headers ≡ some (text value)
            → has_authorization_prefix value ≡ false
            → get (codes "authorization") (for_request ctx) ≡ none)
  unfolding forced_cookie
  for_request-credentials m c marker cookie value = (
    λ a b. get-for_request_cookie ∙ forced_by_api (text (m ∷ marker)) refl a ∙ ap or_undefined b,
    λ a b. get-for_request_cookie ∙ forced_by_api (text (m ∷ marker)) refl a ∙ ap or_undefined b,
    λ a o. get-for_request_cookie ∙ forced_by_jar a o,
    λ a o j. get-for_request_cookie ∙ forced_by_jar a o ∙ ap non_empty j,
    λ a o j. get-for_request_cookie ∙ forced_by_jar a o ∙ ap non_empty j,
    λ h. authorization (add_authorization_prefix value) h ∙ ap as_text (prefixes_removed value).0,
    λ h p. authorization value h ∙ ap as_text (unprefixed value p),
  )
    where
      forced_by_api :
          (v : Value)
          → is_truthy (some v) ≡ true
          → get (codes "is-api-request") ctx.headers ≡ some v
          → forced_cookie none ctx ≡ or_undefined (get (codes "cookie") ctx.headers)
      forced_by_api v t a =
          ap
            (λ b.
              if b
              then or_undefined (get (codes "cookie") ctx.headers)
              else if ctx.omits_credentials
              then none
              else non_empty ctx.cookie_header)
            (ap is_truthy a ∙ t)

      forced_by_jar :
          {b : Bool}
          → get (codes "is-api-request") ctx.headers ≡ none
          → ctx.omits_credentials ≡ b
          → forced_cookie none ctx ≡ (if b then none else non_empty ctx.cookie_header)
      forced_by_jar a o =
          ap
            (λ b.
              if b
              then or_undefined (get (codes "cookie") ctx.headers)
              else if ctx.omits_credentials
              then none
              else non_empty ctx.cookie_header)
            (ap is_truthy a)
          ∙ ap (λ b. if b then none else non_empty ctx.cookie_header) o

      authorization :
          (src : Text)
          → get (codes "authorization") ctx.headers ≡ some (text src)
          → get (codes "authorization") (for_request ctx)
            ≡ as_text (transform_authorization_header src)
      authorization src h =
          get-for_request (codes "authorization")
          ∙ ap
              (λ o.
                if is_there o
                then on_text (λ src ctx. transform_authorization_header src) o ctx
                else none)
              h
