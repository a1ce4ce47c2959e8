-- ===== src/HeaderTransforms/Transforms.antt =====
-- request-pipeline/header-transforms/transforms.ts: what becomes of each header, and `forRequest` and
-- `forResponse` of index.ts beside it.
--
-- A context is what the transforms read of it. The proxy URL of a location or a frame, the rewriting
-- of a refresh header, and the cookie jar are functions that it carries.
use testcafe_hammerhead.Common.{
  ℕ, zero, Bool, true, false, not, ◌&&◌, ◌||◌, ◌==◌, Option, none, some, List, [], ◌∷◌, ◌++◌,
  if◌then◌else◌,
}
use testcafe_hammerhead.Common.Chars.{
  Text, codes, to_lower, text_eq, includes, is_empty, starts_with,
}
use testcafe_hammerhead.Charset.Labels.{trim, trim_left, is_space}
use testcafe_hammerhead.Pipeline.RequestContext.{is_special_page_url}
use testcafe_hammerhead.HeaderTransforms.{TransformOf, get, transform_headers}
use testcafe_hammerhead.HeaderTransforms.Prefixes.{
  add_authenticate_prefix, transform_authorization_header, remove_first, skip_text,
}

pub data Value : Type 0 where
  text : Text → Value
  texts : List Text → Value
  number : ℕ → Value

-- What is read for a request: `headers` are `req.headers`. An absent text is empty.
-- `omits_credentials` is what `shouldOmitCredentials` says, and `cookie_header` is what the jar gives.
pub record RequestInfo : Type 0 where
  pub headers : List (Text × Value)
  pub host : Text
  pub referer : Text
  pub req_origin : Text
  pub domain : Text
  pub body_length : ℕ
  pub restores_storages : Bool
  pub omits_credentials : Bool
  pub cookie_header : Text

-- What is read for a response: `headers` are `destRes.headers`, `sync_cookies` is
-- `processSetCookieHeader`.
pub record ResponseInfo : Type 0 where
  pub headers : List (Text × Value)
  pub is_same_origin_policy_failed : Bool
  pub req_origin : Text
  pub proxy_origin : (is_cross_domain : Bool) → Text
  pub is_iframe_with_image_src : Bool
  pub is_text_page : Bool
  pub require_processing : Bool
  pub is_redirect : Bool
  pub is_attachment : Bool
  pub is_service_worker : Bool
  pub body_length_text : Text
  pub location_proxy_url : Text → Text
  pub frame_proxy_url : Text → Text
  pub process_refresh : Text → Text
  pub sync_cookies : Option Value → List Text

abbrev pub skip : {C : Type 0} → TransformOf C Value
skip src ctx = none

-- A transform of a text; other values do not occur under these names.
abbrev pub as_text : Option Text → Option Value
as_text none = none
as_text (some t) = some (text t)

abbrev pub on_text : {C : Type 0} → (Text → C → Option Text) → TransformOf C Value
on_text f (some (text src)) ctx = as_text (f src ctx)
on_text f src ctx = src

-- The text of a header, empty where there is none.
abbrev pub text_of : Option Value → Text
text_of (some (text src)) = src
text_of src = []

-- `value || void 0`
abbrev pub or_undefined : Option Value → Option Value
or_undefined (some (text [])) = none
or_undefined (some (number zero)) = none
or_undefined value = value

-- `!!value`
abbrev pub is_truthy : Option Value → Bool
is_truthy (some (text [])) = false
is_truthy (some (number zero)) = false
is_truthy none = false
is_truthy (some value) = true

abbrev pub non_empty : Text → Option Value
non_empty [] = none
non_empty (c ∷ t) = some (text (c ∷ t))

abbrev pub first_non_empty : Text → Text → Text
first_non_empty [] b = b
first_non_empty (c ∷ a) b = c ∷ a

unfoldable pub skip_if_state_snapshot_is_applied : TransformOf RequestInfo Value
skip_if_state_snapshot_is_applied src ctx = if ctx.restores_storages then none else src

unfoldable pub transform_referer : TransformOf RequestInfo Value
unfolding is_special_page_url
transform_referer src ctx = if is_special_page_url ctx.referer then none else non_empty ctx.referer

abbrev pub request_transforms : List (Text × TransformOf RequestInfo Value)
request_transforms =
    (codes "host", λ src ctx. some (text ctx.host))
    ∷ (codes "referer", transform_referer)
    ∷ (codes "origin", λ src ctx. some (text (first_non_empty ctx.req_origin ctx.domain)))
    ∷ (codes "content-length", λ src ctx. some (number ctx.body_length))
    ∷ (codes "cookie", skip)
    ∷ (codes "if-modified-since", skip_if_state_snapshot_is_applied)
    ∷ (codes "if-none-match", skip_if_state_snapshot_is_applied)
    ∷ (codes "authorization", on_text (λ src ctx. transform_authorization_header src))
    ∷ (codes "proxy-authorization", on_text (λ src ctx. transform_authorization_header src))
    ∷ []

unfoldable pub forced_cookie : TransformOf RequestInfo Value
forced_cookie src ctx =
    if is_truthy (get (codes "is-api-request") ctx.headers)
    then or_undefined (get (codes "cookie") ctx.headers)
    else if ctx.omits_credentials
    then none
    else non_empty ctx.cookie_header

abbrev pub forced_request_transforms : List (Text × TransformOf RequestInfo Value)
forced_request_transforms = (codes "cookie", forced_cookie) ∷ []

-- `forRequest`
unfoldable pub for_request : RequestInfo → List (Text × Value)
unfolding transform_headers
for_request ctx = transform_headers ctx ctx.headers request_transforms forced_request_transforms

unfoldable pub transform_frame_options : Text → ResponseInfo → Option Text
unfolding trim remove_first
transform_frame_options src ctx =
    if includes (text_of (get (codes "content-security-policy") ctx.headers))
      (codes "frame-ancestors ")
    then none
    else if not (includes src (codes "ALLOW-FROM"))
    then some src
    else some
        (codes "ALLOW-FROM " ++ ctx.frame_proxy_url (trim (remove_first (codes "ALLOW-FROM") src)))

-- `/[;\s]rel=\s*prefetch/i`, on a text in lower case
unfoldable pub is_prefetch_rel : Text → Bool
unfolding trim_left
is_prefetch_rel s =
    starts_with s (codes "rel=")
    && starts_with (trim_left (skip_text (codes "rel=") s)) (codes "prefetch")

unfoldable pub is_prefetch_link : Text → Bool
unfolding is_prefetch_rel
is_prefetch_link [] = false
is_prefetch_link (c ∷ s) = ((c == 59 || is_space c) && is_prefetch_rel s) || is_prefetch_link s

unfoldable pub response_transforms : List (Text × TransformOf ResponseInfo Value)
unfolding add_authenticate_prefix transform_frame_options is_prefetch_link
response_transforms =
    (codes "content-security-policy", skip)
    ∷ (codes "content-security-policy-report-only", skip)
    ∷ (codes "x-content-security-policy", skip)
    ∷ (codes "x-content-security-policy-report-only", skip)
    ∷ (codes "x-webkit-csp", skip)
    ∷ (codes "www-authenticate", on_text (λ src ctx. some (add_authenticate_prefix src)))
    ∷ (codes "proxy-authenticate", on_text (λ src ctx. some (add_authenticate_prefix src)))
    ∷ (
      codes "access-control-allow-origin",
      λ src ctx.
          if ctx.is_same_origin_policy_failed
          then none
          else some (text (ctx.proxy_origin (not (is_empty ctx.req_origin)))),
    )
    ∷ (
      codes "content-type",
      λ src ctx.
          if ctx.is_iframe_with_image_src || ctx.is_text_page
          then some (text (codes "text/html"))
          else src,
    )
    ∷ (
      codes "content-length",
      λ src ctx. if ctx.require_processing then some (text ctx.body_length_text) else src,
    )
    ∷ (
      codes "trailer",
      λ src ctx.
          if text_eq (text_of (get (codes "transfer-encoding") ctx.headers)) (codes "chunked")
          then src
          else none,
    )
    ∷ (
      codes "location",
      on_text (λ src ctx. some (if ctx.is_redirect then ctx.location_proxy_url src else src)),
    )
    ∷ (codes "x-frame-options", on_text (transform_frame_options))
    ∷ (codes "sourcemap", skip)
    ∷ (codes "referrer-policy", λ src ctx. some (text (codes "unsafe-url")))
    ∷ (codes "refresh", on_text (λ src ctx. some (ctx.process_refresh src)))
    ∷ (
      codes "link",
      on_text (λ src ctx. if is_prefetch_link (to_lower src) then none else some src),
    )
    ∷ []

-- `transformContentDispositionHeader`
unfoldable pub transform_content_disposition_header : TransformOf ResponseInfo Value
transform_content_disposition_header src ctx =
    if ctx.is_attachment && not (includes (text_of src) (codes "attachment"))
    then some (text (codes "attachment;" ++ text_of src))
    else src

unfoldable pub forced_response_transforms : List (Text × TransformOf ResponseInfo Value)
unfolding transform_content_disposition_header
forced_response_transforms =
    (codes "set-cookie", λ src ctx. some (texts (ctx.sync_cookies src)))
    ∷ (
      codes "service-worker-allowed",
      λ src ctx. if ctx.is_service_worker then some (text (codes "/")) else none,
    )
    ∷ (codes "content-disposition", transform_content_disposition_header)
    ∷ []

-- `forResponse`
unfoldable pub for_response : ResponseInfo → List (Text × Value)
unfolding transform_headers response_transforms forced_response_transforms
for_response ctx = transform_headers ctx ctx.headers response_transforms forced_response_transforms
