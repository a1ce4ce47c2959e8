-- ===== src/HeaderTransforms/Tests.antt =====
-- Headers of a request and of a response.
use testcafe_hammerhead.Common.{
  ◌≡◌, refl, true, false, Option, none, some, List, [], ◌∷◌, if-elim, clash, All,
}
use testcafe_hammerhead.Common.Chars.{Text, codes, to_lower, text_eq}
use mathlib.Core.Path.{subst}
use testcafe_hammerhead.Charset.Names.{text_eq_sound}
use testcafe_hammerhead.HeaderTransforms.{
  get, is_there, transform_headers, transform_headers_case_to_raw,
}
use testcafe_hammerhead.HeaderTransforms.Transformed.{given, forced, get-transform_headers}
use testcafe_hammerhead.HeaderTransforms.Kept.{transform_headers_case_to_raw-Kept}
use testcafe_hammerhead.HeaderTransforms.Prefixes.{
  add_authorization_prefix, has_authorization_prefix,
}
use testcafe_hammerhead.HeaderTransforms.Transforms.{
  Value, text, texts, RequestInfo, ResponseInfo, response_transforms, forced_response_transforms,
  for_request, for_response,
}
use testcafe_hammerhead.HeaderTransforms.Policies.{
  security_policy_names, for_response-security, for_request-credentials,
}

abbrev request_info : RequestInfo
request_info = record {
  headers =
      (codes "cookie", text (codes "b=2")) ∷ (codes "authorization", text (codes "Basic x")) ∷ [];
  host = codes "example.com";
  referer = [];
  req_origin = [];
  domain = codes "http://example.com";
  body_length = 0;
  restores_storages = false;
  omits_credentials = false;
  cookie_header = codes "a=1";
}

abbrev response_info : ResponseInfo
response_info = record {
  headers =
      (codes "content-security-policy", text (codes "default-src"))
      ∷ (codes "trailer", text (codes "Expires"))
      ∷ (codes "transfer-encoding", text (codes "chunked"))
      ∷ [];
  is_same_origin_policy_failed = false;
  req_origin = [];
  proxy_origin = λ c. codes "http://localhost:1836";
  is_iframe_with_image_src = false;
  is_text_page = false;
  require_processing = true;
  is_redirect = false;
  is_attachment = false;
  is_service_worker = false;
  body_length_text = codes "1";
  location_proxy_url = λ s. s;
  frame_proxy_url = λ s. s;
  process_refresh = λ s. s;
  sync_cookies = λ v. codes "a=1" ∷ [];
}

-- The trailer is kept, as the transfer is chunked.
get-transform_headers_example :
    get (codes "trailer") (
      transform_headers response_info response_info.headers response_transforms
        forced_response_transforms)
    ≡ forced response_info
        (codes "trailer")
        forced_response_transforms
        (given response_info (codes "trailer") response_info.headers response_transforms)
unfolding forced_response_transforms
get-transform_headers_example =
    get-transform_headers response_info response_info.headers response_transforms
      forced_response_transforms (codes "trailer") (refl, (refl, (refl, tt)))

trailer_kept : get (codes "trailer") (for_response response_info) ≡ some (text (codes "Expires"))
unfolding for_response
trailer_kept = refl

abbrev one_header : List (Text × Value)
one_header = (codes "host", text (codes "a")) ∷ []

one_header_lower : (name : Text) → is_there (get name one_header) ≡ true → to_lower name ≡ name
one_header_lower name p =
    if-elim (λ (o : Option Value). is_there o ≡ true → to_lower name ≡ name)
      (text_eq (codes "host") name) (some (text (codes "a"))) none
      (λ t x. subst (λ n. to_lower n ≡ n) (text_eq_sound (codes "host") name t) refl)
      (λ f x. absurd (clash false x refl)) p

transform_headers_case_to_raw-Kept_example :
    (raw : Text) × (to_lower raw ≡ codes "host")
    × (get raw (transform_headers_case_to_raw one_header (codes "Host" ∷ codes "a" ∷ []))
        ≡ get (codes "host") one_header)
transform_headers_case_to_raw-Kept_example =
    transform_headers_case_to_raw-Kept one_header one_header_lower (codes "Host" ∷ codes "a" ∷ [])
      (codes "host") refl

for_response-security_example :
    (get (codes "set-cookie") (for_response response_info)
      ≡ some (texts (response_info.sync_cookies (get (codes "set-cookie") response_info.headers))))
    × All (λ name. get name (for_response response_info) ≡ none) security_policy_names
for_response-security_example = for_response-security response_info

for_request-credentials_example :
    (get (codes "is-api-request") request_info.headers ≡ some (text (codes "true"))
      → get (codes "cookie") request_info.headers ≡ some (text (codes "a=1"))
      → get (codes "cookie") (for_request request_info) ≡ some (text (codes "a=1")))
    × (get (codes "is-api-request") request_info.headers ≡ some (text (codes "true"))
        → get (codes "cookie") request_info.headers ≡ none
        → get (codes "cookie") (for_request request_info) ≡ none)
    × (get (codes "is-api-request") request_info.headers ≡ none
        → request_info.omits_credentials ≡ true
        → get (codes "cookie") (for_request request_info) ≡ none)
    × (get (codes "is-api-request") request_info.headers ≡ none
        → request_info.omits_credentials ≡ false
        → request_info.cookie_header ≡ codes "a=1"
        → get (codes "cookie") (for_request request_info) ≡ some (text (codes "a=1")))
    × (get (codes "is-api-request") request_info.headers ≡ none
        → request_info.omits_credentials ≡ false
        → request_info.cookie_header ≡ []
        → get (codes "cookie") (for_request request_info) ≡ none)
    × (get (codes "authorization") request_info.headers
          ≡ some (text (add_authorization_prefix (codes "Basic x")))
        → get (codes "authorization") (for_request request_info) ≡ some (text (codes "Basic x")))
    × (get (codes "authorization") request_info.headers ≡ some (text (codes "Basic x"))
        → has_authorization_prefix (codes "Basic x") ≡ false
        → get (codes "authorization") (for_request request_info) ≡ none)
for_request-credentials_example =
    for_request-credentials request_info 116 97 (codes "rue") (codes "=1") (codes "Basic x")

-- The hypotheses hold for these headers.
cookie_of_the_jar : get (codes "cookie") (for_request request_info) ≡ some (text (codes "a=1"))
cookie_of_the_jar =
    (for_request-credentials request_info 116 97 (codes "rue") (codes "=1") (codes "Basic x")).3
      refl refl refl

abbrev two_headers : List (Text × Value)
two_headers = (codes "referer", text (codes "r")) ∷ (codes "cookie", text (codes "c")) ∷ []

-- A header whose raw name is in lower case is given twice.
cookie_twice :
    transform_headers_case_to_raw two_headers
      (codes "Referer" ∷ codes "r" ∷ codes "cookie" ∷ codes "c" ∷ [])
    ≡ (codes "Referer", text (codes "r"))
      ∷ (codes "cookie", text (codes "c"))
      ∷ (codes "Cookie", text (codes "c"))
      ∷ []
unfolding transform_headers_case_to_raw
cookie_twice = refl
