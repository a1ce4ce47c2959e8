-- ===== src/SameOrigin.antt =====
-- request-pipeline/same-origin-policy.ts: whether a response may be read by the page that asked for
-- it, and whether a request goes without credentials.
pub mod Policy
mod Tests
use testcafe_hammerhead.Common.{
  Bool, true, false, not, ◌&&◌, ◌||◌, Option, none, some, List, [], ◌∷◌, any_of, if◌then◌else◌,
}
use testcafe_hammerhead.Common.Chars.{Text, codes, to_lower, text_eq, is_empty}
use testcafe_hammerhead.ProxyUrl.{Credentials, include, same_origin, omit, unknown}

-- A header of a Node response: absent, a text, or the texts of several headers of the name.
pub data HeaderValue : Type 0 where
  no_header : HeaderValue
  one : Text → HeaderValue
  several : List Text → HeaderValue

-- What the checks read of a context.
pub record CorsRequest : Type 0 where
  pub domain : Text
  pub req_origin : Option Text
  pub credentials : Option Credentials
  pub allow_origin : HeaderValue
  pub allow_credentials : Text

abbrev pub is_include : Option Credentials → Bool
is_include (some include) = true
is_include _ = false

-- A value that JavaScript takes for true.
abbrev pub is_given : HeaderValue → Bool
is_given no_header = false
is_given (one t) = not (is_empty t)
is_given (several l) = true

-- `castArray`; the absent value, which is no text, is left out.
abbrev pub cast_array : HeaderValue → List Text
cast_array no_header = []
cast_array (one t) = t ∷ []
cast_array (several l) = l

abbrev pub lists : List Text → Text → Bool
lists l t = any_of (text_eq t) l

abbrev pub is_origin : Option Text → Text → Bool
is_origin none t = false
is_origin (some o) t = text_eq o t

abbrev pub lists_origin : List Text → Option Text → Bool
lists_origin l none = false
lists_origin l (some o) = lists l o

-- `allowCredentials` and `wildcardAllowed`
abbrev pub credentials_allowed : CorsRequest → Bool
credentials_allowed r = text_eq (to_lower r.allow_credentials) (codes "true")

abbrev pub wildcard_allowed : CorsRequest → Bool
wildcard_allowed r = lists (cast_array r.allow_origin) (codes "*")

unfoldable pub check : CorsRequest → Bool
check r =
    if is_origin r.req_origin r.domain
    then true
    else if not (is_given r.allow_origin)
    then false
    else if is_include r.credentials && (not (credentials_allowed r) || wildcard_allowed r)
    then false
    else wildcard_allowed r || lists_origin (cast_array r.allow_origin) r.req_origin

unfoldable pub should_omit_credentials : CorsRequest → Bool
should_omit_credentials r = elim r.credentials [
  | some omit ↦ true
  | some same_origin ↦ not (is_origin r.req_origin r.domain)
  | some include ↦ false
  | some unknown ↦ false
  | none ↦ false
]
