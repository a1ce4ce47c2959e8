-- ===== src/ProxyUrl.antt =====
-- utils/url.ts, the part of a proxy URL between the proxy's host and the destination URL: it
-- carries the session, the window, the type of the resource, and what depends on the type.
--
-- A text that is absent is empty: the source tests these values by their truth. `encodeURIComponent`
-- and `decodeURIComponent` are the two fields of a `UriCodec`; the second throws on a malformed
-- text, which is `none`.
pub mod Split
pub mod ResourceTypes
pub mod Codec
pub mod Session
pub mod Descriptors
mod Tests
use testcafe_hammerhead.Common.{
  ℕ, zero, suc, Bool, true, false, ◌&&◌, ◌||◌, not, ◌==◌, leb, ◌+◌, ◌-◌, ◌*◌, Option, none, some,
  List, [], ◌∷◌, ◌++◌, any_of, length, if◌then◌else◌,
}
use testcafe_hammerhead.Common.Chars.{
  Text, codes, to_lower, text_eq, is_empty, starts_with, split_on,
}
use testcafe_hammerhead.Common.Int.{ℤ, pos, negsuc, sub_ℕ}
use testcafe_hammerhead.Charset.Labels.{trim_left}

abbrev pub has_code : ℕ → Text → Bool
has_code c s = any_of (λ d. d == c) s

pub record ResourceType : Type 0 where
  pub is_iframe : Bool
  pub is_form : Bool
  pub is_script : Bool
  pub is_event_source : Bool
  pub is_html_import : Bool
  pub is_web_socket : Bool
  pub is_service_worker : Bool
  pub is_ajax : Bool
  pub is_object : Bool

-- `parseResourceType`
unfoldable pub parse_resource_type : Text → ResourceType
parse_resource_type resource_type = record {
  is_iframe = has_code b'i' resource_type;
  is_form = has_code b'f' resource_type;
  is_script = has_code b's' resource_type;
  is_event_source = has_code b'e' resource_type;
  is_html_import = has_code b'h' resource_type;
  is_web_socket = has_code b'w' resource_type;
  is_service_worker = has_code b'c' resource_type;
  is_ajax = has_code b'a' resource_type;
  is_object = has_code b'o' resource_type;
}

-- `RESOURCE_TYPES`, each flag with its value in the type
abbrev pub flags : ResourceType → List (Bool × ℕ)
flags t =
    (t.is_iframe, b'i')
    ∷ (t.is_form, b'f')
    ∷ (t.is_script, b's')
    ∷ (t.is_event_source, b'e')
    ∷ (t.is_html_import, b'h')
    ∷ (t.is_web_socket, b'w')
    ∷ (t.is_service_worker, b'c')
    ∷ (t.is_ajax, b'a')
    ∷ (t.is_object, b'o')
    ∷ []

-- The loop of `getResourceTypeString`.
unfoldable pub set_flags_text : List (Bool × ℕ) → Text
set_flags_text [] = []
set_flags_text ((b, flag) ∷ rest) =
    let text = set_flags_text rest in if b then flag ∷ text else text

unfoldable pub get_resource_type_string : ResourceType → Text
unfolding set_flags_text
get_resource_type_string t = set_flags_text (flags t)

abbrev pub drop : ℕ → Text → Text
drop zero s = s
drop (suc n) [] = []
drop (suc n) (c ∷ s) = drop n s

-- `makeShortOrigin`
unfoldable pub make_short_origin : Text → Text
make_short_origin origin =
    if text_eq origin (codes "null")
    then []
    else if starts_with origin (codes "https://")
    then codes "s*" ++ drop 8 origin
    else if starts_with origin (codes "http://")
    then drop 7 origin
    else origin

unfoldable pub restore_short_origin : Text → Text
restore_short_origin origin =
    if is_empty origin
    then codes "null"
    else if starts_with origin (codes "s*")
    then codes "https://" ++ drop 2 origin
    else codes "http://" ++ origin

pub data Credentials : Type 0 where
  include same_origin omit unknown : Credentials

-- The number of a member of the enumeration, and its text.
abbrev pub credentials_number : Credentials → ℕ
credentials_number include = 0
credentials_number same_origin = 1
credentials_number omit = 2
credentials_number unknown = 3

abbrev pub credentials_text : Credentials → Text
credentials_text c = (b'0' + credentials_number c) ∷ []

pub record ProxyUrlOptions : Type 0 where
  pub session_id : Text
  pub window_id : Text
  pub resource_type : Text
  pub charset : Text
  pub credentials : Option Credentials
  pub req_origin : Text

pub record UriCodec : Type 0 where
  pub encode_uri_component : Text → Text
  pub decode_uri_component : Text → Option Text

unfoldable pub join : ℕ → List Text → Text
join separator [] = []
join separator (a ∷ []) = a
join separator (a ∷ b ∷ rest) = a ++ separator ∷ join separator (b ∷ rest)

abbrev pub optional : Text → List Text
optional [] = []
optional (c ∷ s) = (c ∷ s) ∷ []

unfoldable pub session_info : ProxyUrlOptions → Text
unfolding join
session_info opts = join b'*' (opts.session_id ∷ optional opts.window_id)

abbrev pub credentials_param : Option Credentials → List Text
credentials_param none = []
credentials_param (some c) = credentials_text c ∷ []

unfoldable pub origin_param : UriCodec → Text → List Text
unfolding make_short_origin
origin_param codec [] = []
origin_param codec (c ∷ s) = codec.encode_uri_component (make_short_origin (c ∷ s)) ∷ []

-- The descriptor that `getProxyUrl` writes.
unfoldable pub descriptor : UriCodec → ProxyUrlOptions → Text
unfolding join session_info origin_param
descriptor codec opts = join b'!' (
    session_info opts ∷ optional opts.resource_type
    ++ optional (to_lower opts.charset)
    ++ credentials_param opts.credentials
    ++ origin_param codec opts.req_origin)

-- What `parseInt` gives, and no value at all.
pub data ParsedNumber : Type 0 where
  absent nan : ParsedNumber
  number : ℤ → ParsedNumber

abbrev pub is_digit : ℕ → Bool
is_digit c = leb b'0' c && leb c b'9'

-- The number that leading digits make, behind what was read.
unfoldable pub parse_digits : ℕ → Text → ℕ
parse_digits n [] = n
parse_digits n (c ∷ s) =
    let more = parse_digits (n * 10 + (c - b'0')) s in if is_digit c then more else n

unfoldable pub parse_unsigned : (ℕ → ℤ) → Text → ParsedNumber
unfolding parse_digits
parse_unsigned sign [] = nan
parse_unsigned sign (c ∷ s) = if is_digit c then number (sign (parse_digits 0 (c ∷ s))) else nan

unfoldable pub parse_signed : Text → ParsedNumber
unfolding parse_unsigned
parse_signed [] = nan
parse_signed (c ∷ s) =
    if c == b'-'
    then parse_unsigned (sub_ℕ 0) s
    else if c == b'+'
    then parse_unsigned pos s
    else parse_unsigned pos (c ∷ s)

-- `parseInt(s, 10)`
unfoldable pub parse_int : Text → ParsedNumber
unfolding trim_left parse_signed
parse_int s = parse_signed (trim_left s)

pub record RequestDescriptor : Type 0 where
  pub session_id : Text
  pub window_id : Text
  pub resource_type : Text
  pub charset : Text
  pub credentials : ParsedNumber
  pub req_origin : Text

pub data Parsed : Type 0 where
  malformed_uri no_descriptor : Parsed
  parsed : RequestDescriptor → Parsed

-- `decodeURIComponent(restoreShortOrigin(...))`, which may throw
unfoldable pub with_origin : UriCodec → Text → RequestDescriptor → Parsed
unfolding restore_short_origin
with_origin codec origin desc = elim (codec.decode_uri_component (restore_short_origin origin)) [
  | none ↦ malformed_uri
  | some o ↦ parsed (record desc { req_origin = o })
]

-- The credentials, and the origin if there are exactly two values.
unfoldable pub with_credentials : UriCodec → List Text → RequestDescriptor → Parsed
unfolding parse_int with_origin
with_credentials codec (first ∷ second ∷ []) desc =
    with_origin codec second (record desc { credentials = parse_int first })
with_credentials codec (first ∷ rest) desc = parsed (record desc { credentials = parse_int first })
with_credentials codec [] desc = parsed desc

-- What depends on the type; the list is `resourceData`, whose first value is given by itself.
unfoldable pub with_resource_data :
    UriCodec → ResourceType → Text → List Text → RequestDescriptor → Parsed
unfolding with_credentials with_origin
with_resource_data codec type first rest desc =
    if type.is_script || type.is_service_worker
    then parsed (record desc { charset = first })
    else if type.is_web_socket
    then with_origin codec first desc
    else if type.is_iframe && not (is_empty first)
    then with_origin codec first desc
    else if type.is_ajax
    then with_credentials codec (first ∷ rest) desc
    else parsed desc

abbrev pub first_of : List Text → Text
first_of [] = []
first_of (a ∷ l) = a

abbrev pub rest_of : List Text → List Text
rest_of [] = []
rest_of (a ∷ l) = l

abbrev pub new_descriptor : List Text → Text → RequestDescriptor
new_descriptor ids resource_type = record {
  session_id = first_of ids;
  window_id = first_of (rest_of ids);
  resource_type = resource_type;
  charset = [];
  credentials = absent;
  req_origin = [];
}

-- With the resource type, and the values behind it
unfoldable pub with_resource_type : UriCodec → Text → List Text → RequestDescriptor → Parsed
unfolding with_resource_data parse_resource_type
with_resource_type codec resource_type [] desc = parsed desc
with_resource_type codec resource_type (first ∷ rest) desc =
    if is_empty resource_type
    then parsed desc
    else with_resource_data codec (parse_resource_type resource_type) first rest desc

unfoldable pub parse_values : UriCodec → List Text → Parsed
unfolding with_resource_type
parse_values codec [] = no_descriptor
parse_values codec (info ∷ values) =
    if is_empty info
    then no_descriptor
    else with_resource_type codec (first_of values) (rest_of values)
        (new_descriptor (split_on b'*' info) (first_of values))

-- `parseRequestDescriptor`
unfoldable pub parse_request_descriptor : UriCodec → Text → Parsed
unfolding parse_values
parse_request_descriptor codec desc = parse_values codec (split_on b'!' desc)
