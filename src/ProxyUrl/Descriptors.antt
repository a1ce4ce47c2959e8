-- ===== src/ProxyUrl/Descriptors.antt =====
-- The descriptor of a proxy URL is read as it was written.
use testcafe_hammerhead.Common.{
  ◌≡◌, refl, ◌∙◌, Bool, true, false, ◌||◌, none, some, List, [], ◌∷◌, ◌++◌, arith,
}
use testcafe_hammerhead.Common.Chars.{Text, codes, is_empty, text_eq, to_lower}
use testcafe_hammerhead.Common.Int.{pos}
use testcafe_hammerhead.ProxyUrl.{
  ResourceType, parse_resource_type, Credentials, include, same_origin, omit, unknown,
  credentials_number, credentials_text, ProxyUrlOptions, UriCodec, optional, session_info,
  descriptor, absent, number, RequestDescriptor, parsed, with_resource_type, with_resource_data,
  with_credentials, with_origin, parse_request_descriptor, parse_int, make_short_origin,
  origin_param,
}
use testcafe_hammerhead.ProxyUrl.Codec.{
  IsUriCodec, IsOrigin, with_origin-encode, is_empty-encode, has_code-encode,
}
use testcafe_hammerhead.ProxyUrl.Session.{
  IsSession, IsPlain, ids_text, typed, parse_request_descriptor-join,
  parse_request_descriptor-values, parse_request_descriptor-ids_text,
}

abbrev takes_charset : ResourceType → Bool
takes_charset type = type.is_script || type.is_service_worker

abbrev with_type : Text → Text → Text → ProxyUrlOptions
with_type s w t = record {
  session_id = s;
  window_id = w;
  resource_type = t;
  charset = [];
  credentials = none;
  req_origin = [];
}

-- The options that go together: what a reader expects depends on the type of the resource, so
-- each type carries its own values. A frame's origin is not `null`, which the reader drops.
pub data IsConsistent : ProxyUrlOptions → Type 0 where
  bare : (s w t : Text) → IsSession s w → IsPlain t → IsConsistent (with_type s w t)
  script :
      (s w t c : Text)
      → IsSession s w
      → IsPlain t
      → is_empty t ≡ false
      → takes_charset (parse_resource_type t) ≡ true
      → is_empty c ≡ false
      → IsPlain (to_lower c)
      → IsConsistent (record (with_type s w t) { charset = c })
  web_socket :
      (s w t o : Text)
      → IsSession s w
      → IsPlain t
      → is_empty t ≡ false
      → takes_charset (parse_resource_type t) ≡ false
      → (parse_resource_type t).is_web_socket ≡ true
      → IsOrigin o
      → IsConsistent (record (with_type s w t) { req_origin = o })
  frame :
      (s w t o : Text)
      → IsSession s w
      → IsPlain t
      → is_empty t ≡ false
      → takes_charset (parse_resource_type t) ≡ false
      → (parse_resource_type t).is_web_socket ≡ false
      → (parse_resource_type t).is_iframe ≡ true
      → IsOrigin o
      → text_eq o (codes "null") ≡ false
      → IsConsistent (record (with_type s w t) { req_origin = o })
  ajax :
      (s w t o : Text) (c : Credentials)
      → IsSession s w
      → IsPlain t
      → is_empty t ≡ false
      → takes_charset (parse_resource_type t) ≡ false
      → (parse_resource_type t).is_web_socket ≡ false
      → (parse_resource_type t).is_iframe ≡ false
      → (parse_resource_type t).is_ajax ≡ true
      → IsOrigin o
      → IsConsistent (record (with_type s w t) { credentials = some c; req_origin = o })

-- What a reader of the options sees.
abbrev pub described : ProxyUrlOptions → RequestDescriptor
described opts = record {
  session_id = opts.session_id;
  window_id = opts.window_id;
  resource_type = opts.resource_type;
  charset = to_lower opts.charset;
  credentials = elim opts.credentials [
    | none ↦ absent
    | some c ↦ number (pos (credentials_number c))
  ];
  req_origin = opts.req_origin;
}

optional_of : (s : Text) → is_empty s ≡ false → optional s ≡ s ∷ []
optional_of [] h = ground arith
optional_of (c ∷ s) h = refl

is_empty-to_lower : (s : Text) → is_empty (to_lower s) ≡ is_empty s
is_empty-to_lower [] = refl
is_empty-to_lower (c ∷ s) = refl

origin_param_of :
    (codec : UriCodec) (o : Text)
    → IsOrigin o
    → origin_param codec o ≡ codec.encode_uri_component (make_short_origin o) ∷ []
unfolding origin_param
origin_param_of codec _ (IsOrigin.null_origin) = refl
origin_param_of codec _ (IsOrigin.https_origin host a m) = refl
origin_param_of codec _ (IsOrigin.http_origin host a m n p) = refl

encoded_origin-IsPlain :
    (codec : UriCodec) (o : Text)
    → IsUriCodec codec
    → IsOrigin o
    → IsPlain (codec.encode_uri_component (make_short_origin o))
unfolding make_short_origin
encoded_origin-IsPlain codec _ laws (IsOrigin.null_origin) = has_code-encode codec laws [] refl refl
encoded_origin-IsPlain codec _ laws (IsOrigin.https_origin host a m) =
    has_code-encode codec laws (codes "s*" ++ host) a m
encoded_origin-IsPlain codec _ laws (IsOrigin.http_origin host a m n p) =
    has_code-encode codec laws host a m

is_empty-encoded_origin :
    (codec : UriCodec) (o : Text)
    → IsUriCodec codec
    → IsOrigin o
    → text_eq o (codes "null") ≡ false
    → is_empty (codec.encode_uri_component (make_short_origin o)) ≡ false
unfolding make_short_origin
is_empty-encoded_origin codec _ laws (IsOrigin.null_origin) h = cc h
is_empty-encoded_origin codec _ laws (IsOrigin.https_origin host a m) h =
    is_empty-encode codec laws (codes "s*" ++ host) a
is_empty-encoded_origin codec _ laws (IsOrigin.http_origin host a m n p) h =
    is_empty-encode codec laws host a ∙ n

credentials_text-IsPlain : (c : Credentials) → IsPlain (credentials_text c)
credentials_text-IsPlain include = refl
credentials_text-IsPlain same_origin = refl
credentials_text-IsPlain omit = refl
credentials_text-IsPlain unknown = refl

parse_int-credentials_text :
    (c : Credentials) → parse_int (credentials_text c) ≡ number (pos (credentials_number c))
unfolding parse_int
parse_int-credentials_text include = refl
parse_int-credentials_text same_origin = refl
parse_int-credentials_text omit = refl
parse_int-credentials_text unknown = refl

-- What `with_resource_data` does for each kind of resource.
module _ (codec : UriCodec) (type : ResourceType) (first : Text) (rest : List Text)
    (desc : RequestDescriptor) where
  with_resource_data-script :
      takes_charset type ≡ true
      → with_resource_data codec type first rest desc ≡ parsed (record desc { charset = first })
  unfolding with_resource_data
  with_resource_data-script f = rw (with_resource_data, f) refl

  with_resource_data-web_socket :
      takes_charset type ≡ false
      → type.is_web_socket ≡ true
      → with_resource_data codec type first rest desc ≡ with_origin codec first desc
  unfolding with_resource_data with_origin
  with_resource_data-web_socket f g = rw (with_resource_data, f, g) refl

  with_resource_data-frame :
      takes_charset type ≡ false
      → type.is_web_socket ≡ false
      → type.is_iframe ≡ true
      → is_empty first ≡ false
      → with_resource_data codec type first rest desc ≡ with_origin codec first desc
  unfolding with_resource_data with_origin
  with_resource_data-frame f g i e = rw (with_resource_data, f, g, i, e) refl

  with_resource_data-ajax :
      takes_charset type ≡ false
      → type.is_web_socket ≡ false
      → type.is_iframe ≡ false
      → type.is_ajax ≡ true
      → with_resource_data codec type first rest desc ≡ with_credentials codec (first ∷ rest) desc
  unfolding with_resource_data with_credentials
  with_resource_data-ajax f g i j = rw (with_resource_data, f, g, i, j) refl

with_credentials-encode :
    (codec : UriCodec) (o : Text) (c : Credentials) (desc : RequestDescriptor)
    → IsUriCodec codec
    → IsOrigin o
    → with_credentials codec
        (credentials_text c ∷ codec.encode_uri_component (make_short_origin o) ∷ [])
        desc
      ≡ parsed (record desc { credentials = number (pos (credentials_number c)); req_origin = o })
unfolding with_credentials
with_credentials-encode codec o c desc laws k = rw (parse_int-credentials_text c) (
    with_origin-encode codec laws o
      (record desc { credentials = number (pos (credentials_number c)) }) k)

-- For options that go together, and a codec that does what the language says: the descriptor that
-- `getProxyUrl` writes is read by `parseRequestDescriptor` as the same values, the charset in
-- small letters.
pub parse_request_descriptor-descriptor :
    (codec : UriCodec) (opts : ProxyUrlOptions)
    → IsUriCodec codec
    → IsConsistent opts
    → parse_request_descriptor codec (descriptor codec opts) ≡ parsed (described opts)
unfolding descriptor session_info ids_text with_resource_type with_resource_data with_credentials
parse_request_descriptor-descriptor codec _ laws (bare s w [] h p) =
    parse_request_descriptor-ids_text codec s w h
parse_request_descriptor-descriptor codec _ laws (bare s w (c ∷ t) h p) =
    parse_request_descriptor-join codec s w (c ∷ t) [] h p tt ∙ refl
parse_request_descriptor-descriptor codec _ laws (script s w t c h p n f m q) =
    rw (optional_of t n, optional_of (to_lower c) (is_empty-to_lower c ∙ m))
      (parse_request_descriptor-values codec s w t (to_lower c) [] h p n (q, tt)
        ∙ with_resource_data-script codec (parse_resource_type t) (to_lower c) [] (typed s w t) f)
parse_request_descriptor-descriptor codec _ laws (web_socket s w t o h p n f g k) =
    let e = codec.encode_uri_component (make_short_origin o) in
    rw (optional_of t n, origin_param_of codec o k)
      (parse_request_descriptor-values codec s w t e [] h p n
          (encoded_origin-IsPlain codec o laws k, tt)
        ∙ with_resource_data-web_socket codec (parse_resource_type t) e [] (typed s w t) f g
        ∙ with_origin-encode codec laws o (typed s w t) k)
parse_request_descriptor-descriptor codec _ laws (frame s w t o h p n f g i k m) =
    let e = codec.encode_uri_component (make_short_origin o) in
    rw (optional_of t n, origin_param_of codec o k)
      (parse_request_descriptor-values codec s w t e [] h p n
          (encoded_origin-IsPlain codec o laws k, tt)
        ∙ with_resource_data-frame codec (parse_resource_type t) e [] (typed s w t) f g i
            (is_empty-encoded_origin codec o laws k m)
        ∙ with_origin-encode codec laws o (typed s w t) k)
parse_request_descriptor-descriptor codec _ laws (ajax s w t o c h p n f g i j k) =
    let e = codec.encode_uri_component (make_short_origin o) in
    rw (optional_of t n, origin_param_of codec o k)
      (parse_request_descriptor-values codec s w t (credentials_text c) (e ∷ []) h p n
          (credentials_text-IsPlain c, (encoded_origin-IsPlain codec o laws k, tt))
        ∙ with_resource_data-ajax codec (parse_resource_type t) (credentials_text c) (e ∷ [])
            (typed s w t) f g i j
        ∙ with_credentials-encode codec o c (typed s w t) laws k)
