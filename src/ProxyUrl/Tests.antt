-- ===== src/ProxyUrl/Tests.antt =====
-- Descriptors of proxy URLs, with percent encoding of one byte.
use mathlib.Core.Option
use testcafe_hammerhead.Common.{
  ◌≡◌, refl, inl, inr, ℕ, ◌+◌, ◌-◌, ◌*◌, ◌/◌, ◌%◌, ◌<◌, true, false, ◌==◌, ltb, Option, none, some,
  [], ◌∷◌, ◌++◌, arith, if◌then◌else◌, Bool-cases, all_of,
}
use testcafe_hammerhead.Common.Chars.{Text, codes}
use testcafe_hammerhead.ProxyUrl.{
  UriCodec, ProxyUrlOptions, descriptor, parse_request_descriptor, parsed, parse_resource_type,
  ResourceType, include, has_code,
}
use testcafe_hammerhead.ProxyUrl.Codec.{IsUriCodec, is_unreserved, is_ascii, is_hex, https_origin}
use testcafe_hammerhead.ProxyUrl.Session.{IsSession}
use testcafe_hammerhead.ProxyUrl.Descriptors.{ajax, described, parse_request_descriptor-descriptor}

abbrev hex_digit : ℕ → ℕ
hex_digit d = if ltb d 10 then 48 + d else 55 + d

abbrev hex_value : ℕ → ℕ
hex_value c = if ltb c 58 then c - 48 else c - 55

unfoldable encode : Text → Text
encode [] = []
encode (c ∷ s) =
    let rest = encode s in
    if is_unreserved c then c ∷ rest else b'%' ∷ hex_digit (c / 16) ∷ hex_digit (c % 16) ∷ rest

-- Where a decoder is: in plain text, or behind a percent sign.
data Position : Type 0 where
  plain first_digit : Position
  second_digit : ℕ → Position

unfoldable decode_at : Position → Text → Option Text
decode_at plain [] = some []
decode_at first_digit [] = none
decode_at (second_digit v) [] = none
decode_at plain (c ∷ s) =
    let escaped = decode_at first_digit s in
    let rest = decode_at plain s in if c == b'%' then escaped else Option.map (λ t. c ∷ t) rest
decode_at first_digit (c ∷ s) = decode_at (second_digit (hex_value c)) s
decode_at (second_digit v) (c ∷ s) =
    Option.map (λ t. (v * 16 + hex_value c) ∷ t) (decode_at plain s)

abbrev codec : UriCodec
codec = record { encode_uri_component = encode; decode_uri_component = decode_at plain }

hex_digit-is_hex : (d : ℕ) → d < 16 → is_hex (hex_digit d) ≡ true
hex_digit-is_hex d h = ground arith

hex_value-hex_digit : (d : ℕ) → d < 16 → hex_value (hex_digit d) ≡ d
hex_value-hex_digit d h = ground arith

byte_parts :
    (c : ℕ) → is_ascii c ≡ true → (c / 16 < 16) × (c % 16 < 16) × (c / 16 * 16 + c % 16 ≡ c)
byte_parts c h = let small : c < 128 = ground (arith, h) in (omega arith, omega arith, omega arith)

decode_at-encode : (s : Text) → all_of is_ascii s ≡ true → decode_at plain (encode s) ≡ some s
unfolding encode decode_at
decode_at-encode [] a = refl
decode_at-encode (c ∷ s) a = elim (Bool-cases (is_unreserved c)) [
  | inl u ↦
      let e : (c == b'%') ≡ false = ground (arith, u) in
      rw (u, e, decode_at-encode s (ground (arith, a))) refl
  | inr r ↦
      let (hi, lo, e) = byte_parts c (ground (arith, a)) in
      rw
        (
          r,
          hex_value-hex_digit (c / 16) hi,
          hex_value-hex_digit (c % 16) lo,
          e,
          decode_at-encode s (ground (arith, a)),
        )
        refl
]

decode_at-append :
    (a s : Text)
    → has_code b'%' a ≡ false
    → all_of is_ascii s ≡ true
    → decode_at plain (a ++ encode s) ≡ some (a ++ s)
unfolding decode_at
decode_at-append [] s h k = decode_at-encode s k
decode_at-append (c ∷ a) s h k =
    let e : (c == b'%') ≡ false = ground (arith, h) in
    rw (e, decode_at-append a s (ground (arith, h)) k) refl

codec-IsUriCodec : IsUriCodec codec
unfolding encode
codec-IsUriCodec = record {
  encode_nil = refl;
  encode_unreserved = λ c s u. rw u refl;
  encode_reserved = λ c s a r.
      let (hi, lo, e) = byte_parts c a in
      (
        hex_digit (c / 16),
        hex_digit (c % 16),
        rw r refl,
        hex_digit-is_hex (c / 16) hi,
        hex_digit-is_hex (c % 16) lo,
      );
  decode-encode = decode_at-append;
}

abbrev ajax_options : ProxyUrlOptions
ajax_options = record {
  session_id = codes "Vj2fgk";
  window_id = codes "w7";
  resource_type = codes "a";
  charset = [];
  credentials = some include;
  req_origin = codes "https://example.com:8080";
}

session : IsSession (codes "Vj2fgk") (codes "w7")
session = record { session_given = refl; session_plain = (refl, refl); window_plain = (refl, refl) }

ajax_descriptor : descriptor codec ajax_options ≡ codes "Vj2fgk*w7!a!0!s*example.com%3A8080"
unfolding descriptor encode
ajax_descriptor = refl

parse_request_descriptor-descriptor_example :
    parse_request_descriptor codec (descriptor codec ajax_options) ≡ parsed (described ajax_options)
unfolding parse_resource_type
parse_request_descriptor-descriptor_example =
    parse_request_descriptor-descriptor codec ajax_options codec-IsUriCodec (
      ajax (codes "Vj2fgk") (codes "w7") (codes "a") (codes "https://example.com:8080") include
        session refl refl refl refl refl refl (https_origin (codes "example.com:8080") refl refl))

abbrev ajax_type : ResourceType
ajax_type = record {
  is_iframe = false;
  is_form = true;
  is_script = false;
  is_event_source = false;
  is_html_import = false;
  is_web_socket = false;
  is_service_worker = false;
  is_ajax = true;
  is_object = false;
}
