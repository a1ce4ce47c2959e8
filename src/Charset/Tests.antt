-- ===== src/Charset/Tests.antt =====
-- Charsets of responses.
use testcafe_hammerhead.Common.{◌≡◌, refl, true, false, not, ◌||◌, List, [], ◌∷◌, ℕ, arith}
use testcafe_hammerhead.Common.Chars.{Text, codes}
use testcafe_hammerhead.Charset.{
  Charset, new_charset, bom, rank, name_eq, find_bom, is_from_bom, from_bom, from_content_type,
  Source, content_type_header, charset_from_url, metas, MetaInfo, from_sources, match_charset,
  content_type, from_meta,
}
use testcafe_hammerhead.Charset.Labels.{name, inherited}
use testcafe_hammerhead.Charset.Sources.{
  from_sources-of_bom, from_bom-charset, from_content_type-trailing_parameter,
}
use testcafe_hammerhead.Charset.Known.{is_known, from_sources-is_known}

abbrev utf8_header : Text
utf8_header = codes "text/html; charset=UTF-8"

abbrev utf8_with_boundary : Text
utf8_with_boundary = codes "text/html; charset=utf-8; boundary=x"

abbrev utf8_body : List ℕ
utf8_body = 239 ∷ 187 ∷ 191 ∷ 60 ∷ []

abbrev utf8_from_header : Charset
utf8_from_header = record { charset = name (codes "utf-8"); priority = rank content_type }

abbrev from_mark : Charset
from_mark = record { charset = name (codes "utf-8"); priority = rank bom }

abbrev meta_tags : List MetaInfo
meta_tags =
    record {
      http_equiv = codes "Content-Type";
      content = codes "text/html; charset = 'koi8-r'";
      charset_attr = [];
    }
    ∷ []

abbrev sources : List Source
sources = content_type_header utf8_header ∷ charset_from_url (codes "l1") ∷ metas meta_tags ∷ []

header_names_charset : from_content_type utf8_header new_charset ≡ (utf8_from_header, true)
unfolding from_content_type
header_names_charset = refl

meta_names_charset : (from_meta meta_tags new_charset).0.charset ≡ name (codes "koi8-r")
unfolding from_meta
meta_names_charset = refl

-- A header may name what `Object.prototype` has.
header_names_member :
    (from_content_type (codes "text/html;charset=Constructor") new_charset).0.charset
    ≡ inherited (codes "constructor")
unfolding from_content_type
header_names_member = refl

from_sources-of_bom_example : from_sources sources from_mark ≡ from_mark
unfolding is_from_bom
from_sources-of_bom_example = from_sources-of_bom sources from_mark (tt, (tt, (tt, tt))) refl

from_bom-charset_example :
    ((from_bom utf8_body utf8_from_header).0.charset ≡ name (codes "utf-8"))
    × (is_from_bom (from_bom utf8_body utf8_from_header).0 ≡ (
        is_from_bom utf8_from_header
        || not (name_eq utf8_from_header.charset (name (codes "utf-8")))))
unfolding find_bom
from_bom-charset_example =
    from_bom-charset utf8_body (codes "utf-8") utf8_from_header refl (omega arith)

from_content_type-trailing_parameter_example :
    from_content_type utf8_with_boundary new_charset ≡ (new_charset, false)
unfolding match_charset
from_content_type-trailing_parameter_example =
    from_content_type-trailing_parameter utf8_with_boundary (codes "utf-8; boundary=x") new_charset
      refl refl

from_sources-is_known_example : is_known (from_sources sources new_charset).charset ≡ true
from_sources-is_known_example = from_sources-is_known sources new_charset refl
