-- ===== src/Charset.antt =====
-- processing/encoding/charset.ts: the charset of a response, from the sources that may name it.
--
-- A matching of a regular expression is a function on texts; a header has no line break, so
-- `(.+)` of CHARSET_RE takes all that is left. A method gives the changed object and its result.
pub mod Labels
pub mod Names
pub mod Sources
pub mod Known
mod Tests
use testcafe_hammerhead.Common.{
  ℕ, Bool, true, false, not, ◌&&◌, ◌||◌, ◌==◌, leb, ltb, Option, none, some, List, [], ◌∷◌, String,
  any_of, if◌then◌else◌,
}
use testcafe_hammerhead.Common.Chars.{
  Text, codes, to_lower, lower_code, text_eq, is_empty, starts_with,
}
use testcafe_hammerhead.Charset.Labels.{
  EncodingName, no_name, name, inherited, get_encoding_name, trim_left,
}

-- `DEFAULT_CHARSET`
abbrev pub default_charset : Text
default_charset = codes "iso-8859-1"

-- `CHARSET_BOM_LIST`
abbrev pub charset_bom_list : List (Text × List ℕ)
charset_bom_list =
    (codes "utf-8", 239 ∷ 187 ∷ 191 ∷ [])
    ∷ (codes "utf-16le", 255 ∷ 254 ∷ [])
    ∷ (codes "utf-16be", 254 ∷ 255 ∷ [])
    ∷ []

-- `CharsetPriority`
pub data CharsetPriority : Type 0 where
  default url meta content_type bom : CharsetPriority

abbrev pub rank : CharsetPriority → ℕ
rank default = 0
rank url = 1
rank meta = 1
rank content_type = 2
rank bom = 3

pub record Charset : Type 0 where
  pub charset : EncodingName
  pub priority : ℕ

-- The fields of a new object.
abbrev pub new_charset : Charset
new_charset = record { charset = name default_charset; priority = rank default }

-- `===`; an inherited value is the same object under the same label.
abbrev pub name_eq : EncodingName → EncodingName → Bool
name_eq no_name no_name = true
name_eq (name a) (name b) = text_eq a b
name_eq (inherited a) (inherited b) = text_eq a b
name_eq _ _ = false

-- A value that JavaScript takes for true.
abbrev pub is_named : EncodingName → Bool
is_named no_name = false
is_named _ = true

unfoldable pub set : EncodingName → CharsetPriority → Charset → Charset × Bool
set charset p c =
    if is_named charset && not (name_eq c.charset charset) && leb c.priority (rank p)
    then (record { charset = charset; priority = rank p }, true)
    else (c, false)

unfoldable pub is_from_bom : Charset → Bool
is_from_bom c = c.priority == rank bom

-- The first entry of the list whose mark the buffer begins with.
unfoldable pub find_bom : List (Text × List ℕ) → List ℕ → Option Text
find_bom [] res_buf = none
find_bom ((charset, mark) ∷ list) res_buf =
    let later = find_bom list res_buf in if starts_with res_buf mark then some charset else later

unfoldable pub from_bom : List ℕ → Charset → Charset × Bool
unfolding find_bom set
from_bom res_buf c = elim (find_bom charset_bom_list res_buf) [
  | some charset ↦ set (name charset) bom c
  | none ↦ (c, false)
]

-- The text behind a prefix, in letters of either case.
unfoldable pub drop_prefix : Text → Text → Option Text
drop_prefix [] s = some s
drop_prefix (a ∷ p) [] = none
drop_prefix (a ∷ p) (b ∷ s) = let rest = drop_prefix p s in if lower_code b == a then rest else none

abbrev pub non_empty : Option Text → Option Text
non_empty (some (c ∷ s)) = some (c ∷ s)
non_empty _ = none

-- `\s*charset=(.+)` at the beginning of a text
unfoldable pub charset_param : Text → Option Text
unfolding drop_prefix trim_left
charset_param s = non_empty (drop_prefix (codes "charset=") (trim_left s))

abbrev pub or_else : Option Text → Option Text → Option Text
or_else (some t) other = some t
or_else none other = other

-- The same behind the first semicolon where it matches.
unfoldable pub charset_after_semicolon : Text → Option Text
unfolding charset_param
charset_after_semicolon [] = none
charset_after_semicolon (c ∷ s) =
    let later = charset_after_semicolon s in
    if c == b';' then or_else (charset_param s) later else later

-- `contentTypeHeader.match(CHARSET_RE)`
unfoldable pub match_charset : Text → Option Text
unfolding charset_after_semicolon
match_charset s = or_else (charset_param s) (charset_after_semicolon s)

unfoldable pub from_content_type : Text → Charset → Charset × Bool
unfolding match_charset get_encoding_name set
from_content_type header c =
    if leb c.priority (rank content_type)
    then elim (match_charset header) [
      | none ↦ (c, false)
      | some charset ↦ set (get_encoding_name charset) content_type c
    ]
    else (c, false)

unfoldable pub from_url : Text → Charset → Charset × Bool
unfolding get_encoding_name set
from_url charset_from_url c =
    if not (is_empty charset_from_url) && leb c.priority (rank url)
    then set (get_encoding_name charset_from_url) url c
    else (c, false)

-- An attribute that is absent is empty.
pub record MetaInfo : Type 0 where
  pub http_equiv : Text
  pub content : Text
  pub charset_attr : Text

abbrev pub drop_space : Text → Text
drop_space [] = []
drop_space (c ∷ s) = if c == 32 then s else c ∷ s

abbrev pub is_quote : ℕ → Bool
is_quote c = c == 34 || c == 39

abbrev pub drop_quote : Text → Text
drop_quote [] = []
drop_quote (c ∷ s) = if is_quote c then s else c ∷ s

-- `[^ ;"']*`
unfoldable pub take_value : Text → Text
take_value [] = []
take_value (c ∷ s) =
    let rest = take_value s in if c == 32 || c == b';' || is_quote c then [] else c ∷ rest

unfoldable pub value_after_equals : Text → Option Text
unfolding take_value
value_after_equals [] = none
value_after_equals (c ∷ s) =
    if c == b'=' then some (take_value (drop_quote (drop_space s))) else none

unfoldable pub meta_charset_at : Option Text → Option Text
unfolding value_after_equals
meta_charset_at none = none
meta_charset_at (some s) = value_after_equals (drop_space s)

-- `content.match(META_CHARSET_RE)`: the leftmost match
unfoldable pub match_meta_charset : Text → Option Text
unfolding drop_prefix meta_charset_at
match_meta_charset [] = none
match_meta_charset (c ∷ s) =
    or_else (meta_charset_at (drop_prefix (codes "charset") (c ∷ s))) (match_meta_charset s)

-- The variables of the loop of `fromMeta`.
pub record MetaLoop : Type 0 where
  pub need_pragma : Bool
  pub charset_str : Text

unfoldable pub from_content_attr : MetaInfo → MetaLoop → MetaLoop
unfolding match_meta_charset
from_content_attr attrs l =
    if l.need_pragma
      && not (is_empty attrs.content)
      && not (is_empty attrs.http_equiv)
      && text_eq (to_lower attrs.http_equiv) (codes "content-type")
    then elim (match_meta_charset attrs.content) [
      | none ↦ l
      | some s ↦ record { need_pragma = true; charset_str = s }
    ]
    else l

abbrev pub from_charset_attr : MetaInfo → MetaLoop → MetaLoop
from_charset_attr attrs l =
    if is_empty attrs.charset_attr
    then l
    else record { need_pragma = false; charset_str = attrs.charset_attr }

unfoldable pub meta_loop : List MetaInfo → MetaLoop → MetaLoop
unfolding from_content_attr
meta_loop [] l = l
meta_loop (attrs ∷ metas) l = meta_loop metas (from_charset_attr attrs (from_content_attr attrs l))

unfoldable pub from_meta : List MetaInfo → Charset → Charset × Bool
unfolding meta_loop get_encoding_name set
from_meta [] c = (c, false)
from_meta (m ∷ metas) c =
    if ltb c.priority (rank meta)
    then set
        (get_encoding_name
          (meta_loop (m ∷ metas) (record { need_pragma = true; charset_str = [] })).charset_str)
        meta c
    else (c, false)

-- The sources, and a sequence of them.
pub data Source : Type 0 where
  res_buf : List ℕ → Source
  content_type_header : Text → Source
  charset_from_url : Text → Source
  metas : List MetaInfo → Source

unfoldable pub from_source : Source → Charset → Charset × Bool
unfolding from_bom from_content_type from_url from_meta
from_source (res_buf b) c = from_bom b c
from_source (content_type_header h) c = from_content_type h c
from_source (charset_from_url u) c = from_url u c
from_source (metas l) c = from_meta l c

unfoldable pub from_sources : List Source → Charset → Charset
unfolding from_source
from_sources [] c = c
from_sources (s ∷ sources) c = from_sources sources (from_source s c).0
