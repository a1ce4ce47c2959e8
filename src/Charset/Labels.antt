-- ===== src/Charset/Labels.antt =====
-- processing/encoding/labels.ts, with utils/string-trim.ts: the name of an encoding by its label.
use testcafe_hammerhead.Common.{
  ℕ, Bool, ◌&&◌, ◌||◌, ◌==◌, leb, Option, none, some, List, [], ◌∷◌, String, any_of, map,
  if◌then◌else◌,
}
use testcafe_hammerhead.Common.Chars.{Text, codes, to_lower, text_eq, is_empty}

abbrev row : String → List String → Text × List Text
row encoding labels = (codes encoding, map codes labels)

-- `ENCODING_LABELS`
abbrev pub encoding_labels : List (Text × List Text)
encoding_labels =
    row "utf-8" ("unicode-1-1-utf-8" ∷ "utf-8" ∷ "utf8" ∷ [])
    ∷ row "ibm866" ("866" ∷ "cp866" ∷ "csibm866" ∷ "ibm866" ∷ [])
    ∷ row "iso-8859-2" (
        "csisolatin2" ∷ "iso-8859-2" ∷ "iso-ir-101" ∷ "iso8859-2" ∷ "iso88592" ∷ "iso_8859-2"
        ∷ "iso_8859-2:1987" ∷ "l2" ∷ "latin2" ∷ [])
    ∷ row "iso-8859-3" (
        "csisolatin3" ∷ "iso-8859-3" ∷ "iso-ir-109" ∷ "iso8859-3" ∷ "iso88593" ∷ "iso_8859-3"
        ∷ "iso_8859-3:1988" ∷ "l3" ∷ "latin3" ∷ [])
    ∷ row "iso-8859-4" (
        "csisolatin4" ∷ "iso-8859-4" ∷ "iso-ir-110" ∷ "iso8859-4" ∷ "iso88594" ∷ "iso_8859-4"
        ∷ "iso_8859-4:1988" ∷ "l4" ∷ "latin4" ∷ [])
    ∷ row "iso-8859-5" (
        "csisolatincyrillic" ∷ "cyrillic" ∷ "iso-8859-5" ∷ "iso-ir-144" ∷ "iso8859-5" ∷ "iso88595"
        ∷ "iso_8859-5" ∷ "iso_8859-5:1988" ∷ [])
    ∷ row "iso-8859-6" (
        "arabic" ∷ "asmo-708" ∷ "csiso88596e" ∷ "csiso88596i" ∷ "csisolatinarabic" ∷ "ecma-114"
        ∷ "iso-8859-6" ∷ "iso-8859-6-e" ∷ "iso-8859-6-i" ∷ "iso-ir-127" ∷ "iso8859-6" ∷ "iso88596"
        ∷ "iso_8859-6" ∷ "iso_8859-6:1987" ∷ [])
    ∷ row "iso-8859-7" (
        "csisolatingreek" ∷ "ecma-118" ∷ "elot_928" ∷ "greek" ∷ "greek8" ∷ "iso-8859-7"
        ∷ "iso-ir-126" ∷ "iso8859-7" ∷ "iso88597" ∷ "iso_8859-7" ∷ "iso_8859-7:1987"
        ∷ "sun_eu_greek" ∷ [])
    ∷ row "iso-8859-8" (
        "csiso88598e" ∷ "csisolatinhebrew" ∷ "hebrew" ∷ "iso-8859-8" ∷ "iso-8859-8-e" ∷ "iso-ir-138"
        ∷ "iso8859-8" ∷ "iso88598" ∷ "iso_8859-8" ∷ "iso_8859-8:1988" ∷ "visual" ∷ [])
    ∷ row "iso-8859-8-i" ("csiso88598i" ∷ "iso-8859-8-i" ∷ "logical" ∷ [])
    ∷ row "iso-8859-10" (
        "csisolatin6" ∷ "iso-8859-10" ∷ "iso-ir-157" ∷ "iso8859-10" ∷ "iso885910" ∷ "l6" ∷ "latin6"
        ∷ [])
    ∷ row "iso-8859-13" ("iso-8859-13" ∷ "iso8859-13" ∷ "iso885913" ∷ [])
    ∷ row "iso-8859-14" ("iso-8859-14" ∷ "iso8859-14" ∷ "iso885914" ∷ [])
    ∷ row "iso-8859-15"
        ("csisolatin9" ∷ "iso-8859-15" ∷ "iso8859-15" ∷ "iso885915" ∷ "iso_8859-15" ∷ "l9" ∷ [])
    ∷ row "iso-8859-16" ("iso-8859-16" ∷ [])
    ∷ row "koi8-r" ("cskoi8r" ∷ "koi" ∷ "koi8" ∷ "koi8-r" ∷ "koi8_r" ∷ [])
    ∷ row "koi8-u" ("koi8-ru" ∷ "koi8-u" ∷ [])
    ∷ row "macintosh" ("csmacintosh" ∷ "mac" ∷ "macintosh" ∷ "x-mac-roman" ∷ [])
    ∷ row "windows-874"
        ("dos-874" ∷ "iso-8859-11" ∷ "iso8859-11" ∷ "iso885911" ∷ "tis-620" ∷ "windows-874" ∷ [])
    ∷ row "windows-1250" ("cp1250" ∷ "windows-1250" ∷ "x-cp1250" ∷ [])
    ∷ row "windows-1251" ("cp1251" ∷ "windows-1251" ∷ "x-cp1251" ∷ [])
    ∷ row "windows-1252" (
        "ansi_x3.4-1968" ∷ "ascii" ∷ "cp1252" ∷ "cp819" ∷ "csisolatin1" ∷ "ibm819" ∷ "iso-8859-1"
        ∷ "iso-ir-100" ∷ "iso8859-1" ∷ "iso88591" ∷ "iso_8859-1" ∷ "iso_8859-1:1987" ∷ "l1"
        ∷ "latin1" ∷ "us-ascii" ∷ "windows-1252" ∷ "x-cp1252" ∷ [])
    ∷ row "windows-1253" ("cp1253" ∷ "windows-1253" ∷ "x-cp1253" ∷ [])
    ∷ row "windows-1254" (
        "cp1254" ∷ "csisolatin5" ∷ "iso-8859-9" ∷ "iso-ir-148" ∷ "iso8859-9" ∷ "iso88599"
        ∷ "iso_8859-9" ∷ "iso_8859-9:1989" ∷ "l5" ∷ "latin5" ∷ "windows-1254" ∷ "x-cp1254" ∷ [])
    ∷ row "windows-1255" ("cp1255" ∷ "windows-1255" ∷ "x-cp1255" ∷ [])
    ∷ row "windows-1256" ("cp1256" ∷ "windows-1256" ∷ "x-cp1256" ∷ [])
    ∷ row "windows-1257" ("cp1257" ∷ "windows-1257" ∷ "x-cp1257" ∷ [])
    ∷ row "windows-1258" ("cp1258" ∷ "windows-1258" ∷ "x-cp1258" ∷ [])
    ∷ row "x-mac-cyrillic" ("x-mac-cyrillic" ∷ "x-mac-ukrainian" ∷ [])
    ∷ row "gbk" (
        "chinese" ∷ "csgb2312" ∷ "csiso58gb231280" ∷ "gb2312" ∷ "gb_2312" ∷ "gb_2312-80" ∷ "gbk"
        ∷ "iso-ir-58" ∷ "x-gbk" ∷ [])
    ∷ row "gb18030" ("gb18030" ∷ [])
    ∷ row "big5" ("big5" ∷ "big5-hkscs" ∷ "cn-big5" ∷ "csbig5" ∷ "x-x-big5" ∷ [])
    ∷ row "euc-jp" ("cseucpkdfmtjapanese" ∷ "euc-jp" ∷ "x-euc-jp" ∷ [])
    ∷ row "iso-2022-jp" ("csiso2022jp" ∷ "iso-2022-jp" ∷ [])
    ∷ row "shift_jis" (
        "csshiftjis" ∷ "ms932" ∷ "ms_kanji" ∷ "shift-jis" ∷ "shift_jis" ∷ "sjis" ∷ "windows-31j"
        ∷ "x-sjis" ∷ [])
    ∷ row "euc-kr" (
        "cseuckr" ∷ "csksc56011987" ∷ "euc-kr" ∷ "iso-ir-149" ∷ "korean" ∷ "ks_c_5601-1987"
        ∷ "ks_c_5601-1989" ∷ "ksc5601" ∷ "ksc_5601" ∷ "windows-949" ∷ [])
    ∷ row "replacement"
        ("csiso2022kr" ∷ "hz-gb-2312" ∷ "iso-2022-cn" ∷ "iso-2022-cn-ext" ∷ "iso-2022-kr" ∷ [])
    ∷ row "utf-16be" ("utf-16be" ∷ [])
    ∷ row "utf-16le" ("utf-16" ∷ "utf-16le" ∷ [])
    ∷ row "x-user-defined" ("x-user-defined" ∷ [])
    ∷ []

-- A character that `\s` matches.
abbrev pub is_space : ℕ → Bool
is_space c =
    (leb 9 c && leb c 13)
    || c == 32
    || c == 160
    || c == 5760
    || (leb 8192 c && leb c 8202)
    || c == 8232
    || c == 8233
    || c == 8239
    || c == 8287
    || c == 12288
    || c == 65279

unfoldable pub trim_left : Text → Text
trim_left [] = []
trim_left (c ∷ s) = let t = trim_left s in if is_space c then t else c ∷ s

unfoldable pub trim_right : Text → Text
trim_right [] = []
trim_right (c ∷ s) = let t = trim_right s in if is_space c && is_empty t then [] else c ∷ t

unfoldable pub trim : Text → Text
unfolding trim_left trim_right
trim s = trim_right (trim_left s)

-- What `getEncodingName` gives: nothing (an empty or an undefined value), the name of an encoding,
-- or what the table, which is a plain object, inherits from `Object.prototype` under the label.
pub data EncodingName : Type 0 where
  no_name : EncodingName
  name inherited : Text → EncodingName

-- The table that the labels are written to, a later row over an earlier one.
unfoldable pub find_encoding : List (Text × List Text) → Text → Option Text
find_encoding [] label = none
find_encoding ((encoding, labels) ∷ rows) label = elim (find_encoding rows label) [
  | some e ↦ some e
  | none ↦ if any_of (text_eq label) labels then some encoding else none
]

-- Of the names that `Object.prototype` has, those without a capital letter.
abbrev pub is_inherited : Text → Bool
is_inherited label = any_of (λ s. text_eq label (codes s)) ("constructor" ∷ "__proto__" ∷ [])

-- `LOOKUP_TABLE[label]`, by what was written to the table
abbrev pub own_or_inherited : Text → Option Text → EncodingName
own_or_inherited label (some encoding) = name encoding
own_or_inherited label none = if is_inherited label then inherited label else no_name

unfoldable pub lookup_table : Text → EncodingName
unfolding find_encoding
lookup_table label = own_or_inherited label (find_encoding encoding_labels label)

unfoldable pub get_encoding_name : Text → EncodingName
unfolding lookup_table trim
get_encoding_name [] = no_name
get_encoding_name (c ∷ s) = lookup_table (trim (to_lower (c ∷ s)))
