-- ===== src/FormData/Entry.antt =====
-- upload/form-data-entry.ts: one part of a multipart body.
--
-- `Buffer.from` of a text and `toString` of a buffer are the functions of a `Codec`, the decoding of
-- base64 and `JSON.parse` too. A `Map` is a list of its pairs in the order of their insertion.
use testcafe_hammerhead.Common.{
  ℕ, Bool, not, ◌&&◌, ◌||◌, ◌==◌, Option, none, some, List, [], ◌∷◌, ◌++◌, all_of, if◌then◌else◌,
}
use testcafe_hammerhead.Common.Chars.{Text, codes, to_lower, text_eq, is_empty}
use testcafe_hammerhead.Charset.Labels.{trim_left}
use testcafe_hammerhead.FormData.Lines.{crlf, concat}

pub record FileInfo : Type 0 where
  pub name : Text
  pub type : Text
  pub file_data : Text

pub record FileInputInfo : Type 0 where
  pub name : Text
  pub files : List FileInfo

pub record Codec : Type 0 where
  pub encode : Text → Text
  pub decode : Text → Text
  pub from_base64 : Text → Text
  pub parse_json : Text → Option (List FileInputInfo)

pub record Header : Type 0 where
  pub raw_name : Text
  pub value : Text

pub record FormDataEntry : Type 0 where
  pub headers : List (Text × Header)
  pub body : List Text
  pub name : Text
  pub file_name : Text

abbrev pub new_entry : FormDataEntry
new_entry = record { headers = []; body = []; name = []; file_name = [] }

unfoldable pub set : Text → Header → List (Text × Header) → List (Text × Header)
set name header [] = (name, header) ∷ []
set name header ((key, old) ∷ rest) =
    let others = set name header rest in
    if text_eq key name then (key, header) ∷ rest else (key, old) ∷ others

unfoldable pub get : Text → List (Text × Header) → Option Header
get name [] = none
get name ((key, header) ∷ rest) =
    let found = get name rest in if text_eq key name then some header else found

-- The text up to a quotation mark, if there is one.
unfoldable pub quoted : Text → Option Text
quoted [] = none
quoted (c ∷ s) =
    let rest = quoted s in
    if c == 34 then some [] else elim rest [ none ↦ none | some t ↦ some (c ∷ t) ]

-- What follows a key in letters of either case.
abbrev pub after_key : Text → Text → Option Text
after_key [] s = some s
after_key (k ∷ key) [] = none
after_key (k ∷ key) (c ∷ s) =
    let rest = after_key key s in if text_eq (to_lower (c ∷ [])) (k ∷ []) then rest else none

abbrev pub quoted_after : Text → Text → Option Text
quoted_after key s = elim (after_key key (trim_left s)) [ none ↦ none | some t ↦ quoted t ]

abbrev pub or_else : Option Text → Option Text → Option Text
or_else none y = y
or_else (some t) y = some t

-- `INPUT_NAME_RE` and `FILE_NAME_RE`, by their key and its opening quotation mark
unfoldable pub match_parameter : Text → Text → Option Text
unfolding quoted trim_left
match_parameter key [] = none
match_parameter key (c ∷ s) =
    let rest = match_parameter key s in if c == 59 then or_else (quoted_after key s) rest else rest

abbrev pub or_empty : Option Text → Text
or_empty none = []
or_empty (some t) = t

-- `_parseContentDisposition`
unfoldable pub parse_content_disposition : Text → FormDataEntry → FormDataEntry
unfolding match_parameter
parse_content_disposition content_disposition e = record e {
  name = or_empty (match_parameter (codes "name=\"") content_disposition);
  file_name = or_empty (match_parameter (codes "filename=\"") content_disposition);
}

-- The line ends that a dot does not match.
abbrev pub is_line_end : ℕ → Bool
is_line_end c = c == 10 || c == 13 || c == 8232 || c == 8233

-- `HEADER_RE`, after the text that is taken for the name so far
unfoldable pub match_header : Text → Text → Option (Text × Text)
unfolding trim_left
match_header raw_name [] = none
match_header raw_name (c ∷ s) =
    let longer = match_header (raw_name ++ c ∷ []) s in
    if c == 58 && not (is_empty raw_name) && all_of (λ d. not (is_line_end d)) (trim_left s)
    then some (raw_name, trim_left s)
    else if is_line_end c
    then none
    else longer

-- `_setHeader`
abbrev pub new_header : Text → Option Text → Text → Header
new_header name none value = record { raw_name = name; value = value }
new_header name (some raw) value = record { raw_name = raw; value = value }

abbrev pub renewed : Text → Text → Option Text → Option Header → Header
renewed name value raw none = new_header name raw value
renewed name value raw (some header) = record header { value = value }

unfoldable pub set_header : Text → Text → Option Text → FormDataEntry → FormDataEntry
unfolding set get
set_header name value raw e = record e {
  headers = set name (renewed name value raw (get name e.headers)) e.headers;
}

-- `_setContentDisposition`
unfoldable pub set_content_disposition : Text → Text → FormDataEntry → FormDataEntry
unfolding set_header
set_content_disposition name file_name e =
    set_header (codes "content-disposition")
      (concat
        (codes "form-data; name=\"" ∷ name ∷ codes "\"; filename=\"" ∷ file_name ∷ codes "\"" ∷ []))
      none (record e { name = name; file_name = file_name })

unfoldable pub add_file_info : Codec → Text → FileInfo → FormDataEntry → FormDataEntry
unfolding set_content_disposition set_header
add_file_info codec name file e =
    let disposed = set_content_disposition name file.name e in
    set_header (codes "content-type") file.type none
      (record disposed { body = codec.from_base64 file.file_data ∷ [] })

-- The raw name and the value of a header line; both are empty if it is none.
abbrev pub header_parts : Option (Text × Text) → Text × Text
header_parts none = ([], [])
header_parts (some parts) = parts

unfoldable pub set_parts : Text → Text → FormDataEntry → FormDataEntry
unfolding set parse_content_disposition
set_parts raw_name value e =
    let stored = record e {
      headers = set (to_lower raw_name) (record { raw_name = raw_name; value = value }) e.headers;
    } in
    if text_eq (to_lower raw_name) (codes "content-disposition")
    then parse_content_disposition value stored
    else stored

unfoldable pub set_raw_header : Text → FormDataEntry → FormDataEntry
unfolding match_header set_parts
set_raw_header raw_header e =
    set_parts (header_parts (match_header [] raw_header)).0
      (header_parts (match_header [] raw_header)).1 e

abbrev pub header_chunks : Codec → List (Text × Header) → List Text
header_chunks codec [] = crlf ∷ []
header_chunks codec ((name, header) ∷ rest) =
    codec.encode (header.raw_name ++ codes ": " ++ header.value) ∷ crlf ∷ header_chunks codec rest

-- `toBuffer`
unfoldable pub entry_to_buffer : Codec → FormDataEntry → Text
entry_to_buffer codec e = concat (header_chunks codec e.headers ++ e.body)

abbrev pub copy_headers : List (Text × Header) → FormDataEntry → FormDataEntry
copy_headers [] e = e
copy_headers ((name, header) ∷ rest) e =
    copy_headers rest (set_header name [] (some header.raw_name) e)

unfoldable pub clone_with_raw_headers : FormDataEntry → FormDataEntry
unfolding set_header
clone_with_raw_headers e = copy_headers e.headers new_entry
