-- ===== src/FormData.antt =====
-- upload/form-data.ts and upload/index.ts: the body of a form that the proxy adds uploaded files to.
--
-- A throwing call gives no value. `parseBody` is only called with both boundaries set or with none.
pub mod Lines
pub mod Entry
pub mod Uploads
pub mod Messages
pub mod Reading
pub mod Printing
pub mod RoundTrip
pub mod Injection
pub mod Files
mod Tests
use testcafe_hammerhead.Common.{
  ◌≡◌, ℕ, Bool, true, false, not, ◌&&◌, ◌||◌, ◌==◌, Option, none, some, List, [], ◌∷◌, ◌++◌, length,
  if◌then◌else◌, suc, zero,
}
use testcafe_hammerhead.Common.Chars.{Text, codes, to_lower, text_eq, is_empty, includes}
use testcafe_hammerhead.Charset.Labels.{trim_left}
use testcafe_hammerhead.FormData.Lines.{crlf, concat, append_line, create_line_iterator}
use testcafe_hammerhead.FormData.Entry.{
  Codec, FileInfo, FileInputInfo, FormDataEntry, new_entry, add_file_info, set_raw_header,
  entry_to_buffer, clone_with_raw_headers, after_key,
}

pub record FormData : Type 0 where
  pub boundary : Option Text
  pub boundary_end : Option Text
  pub epilogue : List Text
  pub entries : List FormDataEntry
  pub preamble : List Text

abbrev pub new_form_data : FormData
new_form_data = record {
  boundary = none;
  boundary_end = none;
  epilogue = [];
  entries = [];
  preamble = [];
}

pub data ParserState : Type 0 where
  in_preamble in_headers in_body in_epilogue : ParserState

-- What `parseBody` keeps while it runs over the lines.
pub record Parse : Type 0 where
  pub state : ParserState
  pub current_entry : Option FormDataEntry
  pub form : FormData

abbrev pub push_entry : Option FormDataEntry → FormData → FormData
push_entry none f = f
push_entry (some e) f = record f { entries = f.entries ++ e ∷ [] }

-- A line that is no boundary.
unfoldable pub parse_plain_line :
    Codec → ParserState → Option FormDataEntry → Text → FormData → Parse
unfolding append_line set_raw_header
parse_plain_line codec in_preamble current line f = record {
  state = in_preamble;
  current_entry = current;
  form = record f { preamble = append_line f.preamble line };
}
parse_plain_line codec in_headers current [] f = record {
  state = in_body;
  current_entry = current;
  form = f;
}
parse_plain_line codec in_headers none (c ∷ line) f = record {
  state = in_headers;
  current_entry = none;
  form = f;
}
parse_plain_line codec in_headers (some e) (c ∷ line) f = record {
  state = in_headers;
  current_entry = some (set_raw_header (codec.decode (c ∷ line)) e);
  form = f;
}
parse_plain_line codec in_epilogue current line f = record {
  state = in_epilogue;
  current_entry = current;
  form = record f { epilogue = append_line f.epilogue line };
}
parse_plain_line codec in_body none line f = record {
  state = in_body;
  current_entry = none;
  form = f;
}
parse_plain_line codec in_body (some e) line f = record {
  state = in_body;
  current_entry = some (record e { body = append_line e.body line });
  form = f;
}

-- One round of the loop, with the two boundaries.
unfoldable pub parse_line : Codec → Text → Text → Parse → Text → Parse
unfolding parse_plain_line
parse_line codec boundary boundary_end p line =
    if text_eq boundary line
    then record {
      state = in_headers;
      current_entry = some new_entry;
      form = push_entry p.current_entry p.form;
    }
    else if text_eq boundary_end line
    then record p { state = in_epilogue; form = push_entry p.current_entry p.form }
    else parse_plain_line codec p.state p.current_entry line p.form

unfoldable pub parse_lines : Codec → Text → Text → Parse → List Text → Parse
unfolding parse_line
parse_lines codec b e p [] = p
parse_lines codec b e p (line ∷ lines) = parse_lines codec b e (parse_line codec b e p line) lines

abbrev pub parse_with : Codec → Option Text → Option Text → FormData → List Text → Option FormData
parse_with codec boundary boundary_end f [] = some f
parse_with codec (some b) (some e) f (line ∷ lines) =
    some
      (parse_lines codec b e (record { state = in_preamble; current_entry = none; form = f })
        (line ∷ lines)).form
parse_with codec _ _ f (line ∷ lines) = none

unfoldable pub parse_body : Codec → FormData → Text → Option FormData
unfolding parse_lines create_line_iterator
parse_body codec f body = parse_with codec f.boundary f.boundary_end f (create_line_iterator body)

-- `BOUNDARY_RE`: what follows the first `boundary=`, up to a semicolon
abbrev pub up_to_semicolon : Text → Text
up_to_semicolon [] = []
up_to_semicolon (c ∷ s) = let rest = up_to_semicolon s in if c == 59 then [] else c ∷ rest

abbrev pub boundary_match : Option Text → Option Text → Option Text
boundary_match none rest = rest
boundary_match (some s) rest = some (up_to_semicolon s)

unfoldable pub match_boundary : Text → Option Text
unfolding trim_left
match_boundary [] = none
match_boundary (c ∷ s) =
    let rest = match_boundary s in
    if c == 59 then boundary_match (after_key (codes "boundary=") (trim_left s)) rest else rest

abbrev pub with_token : Codec → Option Text → FormData → FormData
with_token codec none f = f
with_token codec (some []) f = f
with_token codec (some (c ∷ token)) f = record f {
  boundary = some (codec.encode (codes "--" ++ c ∷ token));
  boundary_end = some (codec.encode (codes "--" ++ (c ∷ token) ++ codes "--"));
}

unfoldable pub parse_content_type_header : Codec → Text → FormData → FormData
unfolding match_boundary
parse_content_type_header codec header f =
    if includes header (codes "multipart/form-data")
    then with_token codec (match_boundary header) f
    else f

-- `toBuffer`: what it gives, and the form data after it, whose preamble the chunks are pushed to
unfoldable pub entry_chunks : Codec → Text → List FormDataEntry → List Text
unfolding entry_to_buffer
entry_chunks codec boundary [] = []
entry_chunks codec boundary (e ∷ entries) =
    (boundary ∷ crlf ∷ entry_to_buffer codec e ∷ crlf ∷ []) ++ entry_chunks codec boundary entries

abbrev pub opened : List Text → List Text
opened [] = []
opened (chunk ∷ chunks) = (chunk ∷ chunks) ++ crlf ∷ []

abbrev pub pushed_chunks : Codec → Text → Text → FormData → List Text
pushed_chunks codec boundary boundary_end f =
    opened f.preamble ++ (entry_chunks codec boundary f.entries ++ (boundary_end ∷ crlf ∷ []))

abbrev pub print_with : Codec → Option Text → Option Text → FormData → Option Text × FormData
print_with codec (some b) (some e) f = (
  some (concat (pushed_chunks codec b e f ++ f.epilogue)),
  record f { preamble = pushed_chunks codec b e f },
)
print_with codec _ _ f = (none, f)

unfoldable pub to_buffer : Codec → FormData → Option Text × FormData
unfolding entry_chunks
to_buffer codec f = print_with codec f.boundary f.boundary_end f
