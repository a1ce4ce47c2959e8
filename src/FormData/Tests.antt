-- ===== src/FormData/Tests.antt =====
-- A form of one field, and a file for it.
use testcafe_hammerhead.Common.{◌≡◌, refl, none, some, List, [], ◌∷◌, ◌++◌, map, length}
use testcafe_hammerhead.Common.Chars.{Text, codes}
use testcafe_hammerhead.Charset.Labels.{trim_left}
use testcafe_hammerhead.FormData.RoundTrip.{with_boundaries}
use testcafe_hammerhead.FormData.Lines.{crlf, join, create_line_iterator}
use testcafe_hammerhead.FormData.Entry.{
  Codec, FileInfo, FileInputInfo, FormDataEntry, new_entry, match_header, set_raw_header,
}
use testcafe_hammerhead.FormData.{to_buffer, parse_content_type_header}
use testcafe_hammerhead.FormData.Uploads.{inject, inject_file_info, get_entries_by_name}
use testcafe_hammerhead.FormData.Messages.{
  Part, Message, message_lines, IsMessage, IsHeader, entry_of,
}
use testcafe_hammerhead.FormData.Injection.{inject-unchanged}
use testcafe_hammerhead.FormData.Files.{bodies, file_body, drop, inject_file_info-bodies}

-- Texts of one byte a character.
abbrev codec : Codec
codec = record { encode = λ s. s; decode = λ s. s; from_base64 = λ s. s; parse_json = λ s. none }

abbrev field : Text × Text
field = (codes "Content-Disposition", codes "form-data; name=\"a\"")

abbrev part : Part
part = record { headers = field ∷ []; line = codes "1"; lines = codes "2" ∷ [] }

abbrev message : Message
message = record { preamble = []; parts = part ∷ []; line = []; lines = [] }

field_lines :
    create_line_iterator (join (message_lines codec (codes "--b") (codes "--b--") message))
    ≡ codes "--b"
      ∷ codes "Content-Disposition: form-data; name=\"a\""
      ∷ []
      ∷ codes "1"
      ∷ codes "2"
      ∷ codes "--b--"
      ∷ []
      ∷ []
unfolding create_line_iterator
field_lines = refl

field-IsHeader : IsHeader codec (codes "--b") (codes "--b--") field
unfolding match_header trim_left
field-IsHeader = record { plain = (refl, refl); not_empty = refl; decoded = refl; matched = refl }

message-IsMessage : IsMessage codec (codes "--b") (codes "--b--") message
message-IsMessage = record {
  preamble = tt;
  parts = (
    record {
      headers = (field-IsHeader, tt);
      apart = (tt, tt);
      plain = ((refl, refl), ((refl, refl), tt));
    },
    tt,
  );
  epilogue = ((refl, refl), tt);
  separated = (refl, (refl, (refl, (refl, (refl, (refl, (refl, tt)))))));
}

inject-unchanged_example :
    inject codec
      (codes "multipart/form-data; boundary=b")
      (join (message_lines codec (codes "--b") (codes "--b--") message))
    ≡ some (some (join (message_lines codec (codes "--b") (codes "--b--") message)))
unfolding parse_content_type_header get_entries_by_name set_raw_header
inject-unchanged_example =
    inject-unchanged codec (codes "multipart/form-data; boundary=b") (codes "--b") (codes "--b--")
      message refl message-IsMessage (refl, refl) refl refl

abbrev file : FileInfo
file = record { name = codes "f.txt"; type = codes "text/plain"; file_data = codes "x" }

abbrev input : FileInputInfo
input = record { name = codes "a"; files = file ∷ file ∷ [] }

abbrev entries : List FormDataEntry
entries = entry_of part ∷ record new_entry { name = codes "c" } ∷ []

inject_file_info-bodies_example :
    bodies (codes "a") (inject_file_info codec input entries)
    ≡ map (file_body codec) (file ∷ file ∷ [])
      ++ drop (bodies (codes "a") entries) (length (map (file_body codec) (file ∷ file ∷ [])))
inject_file_info-bodies_example = inject_file_info-bodies codec input entries

-- Printing a second time prints what was printed before again.
printed_twice :
    (to_buffer codec (to_buffer codec (with_boundaries (codes "--b") (codes "--b--"))).1).0
    ≡ some (codes "--b--" ++ crlf ++ crlf ++ codes "--b--" ++ crlf)
unfolding to_buffer
printed_twice = refl
