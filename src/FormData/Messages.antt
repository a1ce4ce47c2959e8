-- ===== src/FormData/Messages.antt =====
-- Multipart messages, as lines: what a form data object stands for.
use testcafe_hammerhead.Common.{◌≡◌, false, some, List, [], ◌∷◌, ◌++◌, map, All}
use testcafe_hammerhead.Common.Chars.{Text, codes, to_lower, text_eq, is_empty}
use testcafe_hammerhead.FormData.Lines.{IsLine, append_line}
use testcafe_hammerhead.FormData.Entry.{
  Codec, FormDataEntry, new_entry, set_raw_header, match_header,
}
use testcafe_hammerhead.FormData.{FormData}

-- A part has its headers, raw name and value, and the lines of its body.
pub record Part : Type 0 where
  pub headers : List (Text × Text)
  pub line : Text
  pub lines : List Text

pub record Message : Type 0 where
  pub preamble : List Text
  pub parts : List Part
  pub line : Text
  pub lines : List Text

abbrev pub header_text : Text × Text → Text
header_text h = h.0 ++ codes ": " ++ h.1

abbrev pub IsApart : Text × Text → List (Text × Text) → Type 0
IsApart h hs = All (λ g. text_eq (to_lower h.0) (to_lower g.0) ≡ false) hs

-- No two headers of a part have the same name.
abbrev pub AllApart : List (Text × Text) → Type 0
AllApart [] = Unit
AllApart (h ∷ hs) = IsApart h hs × AllApart hs

module _ (codec : Codec) where
  abbrev pub header_lines : List (Text × Text) → List Text
  header_lines [] = []
  header_lines (h ∷ hs) = codec.encode (header_text h) ∷ header_lines hs

  module _ (boundary boundary_end : Text) where
    abbrev pub parts_lines : List Part → List Text
    parts_lines [] = []
    parts_lines (q ∷ qs) =
        boundary ∷ (header_lines q.headers ++ [] ∷ q.line ∷ (q.lines ++ parts_lines qs))

    abbrev pub message_lines : Message → List Text
    message_lines m = m.preamble ++ (parts_lines m.parts ++ boundary_end ∷ m.line ∷ m.lines)

    -- A line that is no boundary.
    abbrev pub IsPlain : Text → Type 0
    IsPlain line = (text_eq boundary line ≡ false) × (text_eq boundary_end line ≡ false)

    -- A header line that is decoded and matched as what it was made of.
    pub record IsHeader (h : Text × Text) : Type 0 where
      pub plain : IsPlain (codec.encode (header_text h))
      pub not_empty : is_empty (codec.encode (header_text h)) ≡ false
      pub decoded : codec.decode (codec.encode (header_text h)) ≡ header_text h
      pub matched : match_header [] (header_text h) ≡ some h

    pub record IsPart (q : Part) : Type 0 where
      pub headers : All IsHeader q.headers
      pub apart : AllApart q.headers
      pub plain : All IsPlain (q.line ∷ q.lines)

    pub record IsMessage (m : Message) : Type 0 where
      pub preamble : All IsPlain m.preamble
      pub parts : All IsPart m.parts
      pub epilogue : All IsPlain (m.line ∷ m.lines)
      pub separated : All IsLine (message_lines m)

abbrev pub append_all : List Text → List Text → List Text
append_all chunks [] = chunks
append_all chunks (line ∷ lines) = append_all (append_line chunks line) lines

abbrev pub read_headers : List (Text × Text) → FormDataEntry → FormDataEntry
read_headers [] e = e
read_headers (h ∷ hs) e = read_headers hs (set_raw_header (header_text h) e)

abbrev pub entry_of : Part → FormDataEntry
entry_of q =
    let read = read_headers q.headers new_entry in
    record read { body = append_all read.body (q.line ∷ q.lines) }

-- The form data object of a message.
abbrev pub with_message : Message → FormData → FormData
with_message m f = record f {
  preamble = append_all f.preamble m.preamble;
  entries = f.entries ++ map entry_of m.parts;
  epilogue = append_all f.epilogue (m.line ∷ m.lines);
}
