-- ===== src/FormData/Reading.antt =====
-- What `parseBody` reads of a message.
use mathlib.Core.List.{append_assoc, append-nil}
use testcafe_hammerhead.Common.{
  ◌≡◌, refl, ap, sym, ◌∙◌, false, Option, none, some, List, [], ◌∷◌, ◌++◌, map, All, if-elim, clash,
}
use testcafe_hammerhead.Common.Chars.{Text, text_eq, is_empty}
use testcafe_hammerhead.Charset.Names.{text_eq_refl}
use testcafe_hammerhead.FormData.Lines.{append_line}
use testcafe_hammerhead.FormData.Entry.{Codec, FormDataEntry, new_entry, set_raw_header}
use testcafe_hammerhead.FormData.{
  FormData, ParserState, in_preamble, in_headers, in_body, in_epilogue, Parse, push_entry,
  parse_plain_line, parse_line, parse_lines,
}
use testcafe_hammerhead.FormData.Messages.{
  Part, Message, header_text, header_lines, parts_lines, message_lines, IsPlain, IsHeader, IsPart,
  IsMessage, append_all, read_headers, entry_of, with_message,
}

abbrev parse_at : ParserState → Option FormDataEntry → FormData → Parse
parse_at state entry f = record { state = state; current_entry = entry; form = f }

module _ (codec : Codec) (b e : Text) where
  plain_read :
      (p : Parse) (line : Text)
      → IsPlain codec b e line
      → parse_line codec b e p line ≡ parse_plain_line codec p.state p.current_entry line p.form
  unfolding parse_line
  plain_read p line (not_b, not_e) =
      if-elim (λ q. q ≡ parse_plain_line codec p.state p.current_entry line p.form) (text_eq b line)
        _ _ (λ x. absurd (clash (text_eq b line) x not_b))
        (λ x.
          if-elim (λ q. q ≡ parse_plain_line codec p.state p.current_entry line p.form)
            (text_eq e line) _ _ (λ y. absurd (clash (text_eq e line) y not_e)) (λ y. refl))

  preamble_read :
      (lines rest : List Text) (f : FormData)
      → All (IsPlain codec b e) lines
      → parse_lines codec b e (parse_at in_preamble (none) (f)) (lines ++ rest)
        ≡ parse_lines codec b e
            (parse_at in_preamble (none) (record f { preamble = append_all f.preamble lines }))
            rest
  unfolding parse_lines parse_plain_line
  preamble_read [] rest f h = refl
  preamble_read (line ∷ lines) rest f h =
      ap (λ p. parse_lines codec b e p (lines ++ rest))
        (plain_read (parse_at in_preamble none f) line h.0)
      ∙ preamble_read lines rest (record f { preamble = append_line f.preamble line }) h.1

  epilogue_read :
      (lines : List Text) (f : FormData) (x : Option FormDataEntry)
      → All (IsPlain codec b e) lines
      → (parse_lines codec b e (parse_at in_epilogue (x) (f)) lines).form
        ≡ record f { epilogue = append_all f.epilogue lines }
  unfolding parse_lines parse_plain_line
  epilogue_read [] f x h = refl
  epilogue_read (line ∷ lines) f x h =
      ap (λ p. (parse_lines codec b e p lines).form)
        (plain_read (parse_at in_epilogue x f) line h.0)
      ∙ epilogue_read lines (record f { epilogue = append_line f.epilogue line }) x h.1

  body_read :
      (lines rest : List Text) (x : FormDataEntry) (f : FormData)
      → All (IsPlain codec b e) lines
      → parse_lines codec b e (parse_at in_body (some x) (f)) (lines ++ rest)
        ≡ parse_lines codec b e
            (parse_at in_body (some (record x { body = append_all x.body lines })) (f))
            rest
  unfolding parse_lines parse_plain_line
  body_read [] rest x f h = refl
  body_read (line ∷ lines) rest x f h =
      ap (λ p. parse_lines codec b e p (lines ++ rest))
        (plain_read (parse_at in_body (some x) f) line h.0)
      ∙ body_read lines rest (record x { body = append_line x.body line }) f h.1

  header_read :
      (line : Text) (x : FormDataEntry) (f : FormData)
      → is_empty line ≡ false
      → parse_plain_line codec in_headers (some x) line f
        ≡ parse_at in_headers (some (set_raw_header (codec.decode line) x)) (f)
  unfolding parse_plain_line
  header_read [] x f h = cc
  header_read (c ∷ line) x f h = refl

  headers_read :
      (hs : List (Text × Text)) (rest : List Text) (x : FormDataEntry) (f : FormData)
      → All (IsHeader codec b e) hs
      → parse_lines codec b e (parse_at in_headers (some x) (f)) (header_lines codec hs ++ rest)
        ≡ parse_lines codec b e (parse_at in_headers (some (read_headers hs x)) (f)) rest
  unfolding parse_lines
  headers_read [] rest x f h = refl
  headers_read (g ∷ hs) rest x f (h, h') =
      let line = codec.encode (header_text g) in
      ap (λ p. parse_lines codec b e p (header_lines codec hs ++ rest))
        (plain_read (parse_at in_headers (some x) (f)) line h.plain
          ∙ header_read line x f h.not_empty
          ∙ ap (λ t. parse_at in_headers (some (set_raw_header t x)) (f)) h.decoded)
      ∙ headers_read hs rest (set_raw_header (header_text g) x) f h'

  boundary_read :
      (p : Parse)
      → parse_line codec b e p b
        ≡ parse_at in_headers (some new_entry) (push_entry p.current_entry p.form)
  unfolding parse_line
  boundary_read p =
      if-elim (λ q. q ≡ parse_at in_headers (some new_entry) (push_entry p.current_entry p.form))
        (text_eq b b) _ _ (λ x. refl) (λ x. absurd (clash (text_eq b b) (text_eq_refl b) x))

  boundary_end_read :
      (p : Parse)
      → text_eq b e ≡ false
      → parse_line codec b e p e
        ≡ parse_at in_epilogue p.current_entry (push_entry p.current_entry p.form)
  unfolding parse_line
  boundary_end_read p h =
      if-elim (λ q. q ≡ parse_at in_epilogue p.current_entry (push_entry p.current_entry p.form))
        (text_eq b e) _ _ (λ x. absurd (clash (text_eq b e) x h))
        (λ x.
          if-elim
            (λ q. q ≡ parse_at in_epilogue p.current_entry (push_entry p.current_entry p.form))
            (text_eq e e) _ _ (λ y. refl) (λ y. absurd (clash (text_eq e e) (text_eq_refl e) y)))

  empty_line_read :
      (x : FormDataEntry) (f : FormData)
      → IsPlain codec b e []
      → parse_line codec b e (parse_at in_headers (some x) f) [] ≡ parse_at in_body (some x) f
  unfolding parse_plain_line
  empty_line_read x f h = plain_read (parse_at in_headers (some x) f) [] h

  part_read :
      (p : Parse) (q : Part) (rest : List Text)
      → IsPart codec b e q
      → IsPlain codec b e []
      → parse_lines codec b e p
          (b ∷ (header_lines codec q.headers ++ [] ∷ q.line ∷ (q.lines ++ rest)))
        ≡ parse_lines codec b e
            (parse_at in_body (some (entry_of q)) (push_entry p.current_entry p.form))
            rest
  unfolding parse_lines
  part_read p q rest h empty =
      let f = push_entry p.current_entry p.form in
      let read = read_headers q.headers new_entry in
      ap
        (λ r.
          parse_lines codec b e r (header_lines codec q.headers ++ [] ∷ q.line ∷ (q.lines ++ rest)))
        (boundary_read p)
      ∙ headers_read q.headers ([] ∷ q.line ∷ (q.lines ++ rest)) new_entry f h.headers
      ∙ ap (λ r. parse_lines codec b e r (q.line ∷ (q.lines ++ rest)))
          (empty_line_read read f empty)
      ∙ body_read (q.line ∷ q.lines) rest read f h.plain

  -- The form data after the entries, with entries and epilogue lines added.
  abbrev extended : FormData → List FormDataEntry → List Text → FormData
  extended f entries lines = record f {
    entries = f.entries ++ entries;
    epilogue = append_all f.epilogue lines;
  }

  parts_read :
      (qs : List Part) (p : Parse) (lines : List Text)
      → All (IsPart codec b e) qs
      → All (IsPlain codec b e) lines
      → IsPlain codec b e []
      → text_eq b e ≡ false
      → (parse_lines codec b e p (parts_lines codec b e qs ++ e ∷ lines)).form
        ≡ extended (push_entry p.current_entry p.form) (map entry_of qs) lines
  unfolding parse_lines
  parts_read [] p lines h plain empty apart =
      let f = push_entry p.current_entry p.form in
      ap (λ r. (parse_lines codec b e r lines).form) (boundary_end_read p apart)
      ∙ epilogue_read lines f p.current_entry plain
      ∙ ap (λ es. record f { entries = es; epilogue = append_all f.epilogue lines })
          (sym (append-nil f.entries))
  parts_read (q ∷ qs) p lines (h, h') plain empty apart =
      let f = push_entry p.current_entry p.form in
      let rest = parts_lines codec b e qs ++ e ∷ lines in
      let others = parts_lines codec b e qs in
      ap (λ l. (parse_lines codec b e p (b ∷ l)).form)
        (append_assoc (header_lines codec q.headers) ([] ∷ q.line ∷ (q.lines ++ others)) (e ∷ lines)
          ∙ ap (λ l. header_lines codec q.headers ++ [] ∷ q.line ∷ l)
              (append_assoc q.lines others (e ∷ lines)))
      ∙ ap (λ r. r.form) (part_read p q rest h empty)
      ∙ parts_read qs (parse_at in_body (some (entry_of q)) f) lines h' plain empty apart
      ∙ ap (λ es. record f { entries = es; epilogue = append_all f.epilogue lines })
          (append_assoc f.entries (entry_of q ∷ []) (map entry_of qs))

  -- The lines of a message are read as the form data of the message.
  pub message_read :
      (m : Message) (f : FormData)
      → IsMessage codec b e m
      → IsPlain codec b e []
      → text_eq b e ≡ false
      → (parse_lines codec b e (parse_at in_preamble none f) (message_lines codec b e m)).form
        ≡ with_message m f
  message_read m f h empty apart =
      let f' = record f { preamble = append_all f.preamble m.preamble } in
      ap (λ r. r.form) (preamble_read m.preamble _ f h.preamble)
      ∙ parts_read m.parts (parse_at in_preamble none f') (m.line ∷ m.lines) h.parts h.epilogue
          empty apart
