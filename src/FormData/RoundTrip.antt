-- ===== src/FormData/RoundTrip.antt =====
-- A message that is read and printed again.
use mathlib.Core.List.{append_assoc, append-nil}
use mathlib.Core.Path.{subst⁻¹}
use testcafe_hammerhead.Common.{
  ◌≡◌, refl, ap, sym, ◌∙◌, ℕ, false, none, some, List, [], ◌∷◌, ◌++◌, map, All,
}
use testcafe_hammerhead.Common.Chars.{Text, to_lower, text_eq, is_empty}
use testcafe_hammerhead.FormData.Lines.{
  crlf, concat, join, create_line_iterator, create_line_iterator_of_join, IsLine,
}
use testcafe_hammerhead.FormData.Entry.{
  Codec, Header, FormDataEntry, new_entry, set_raw_header, set_parts, header_parts, header_chunks,
  entry_to_buffer,
}
use testcafe_hammerhead.FormData.{
  FormData, new_form_data, entry_chunks, opened, to_buffer, parse_body, parse_with, parse_lines,
  in_preamble,
}
use testcafe_hammerhead.FormData.Messages.{
  Part, Message, header_text, header_lines, parts_lines, message_lines, IsPlain, IsHeader, IsPart,
  IsMessage, IsApart, AllApart, append_all, read_headers, entry_of, with_message,
}
use testcafe_hammerhead.FormData.Reading.{message_read}
use testcafe_hammerhead.FormData.Printing.{
  terminated, stored, concat-append, terminated-append, join_then_end, join-append, concat_of_lines,
  preamble_printed, set-append, set_parts_keeps,
}

-- Names that are not among the headers so far.
abbrev IsNew : List (Text × Header) → Text × Text → Type 0
IsNew l h = All (λ p. text_eq p.0 (to_lower h.0) ≡ false) l

All-snoc :
    (P : Text × Header → Type 0) (l : List (Text × Header)) (p : Text × Header)
    → All P l
    → P p
    → All P (l ++ p ∷ [])
All-snoc P [] p h x = (x, tt)
All-snoc P (q ∷ l) p (h, h') x = (h, All-snoc P l p h' x)

still-IsNew :
    (l : List (Text × Header)) (h : Text × Text) (hs : List (Text × Text))
    → IsApart h hs
    → All (IsNew l) hs
    → All (IsNew (l ++ stored h ∷ [])) hs
still-IsNew l h [] a n = tt
still-IsNew l h (g ∷ hs) (a, a') (n, n') =
    (All-snoc (λ p. text_eq p.0 (to_lower g.0) ≡ false) l (stored h) n a, still-IsNew l h hs a' n')

module _ (codec : Codec) (b e : Text) where
  raw_header_keeps :
      (h : Text × Text) (x : FormDataEntry)
      → IsHeader codec b e h
      → IsNew x.headers h
      → ((set_raw_header (header_text h) x).headers ≡ x.headers ++ stored h ∷ [])
        × ((set_raw_header (header_text h) x).body ≡ x.body)
  unfolding set_raw_header
  raw_header_keeps h x ok new =
      let same = ap (λ m. set_parts (header_parts m).0 (header_parts m).1 x) ok.matched in
      let (keeps, body) = set_parts_keeps h x in
      (
        ap (λ y. y.headers) same ∙ keeps ∙ set-append (to_lower h.0) (stored h).1 x.headers new,
        ap (λ y. y.body) same ∙ body,
      )

  headers_kept :
      (hs : List (Text × Text)) (x : FormDataEntry)
      → All (IsHeader codec b e) hs
      → AllApart hs
      → All (IsNew x.headers) hs
      → ((read_headers hs x).headers ≡ x.headers ++ map stored hs)
        × ((read_headers hs x).body ≡ x.body)
  headers_kept [] x ok apart new = (sym (append-nil x.headers), refl)
  headers_kept (h ∷ hs) x (ok, oks) (apart, aparts) (new, news) =
      let x' = set_raw_header (header_text h) x in
      let (hd, bd) = raw_header_keeps h x ok new in
      let (hds, bds) =
        headers_kept hs x' oks aparts
          (subst⁻¹ (λ l. All (IsNew l) hs) hd (still-IsNew x.headers h hs apart news)) in
      (
        hds
            ∙ ap (λ l. l ++ map stored hs) hd
            ∙ append_assoc x.headers (stored h ∷ []) (map stored hs),
        bds ∙ bd,
      )

  header_chunks_printed :
      (hs : List (Text × Text))
      → concat (header_chunks codec (map stored hs)) ≡ terminated (header_lines codec hs) ++ crlf
  header_chunks_printed [] = refl
  header_chunks_printed (h ∷ hs) =
      let line = codec.encode (header_text h) in
      ap (λ t. line ++ 13 ∷ 10 ∷ t) (header_chunks_printed hs)
      ∙ sym (append_assoc line (13 ∷ 10 ∷ terminated (header_lines codec hs)) crlf)

  entry_printed :
      (q : Part)
      → IsPart codec b e q
      → entry_to_buffer codec (entry_of q) ++ crlf
        ≡ terminated (header_lines codec q.headers ++ [] ∷ q.line ∷ q.lines)
  unfolding entry_to_buffer
  entry_printed q h =
      let read = read_headers q.headers new_entry in
      let (hd, bd) = headers_kept q.headers new_entry h.headers h.apart (all_new q.headers) in
      let front = terminated (header_lines codec q.headers) in
      ap (λ t. t ++ crlf)
        (concat-append (header_chunks codec read.headers) (append_all read.body (q.line ∷ q.lines))
          ∙ ap
              (λ l.
                concat (header_chunks codec l) ++ concat (append_all read.body (q.line ∷ q.lines)))
              hd
          ∙ ap (λ t. t ++ concat (append_all read.body (q.line ∷ q.lines)))
              (header_chunks_printed q.headers)
          ∙ ap (λ l. (front ++ crlf) ++ concat (append_all l (q.line ∷ q.lines))) bd
          ∙ ap (λ t. (front ++ crlf) ++ t) (concat_of_lines q.line q.lines))
      ∙ append_assoc (front ++ crlf) (join (q.line ∷ q.lines)) crlf
      ∙ ap (λ t. (front ++ crlf) ++ t) (join_then_end q.line q.lines)
      ∙ append_assoc front crlf (terminated (q.line ∷ q.lines))
      ∙ sym (terminated-append (header_lines codec q.headers) ([] ∷ q.line ∷ q.lines))
    where
      all_new : (hs : List (Text × Text)) → All (IsNew []) hs
      all_new [] = tt
      all_new (h ∷ hs) = (tt, all_new hs)

  entries_printed :
      (qs : List Part)
      → All (IsPart codec b e) qs
      → concat (entry_chunks codec b (map entry_of qs)) ≡ terminated (parts_lines codec b e qs)
  unfolding entry_chunks
  entries_printed [] h = refl
  entries_printed (q ∷ qs) (h, h') =
      let printed = entry_to_buffer codec (entry_of q) in
      let rest = concat (entry_chunks codec b (map entry_of qs)) in
      let lines = header_lines codec q.headers ++ [] ∷ q.line ∷ q.lines in
      ap (λ t. b ++ 13 ∷ 10 ∷ t)
        (sym (append_assoc printed crlf rest)
          ∙ ap (λ t. t ++ rest) (entry_printed q h)
          ∙ ap (λ t. terminated lines ++ t) (entries_printed qs h')
          ∙ sym (terminated-append lines (parts_lines codec b e qs))
          ∙ ap terminated (
              append_assoc (header_lines codec q.headers) ([] ∷ q.line ∷ q.lines)
                (parts_lines codec b e qs)))

never_empty : (s : Text) (c : ℕ) (t : Text) → is_empty (s ++ c ∷ t) ≡ false
never_empty [] c t = refl
never_empty (a ∷ s) c t = refl

lines_read :
    (ls : List Text)
    → All IsLine ls
    → is_empty (join ls) ≡ false
    → create_line_iterator (join ls) ≡ ls
lines_read [] h e = cc
lines_read (l ∷ ls) h e = create_line_iterator_of_join l ls h e

parse_with_both :
    (codec : Codec) (b e : Text) (f : FormData) (ls : List Text)
    → parse_with codec (some b) (some e) f ls
      ≡ some
          (parse_lines codec b e
            (record { state = in_preamble; current_entry = none; form = f })
            ls).form
unfolding parse_lines
parse_with_both codec b e f [] = refl
parse_with_both codec b e f (l ∷ ls) = refl

-- Form data whose content type is known and whose body is not read yet.
abbrev pub with_boundaries : Text → Text → FormData
with_boundaries b e = record new_form_data { boundary = some b; boundary_end = some e }

module _ (codec : Codec) (b e : Text) where
  message_joined :
      (m : Message)
      → join (message_lines codec b e m)
        ≡ terminated (m.preamble ++ parts_lines codec b e m.parts)
          ++ (e ++ 13 ∷ 10 ∷ join (m.line ∷ m.lines))
  message_joined m =
      let parts = parts_lines codec b e m.parts in
      ap join (sym (append_assoc m.preamble parts (e ∷ m.line ∷ m.lines)))
      ∙ join-append (m.preamble ++ parts) e (m.line ∷ m.lines)

  message_not_empty : (m : Message) → is_empty (join (message_lines codec b e m)) ≡ false
  message_not_empty m =
      let front = terminated (m.preamble ++ parts_lines codec b e m.parts) in
      ap is_empty
        (message_joined m ∙ sym (append_assoc front e (13 ∷ 10 ∷ join (m.line ∷ m.lines))))
      ∙ never_empty (front ++ e) 13 (10 ∷ join (m.line ∷ m.lines))

  -- A well-formed message is parsed as its preamble, its entries and its epilogue.
  pub parse_body-with_message :
      (m : Message)
      → IsMessage codec b e m
      → IsPlain codec b e []
      → text_eq b e ≡ false
      → parse_body codec (with_boundaries b e) (join (message_lines codec b e m))
        ≡ some (with_message m (with_boundaries b e))
  unfolding parse_body
  parse_body-with_message m h empty apart =
      let ls = message_lines codec b e m in
      let f = with_boundaries b e in
      ap (parse_with codec (some b) (some e) f) (lines_read ls h.separated (message_not_empty m))
      ∙ parse_with_both codec b e f ls
      ∙ ap (λ g. some g) (message_read codec b e m f h empty apart)

  -- The form data of a well-formed message is printed as that message.
  pub to_buffer-with_message :
      (m : Message)
      → IsMessage codec b e m
      → (to_buffer codec (with_message m (with_boundaries b e))).0
        ≡ some (join (message_lines codec b e m))
  unfolding to_buffer
  to_buffer-with_message m h =
      let f = with_message m (with_boundaries b e) in
      let entries = entry_chunks codec b f.entries in
      let pre = terminated m.preamble in
      let parts = terminated (parts_lines codec b e m.parts) in
      let rest = join (m.line ∷ m.lines) in
      ap (λ t. some t)
        (concat-append (opened f.preamble ++ (entries ++ e ∷ crlf ∷ [])) f.epilogue
          ∙ ap (λ t. t ++ concat f.epilogue)
              (concat-append (opened f.preamble) (entries ++ e ∷ crlf ∷ [])
                ∙ ap (λ t. concat (opened f.preamble) ++ t) (concat-append entries (e ∷ crlf ∷ []))
                ∙ ap (λ t. t ++ (concat entries ++ (e ++ crlf))) (preamble_printed m.preamble)
                ∙ ap (λ t. pre ++ (t ++ (e ++ crlf))) (entries_printed codec b e m.parts h.parts)
                ∙ sym (append_assoc pre parts (e ++ crlf)))
          ∙ ap (λ t. ((pre ++ parts) ++ (e ++ crlf)) ++ t) (concat_of_lines m.line m.lines)
          ∙ append_assoc (pre ++ parts) (e ++ crlf) rest
          ∙ ap (λ t. (pre ++ parts) ++ t) (append_assoc e crlf rest)
          ∙ ap (λ t. t ++ (e ++ 13 ∷ 10 ∷ rest))
              (sym (terminated-append m.preamble (parts_lines codec b e m.parts)))
          ∙ sym (message_joined m))
