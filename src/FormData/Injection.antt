-- ===== src/FormData/Injection.antt =====
-- What `inject` does to a body: files replace the entries of their input, the rest stays.
use testcafe_hammerhead.Common.{
  ◌≡◌, refl, ap, sym, ◌∙◌, ℕ, zero, suc, true, false, not, Option, none, some, List, [], ◌∷◌, ◌++◌,
  map, get_elem?, if-elim, clash, Bool-cases, inl, inr,
}
use testcafe_hammerhead.Common.Chars.{Text, text_eq}
use testcafe_hammerhead.Charset.Names.{text_eq_refl}
use testcafe_hammerhead.FormData.Lines.{join}
use testcafe_hammerhead.FormData.Entry.{
  Codec, FileInfo, FormDataEntry, add_file_info, set_content_disposition, set_header,
}
use testcafe_hammerhead.FormData.{new_form_data, parse_content_type_header}
use testcafe_hammerhead.FormData.Uploads.{
  upload_info_hidden_input_name, get_entries_by_name, remove_entry, replace_named, chosen_entry,
  stored_entry, inject_files, expand_of, expand_uploads, printed, expanded, inject_into, inject,
}
use testcafe_hammerhead.FormData.Messages.{
  Message, message_lines, IsPlain, IsMessage, entry_of, with_message,
}
use testcafe_hammerhead.FormData.RoundTrip.{
  with_boundaries, parse_body-with_message, to_buffer-with_message,
}

-- A well-formed body without the hidden field of the uploads goes through `inject` unchanged.
pub inject-unchanged :
    (codec : Codec) (header b e : Text) (m : Message)
    → parse_content_type_header codec header new_form_data ≡ with_boundaries b e
    → IsMessage codec b e m
    → IsPlain codec b e []
    → text_eq b e ≡ false
    → get_entries_by_name upload_info_hidden_input_name (map entry_of m.parts) ≡ []
    → inject codec header (join (message_lines codec b e m))
      ≡ some (some (join (message_lines codec b e m)))
unfolding inject expand_uploads
inject-unchanged codec header b e m typed h empty apart none_hidden =
    let body = join (message_lines codec b e m) in
    ap (λ f. inject_into codec f.boundary f body) typed
    ∙ ap (λ o. printed codec (expanded codec o)) (parse_body-with_message codec b e m h empty apart)
    ∙ ap (λ l. printed codec (expand_of codec l (with_message m (with_boundaries b e)))) none_hidden
    ∙ ap (λ o. some o) (to_buffer-with_message codec b e m h)

pub add_file_info-name :
    (codec : Codec) (name : Text) (file : FileInfo) (e : FormDataEntry)
    → text_eq (add_file_info codec name file e).name name ≡ true
unfolding add_file_info set_content_disposition set_header
add_file_info-name codec name file e = text_eq_refl name

pub add_file_info-body :
    (codec : Codec) (name : Text) (file : FileInfo) (e : FormDataEntry)
    → (add_file_info codec name file e).body ≡ codec.from_base64 file.file_data ∷ []
unfolding add_file_info set_content_disposition set_header
add_file_info-body codec name file e = refl

module _ (name : Text) where
  remove_hit :
      (d : FormDataEntry) (es : List FormDataEntry)
      → text_eq d.name name ≡ true
      → remove_entry name (d ∷ es) ≡ remove_entry name es
  unfolding remove_entry
  remove_hit d es h =
      if-elim (λ l. l ≡ remove_entry name es) (not (text_eq d.name name)) _ _
        (λ x. absurd (clash (not (text_eq d.name name)) x (ap not h))) (λ x. refl)

  remove_miss :
      (d : FormDataEntry) (es : List FormDataEntry)
      → text_eq d.name name ≡ false
      → remove_entry name (d ∷ es) ≡ d ∷ remove_entry name es
  unfolding remove_entry
  remove_miss d es h =
      if-elim (λ l. l ≡ d ∷ remove_entry name es) (not (text_eq d.name name)) _ _ (λ x. refl)
        (λ x. absurd (clash (not (text_eq d.name name)) (ap not h) x))

  pub named_hit :
      (d : FormDataEntry) (es : List FormDataEntry)
      → text_eq d.name name ≡ true
      → get_entries_by_name name (d ∷ es) ≡ d ∷ get_entries_by_name name es
  unfolding get_entries_by_name
  named_hit d es h =
      if-elim (λ l. l ≡ d ∷ get_entries_by_name name es) (text_eq d.name name) _ _ (λ x. refl)
        (λ x. absurd (clash (text_eq d.name name) h x))

  pub named_miss :
      (d : FormDataEntry) (es : List FormDataEntry)
      → text_eq d.name name ≡ false
      → get_entries_by_name name (d ∷ es) ≡ get_entries_by_name name es
  unfolding get_entries_by_name
  named_miss d es h =
      if-elim (λ l. l ≡ get_entries_by_name name es) (text_eq d.name name) _ _
        (λ x. absurd (clash (text_eq d.name name) x h)) (λ x. refl)

  pub replace_first :
      (e d : FormDataEntry) (es : List FormDataEntry)
      → text_eq d.name name ≡ true
      → replace_named name 0 e (d ∷ es) ≡ e ∷ es
  unfolding replace_named
  replace_first e d es h =
      if-elim (λ l. l ≡ e ∷ es) (text_eq d.name name) _ _ (λ x. refl)
        (λ x. absurd (clash (text_eq d.name name) h x))

  pub replace_later :
      (i : ℕ) (e d : FormDataEntry) (es : List FormDataEntry)
      → text_eq d.name name ≡ true
      → replace_named name (suc i) e (d ∷ es) ≡ d ∷ replace_named name i e es
  unfolding replace_named
  replace_later i e d es h =
      if-elim (λ l. l ≡ d ∷ replace_named name i e es) (text_eq d.name name) _ _ (λ x. refl)
        (λ x. absurd (clash (text_eq d.name name) h x))

  pub replace_miss :
      (i : ℕ) (e d : FormDataEntry) (es : List FormDataEntry)
      → text_eq d.name name ≡ false
      → replace_named name i e (d ∷ es) ≡ d ∷ replace_named name i e es
  unfolding replace_named
  replace_miss zero e d es h =
      if-elim (λ l. l ≡ d ∷ replace_named name 0 e es) (text_eq d.name name) _ _
        (λ x. absurd (clash (text_eq d.name name) x h)) (λ x. refl)
  replace_miss (suc i) e d es h =
      if-elim (λ l. l ≡ d ∷ replace_named name (suc i) e es) (text_eq d.name name) _ _
        (λ x. absurd (clash (text_eq d.name name) x h)) (λ x. refl)

  -- Two ways to treat an entry, by its name.
  pub by_name :
      (P : Type 0) (d : FormDataEntry)
      → (text_eq d.name name ≡ true → P)
      → (text_eq d.name name ≡ false → P)
      → P
  by_name P d f g = elim (Bool-cases (text_eq d.name name)) [ inl x ↦ f x | inr x ↦ g x ]

  module _ (e : FormDataEntry) (h : text_eq e.name name ≡ true) where
    remove_entry-append :
        (es : List FormDataEntry) → remove_entry name (es ++ e ∷ []) ≡ remove_entry name es
    unfolding remove_entry
    remove_entry-append [] = remove_hit e [] h
    remove_entry-append (d ∷ es) =
        by_name _ d
          (λ x. remove_hit d (es ++ e ∷ []) x ∙ remove_entry-append es ∙ sym (remove_hit d es x))
          (λ x.
            remove_miss d (es ++ e ∷ []) x
            ∙ ap (λ l. d ∷ l) (remove_entry-append es)
            ∙ sym (remove_miss d es x))

    missed :
        (i : ℕ) (d : FormDataEntry) (es : List FormDataEntry)
        → text_eq d.name name ≡ false
        → remove_entry name (replace_named name i e es) ≡ remove_entry name es
        → remove_entry name (replace_named name i e (d ∷ es)) ≡ remove_entry name (d ∷ es)
    missed i d es x ih =
        ap (remove_entry name) (replace_miss i e d es x)
        ∙ remove_miss d (replace_named name i e es) x
        ∙ ap (λ l. d ∷ l) ih
        ∙ sym (remove_miss d es x)

    remove_entry-replace_named :
        (i : ℕ) (es : List FormDataEntry)
        → remove_entry name (replace_named name i e es) ≡ remove_entry name es
    unfolding replace_named
    remove_entry-replace_named i [] = refl
    remove_entry-replace_named zero (d ∷ es) =
        by_name _ d
          (λ x.
            ap (remove_entry name) (replace_first e d es x)
            ∙ remove_hit e es h
            ∙ sym (remove_hit d es x))
          (λ x. missed 0 d es x (remove_entry-replace_named 0 es))
    remove_entry-replace_named (suc i) (d ∷ es) =
        by_name _ d
          (λ x.
            ap (remove_entry name) (replace_later i e d es x)
            ∙ remove_hit d (replace_named name i e es) x
            ∙ remove_entry-replace_named i es
            ∙ sym (remove_hit d es x))
          (λ x. missed (suc i) d es x (remove_entry-replace_named (suc i) es))

    remove_entry-stored_entry :
        (found : Option FormDataEntry) (i : ℕ) (es : List FormDataEntry)
        → remove_entry name (stored_entry found name i e es) ≡ remove_entry name es
    remove_entry-stored_entry none i es = remove_entry-append es
    remove_entry-stored_entry (some old) i es = remove_entry-replace_named i es

-- The files of an input leave the entries of other names alone, and their order.
inject_files-remove_entry :
    (codec : Codec) (name : Text) (files : List FileInfo) (i : ℕ) (previous : Option FormDataEntry)
    (entries : List FormDataEntry)
    → remove_entry name (inject_files codec name files i previous entries)
      ≡ remove_entry name entries
unfolding inject_files
inject_files-remove_entry codec name [] i previous entries = refl
inject_files-remove_entry codec name (file ∷ files) i previous entries =
    let found = get_elem? (get_entries_by_name name entries) i in
    let e = add_file_info codec name file (chosen_entry found previous) in
    inject_files-remove_entry codec name files (suc i) (some e)
      (stored_entry found name i e entries)
    ∙ remove_entry-stored_entry name e
        (add_file_info-name codec name file (chosen_entry found previous)) found i entries
