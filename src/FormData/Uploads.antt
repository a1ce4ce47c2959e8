-- ===== src/FormData/Uploads.antt =====
-- upload/form-data.ts and upload/index.ts: the files that the page has chosen are put into the body.
--
-- An entry of the array is found by its name and its place among the entries of that name.
use testcafe_hammerhead.Common.{
  ℕ, zero, suc, not, Option, none, some, List, [], ◌∷◌, ◌++◌, get_elem?, if◌then◌else◌,
}
use testcafe_hammerhead.Common.Chars.{Text, codes, text_eq}
use testcafe_hammerhead.FormData.Lines.{concat}
use testcafe_hammerhead.FormData.Entry.{
  Codec, FileInfo, FileInputInfo, FormDataEntry, new_entry, add_file_info, clone_with_raw_headers,
}
use testcafe_hammerhead.FormData.{
  FormData, new_form_data, parse_content_type_header, parse_body, to_buffer,
}

abbrev pub upload_info_hidden_input_name : Text
upload_info_hidden_input_name = codes "hammerhead|upload-info-hidden-input-name"

unfoldable pub get_entries_by_name : Text → List FormDataEntry → List FormDataEntry
get_entries_by_name name [] = []
get_entries_by_name name (e ∷ entries) =
    let found = get_entries_by_name name entries in if text_eq e.name name then e ∷ found else found

unfoldable pub remove_entry : Text → List FormDataEntry → List FormDataEntry
remove_entry name [] = []
remove_entry name (e ∷ entries) =
    let kept = remove_entry name entries in if not (text_eq e.name name) then e ∷ kept else kept

-- A change of the entry at a place among those of a name.
unfoldable pub replace_named : Text → ℕ → FormDataEntry → List FormDataEntry → List FormDataEntry
replace_named name i new [] = []
replace_named name zero new (e ∷ entries) =
    let rest = replace_named name 0 new entries in
    if text_eq e.name name then new ∷ entries else e ∷ rest
replace_named name (suc i) new (e ∷ entries) =
    let next = replace_named name i new entries in
    let rest = replace_named name (suc i) new entries in
    if text_eq e.name name then e ∷ next else e ∷ rest

-- The entry that takes a file: the one that is there, a copy of the one before, or a new one.
abbrev pub chosen_entry : Option FormDataEntry → Option FormDataEntry → FormDataEntry
chosen_entry (some e) previous = e
chosen_entry none (some p) = clone_with_raw_headers p
chosen_entry none none = new_entry

abbrev pub stored_entry :
    Option FormDataEntry → Text → ℕ → FormDataEntry → List FormDataEntry → List FormDataEntry
stored_entry none name i e entries = entries ++ e ∷ []
stored_entry (some old) name i e entries = replace_named name i e entries

-- The loop of `_injectFileInfo`, from a place on.
unfoldable pub inject_files :
    Codec
    → Text
    → List FileInfo
    → ℕ
    → Option FormDataEntry
    → List FormDataEntry
    → List FormDataEntry
unfolding get_entries_by_name add_file_info clone_with_raw_headers replace_named
inject_files codec name [] i previous entries = entries
inject_files codec name (file ∷ files) i previous entries =
    let found = get_elem? (get_entries_by_name name entries) i in
    let e = add_file_info codec name file (chosen_entry found previous) in
    inject_files codec name files (suc i) (some e) (stored_entry found name i e entries)

unfoldable pub inject_file_info : Codec → FileInputInfo → List FormDataEntry → List FormDataEntry
unfolding inject_files
inject_file_info codec info entries = inject_files codec info.name info.files 0 none entries

abbrev pub inject_all : Codec → List FileInputInfo → List FormDataEntry → List FormDataEntry
inject_all codec [] entries = entries
inject_all codec (info ∷ infos) entries =
    inject_all codec infos (inject_file_info codec info entries)

abbrev pub expand_with : Codec → Option (List FileInputInfo) → FormData → Option FormData
expand_with codec none f = none
expand_with codec (some infos) f = some (record f {
  entries = inject_all codec infos (remove_entry upload_info_hidden_input_name f.entries);
})

abbrev pub expand_of : Codec → List FormDataEntry → FormData → Option FormData
expand_of codec [] f = some f
expand_of codec (uploads ∷ others) f =
    expand_with codec (codec.parse_json (codec.decode (concat uploads.body))) f

unfoldable pub expand_uploads : Codec → FormData → Option FormData
unfolding get_entries_by_name remove_entry inject_file_info
expand_uploads codec f =
    expand_of codec (get_entries_by_name upload_info_hidden_input_name f.entries) f

-- `inject`: no value if a call throws, no body if there is no boundary
abbrev pub printed : Codec → Option FormData → Option (Option Text)
printed codec none = none
printed codec (some f) = some (to_buffer codec f).0

abbrev pub expanded : Codec → Option FormData → Option FormData
expanded codec none = none
expanded codec (some f) = expand_uploads codec f

abbrev pub inject_into : Codec → Option Text → FormData → Text → Option (Option Text)
inject_into codec none f body = some none
inject_into codec (some b) f body = printed codec (expanded codec (parse_body codec f body))

unfoldable pub inject : Codec → Text → Text → Option (Option Text)
unfolding parse_content_type_header parse_body expand_uploads to_buffer
inject codec content_type_header body =
    let f = parse_content_type_header codec content_type_header new_form_data in
    inject_into codec f.boundary f body
