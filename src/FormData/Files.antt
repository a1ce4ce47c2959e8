-- ===== src/FormData/Files.antt =====
-- The entries of an input after its files are put in.
use testcafe_hammerhead.Common.{
  ◌≡◌, refl, ap, sym, ◌∙◌, ℕ, zero, suc, true, false, Option, none, some, List, [], ◌∷◌, ◌++◌, map,
  length, get_elem?,
}
use testcafe_hammerhead.Common.Chars.{Text, text_eq}
use testcafe_hammerhead.FormData.Entry.{
  Codec, FileInfo, FileInputInfo, FormDataEntry, add_file_info,
}
use testcafe_hammerhead.FormData.Uploads.{
  get_entries_by_name, replace_named, chosen_entry, stored_entry, inject_files, inject_file_info,
}
use testcafe_hammerhead.FormData.Injection.{
  named_hit, named_miss, replace_first, replace_later, replace_miss, by_name, add_file_info-name,
  add_file_info-body,
}

module _ {A : Type 0} where
  abbrev pub drop : List A → ℕ → List A
  drop [] n = []
  drop (x ∷ l) zero = x ∷ l
  drop (x ∷ l) (suc n) = drop l n

  -- A value at a place, or at the end of a list that is shorter.
  abbrev put : ℕ → A → List A → List A
  put i x [] = x ∷ []
  put zero x (y ∷ l) = x ∷ l
  put (suc i) x (y ∷ l) = y ∷ put i x l

  abbrev put_at : ℕ → A → List A → List A
  put_at i x [] = []
  put_at zero x (y ∷ l) = x ∷ l
  put_at (suc i) x (y ∷ l) = y ∷ put_at i x l

  -- Values that overwrite a list from a place on.
  abbrev overwrite : List A → ℕ → List A → List A
  overwrite l zero xs = xs ++ drop l (length xs)
  overwrite [] (suc i) xs = xs
  overwrite (y ∷ l) (suc i) xs = y ∷ overwrite l i xs

  put_missing : (i : ℕ) (x : A) (l : List A) → get_elem? l i ≡ none → l ++ x ∷ [] ≡ put i x l
  put_missing i x [] h = refl
  put_missing zero x (y ∷ l) h = cc
  put_missing (suc i) x (y ∷ l) h = ap (λ r. y ∷ r) (put_missing i x l h)

  put_found : (i : ℕ) (x y : A) (l : List A) → get_elem? l i ≡ some y → put_at i x l ≡ put i x l
  put_found i x y [] h = cc
  put_found zero x y (z ∷ l) h = refl
  put_found (suc i) x y (z ∷ l) h = ap (λ r. z ∷ r) (put_found i x y l h)

  drop_none : (l : List A) → drop l 0 ≡ l
  drop_none [] = refl
  drop_none (y ∷ l) = refl

  overwrite_none : (l : List A) (i : ℕ) → overwrite l i [] ≡ l
  overwrite_none l zero = drop_none l
  overwrite_none [] (suc i) = refl
  overwrite_none (y ∷ l) (suc i) = ap (λ r. y ∷ r) (overwrite_none l i)

  overwrite-put :
      (l : List A) (i : ℕ) (x : A) (xs : List A)
      → overwrite (put i x l) (suc i) xs ≡ overwrite l i (x ∷ xs)
  overwrite-put [] zero x xs = refl
  overwrite-put [] (suc i) x xs = refl
  overwrite-put (y ∷ l) zero x xs = refl
  overwrite-put (y ∷ l) (suc i) x xs = ap (λ r. y ∷ r) (overwrite-put l i x xs)

map-put :
    {A B : Type 0} (f : A → B) (i : ℕ) (x : A) (l : List A)
    → map f (put i x l) ≡ put i (f x) (map f l)
map-put f i x [] = refl
map-put f zero x (y ∷ l) = refl
map-put f (suc i) x (y ∷ l) = ap (λ r. f y ∷ r) (map-put f i x l)

module _ (name : Text) (e : FormDataEntry) (h : text_eq e.name name ≡ true) where
  named-append :
      (es : List FormDataEntry)
      → get_entries_by_name name (es ++ e ∷ []) ≡ get_entries_by_name name es ++ e ∷ []
  unfolding get_entries_by_name
  named-append [] = named_hit name e [] h
  named-append (d ∷ es) =
      by_name name _ d
        (λ x.
          named_hit name d (es ++ e ∷ []) x
          ∙ ap (λ l. d ∷ l) (named-append es)
          ∙ ap (λ l. l ++ e ∷ []) (sym (named_hit name d es x)))
        (λ x.
          named_miss name d (es ++ e ∷ []) x
          ∙ named-append es
          ∙ ap (λ l. l ++ e ∷ []) (sym (named_miss name d es x)))

  named_missed :
      (i : ℕ) (d : FormDataEntry) (es : List FormDataEntry)
      → text_eq d.name name ≡ false
      → get_entries_by_name name (replace_named name i e es)
        ≡ put_at i e (get_entries_by_name name es)
      → get_entries_by_name name (replace_named name i e (d ∷ es))
        ≡ put_at i e (get_entries_by_name name (d ∷ es))
  named_missed i d es x ih =
      ap (get_entries_by_name name) (replace_miss name i e d es x)
      ∙ named_miss name d (replace_named name i e es) x
      ∙ ih
      ∙ ap (put_at i e) (sym (named_miss name d es x))

  named-replace_named :
      (i : ℕ) (es : List FormDataEntry)
      → get_entries_by_name name (replace_named name i e es)
        ≡ put_at i e (get_entries_by_name name es)
  unfolding replace_named get_entries_by_name
  named-replace_named i [] = refl
  named-replace_named zero (d ∷ es) =
      by_name name _ d
        (λ x.
          ap (get_entries_by_name name) (replace_first name e d es x)
          ∙ named_hit name e es h
          ∙ ap (put_at 0 e) (sym (named_hit name d es x)))
        (λ x. named_missed 0 d es x (named-replace_named 0 es))
  named-replace_named (suc i) (d ∷ es) =
      by_name name _ d
        (λ x.
          ap (get_entries_by_name name) (replace_later name i e d es x)
          ∙ named_hit name d (replace_named name i e es) x
          ∙ ap (λ l. d ∷ l) (named-replace_named i es)
          ∙ ap (put_at (suc i) e) (sym (named_hit name d es x)))
        (λ x. named_missed (suc i) d es x (named-replace_named (suc i) es))

  named-stored_entry :
      (found : Option FormDataEntry) (i : ℕ) (es : List FormDataEntry)
      → get_elem? (get_entries_by_name name es) i ≡ found
      → get_entries_by_name name (stored_entry found name i e es)
        ≡ put i e (get_entries_by_name name es)
  named-stored_entry none i es x = named-append es ∙ put_missing i e (get_entries_by_name name es) x
  named-stored_entry (some old) i es x =
      named-replace_named i es ∙ put_found i e old (get_entries_by_name name es) x

abbrev pub file_body : Codec → FileInfo → List Text
file_body codec file = codec.from_base64 file.file_data ∷ []

abbrev pub bodies : Text → List FormDataEntry → List (List Text)
bodies name entries = map (λ e. e.body) (get_entries_by_name name entries)

inject_files-bodies :
    (codec : Codec) (name : Text) (files : List FileInfo) (i : ℕ) (previous : Option FormDataEntry)
    (entries : List FormDataEntry)
    → bodies name (inject_files codec name files i previous entries)
      ≡ overwrite (bodies name entries) i (map (file_body codec) files)
unfolding inject_files
inject_files-bodies codec name [] i previous entries = sym (overwrite_none (bodies name entries) i)
inject_files-bodies codec name (file ∷ files) i previous entries =
    let found = get_elem? (get_entries_by_name name entries) i in
    let chosen = chosen_entry found previous in
    let e = add_file_info codec name file chosen in
    let later = map (file_body codec) files in
    inject_files-bodies codec name files (suc i) (some e) (stored_entry found name i e entries)
    ∙ ap (λ l. overwrite (map (λ d. d.body) l) (suc i) later)
        (named-stored_entry name e (add_file_info-name codec name file chosen) found i entries refl)
    ∙ ap (λ l. overwrite l (suc i) later)
        (map-put (λ d. d.body) i e (get_entries_by_name name entries)
          ∙ ap (λ b. put i b (bodies name entries)) (add_file_info-body codec name file chosen))
    ∙ overwrite-put (bodies name entries) i (file_body codec file) later

-- After the files of an input are put in, the bodies of its entries are the decoded files in their
-- order, then the bodies of the entries that there were beyond the number of files.
pub inject_file_info-bodies :
    (codec : Codec) (info : FileInputInfo) (entries : List FormDataEntry)
    → bodies info.name (inject_file_info codec info entries)
      ≡ map (file_body codec) info.files
        ++ drop (bodies info.name entries) (length (map (file_body codec) info.files))
unfolding inject_file_info
inject_file_info-bodies codec info entries =
    inject_files-bodies codec info.name info.files 0 none entries
