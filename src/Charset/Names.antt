-- ===== src/Charset/Names.antt =====
-- Which labels name an encoding.
use testcafe_hammerhead.Common.{
  ℕ, ◌≡◌, inl, inr, refl, ap, ◌∙◌, Bool, true, false, not, ◌==◌, none, List, [], ◌∷◌, any_of,
  all_of, In, arith, Bool-cases,
}
use testcafe_hammerhead.Common.Chars.{codes, Text, to_lower, lower_code, text_eq, is_empty}
use testcafe_hammerhead.Charset.Labels.{
  EncodingName, no_name, name, inherited, get_encoding_name, encoding_labels, find_encoding,
  lookup_table, own_or_inherited, is_space, trim, trim_left, trim_right,
}

abbrev is_name_of : Text → EncodingName → Bool
is_name_of e (name f) = text_eq e f
is_name_of e _ = false

abbrev pub has_semicolon : Text → Bool
has_semicolon s = any_of (λ c. c == b';') s

pub text_eq_refl : (s : Text) → text_eq s s ≡ true
text_eq_refl [] = refl
text_eq_refl (a ∷ s) = ground (arith, text_eq_refl s)

pub text_eq_sound : (s t : Text) → text_eq s t ≡ true → s ≡ t
text_eq_sound [] [] h = refl
text_eq_sound [] (b ∷ t) h = ground arith
text_eq_sound (a ∷ s) [] h = ground arith
text_eq_sound (a ∷ s) (b ∷ t) h = ground (arith, text_eq_sound s t)

labels_named :
    all_of (λ row. all_of (λ l. is_name_of row.0 (get_encoding_name l)) row.1) encoding_labels
    ≡ true
unfolding get_encoding_name
labels_named = refl

all_of-In :
    {A : Type 0} (p : A → Bool) (l : List A) (a : A) → all_of p l ≡ true → In a l → p a ≡ true
all_of-In p [] a h m = absurd m
all_of-In p (x ∷ xs) a h (inl e) = rw e (ground (arith, h))
all_of-In p (x ∷ xs) a h (inr m) = all_of-In p xs a (ground (arith, h)) m

is_name_of_sound : (e : Text) (n : EncodingName) → is_name_of e n ≡ true → n ≡ name e
is_name_of_sound e no_name h = ground arith
is_name_of_sound e (inherited f) h = ground arith
is_name_of_sound e (name f) h = rw (text_eq_sound e f h) refl

-- Every label of the table, in whichever row it stands, names the encoding of its own row.
get_encoding_name_of_label :
    (encoding : Text) (labels : List Text) (label : Text)
    → In (encoding, labels) encoding_labels
    → In label labels
    → get_encoding_name label ≡ name encoding
get_encoding_name_of_label encoding labels label m n =
    is_name_of_sound encoding (get_encoding_name label) (
      all_of-In (λ l. is_name_of encoding (get_encoding_name l)) labels label
        (all_of-In (λ row. all_of (λ l. is_name_of row.0 (get_encoding_name l)) row.1)
          encoding_labels (encoding, labels) labels_named m)
        n)

lower_code-semicolon : (c : ℕ) → (lower_code c == b';') ≡ (c == b';')
lower_code-semicolon c = ground arith

has_semicolon-to_lower : (s : Text) → has_semicolon (to_lower s) ≡ has_semicolon s
has_semicolon-to_lower [] = refl
has_semicolon-to_lower (c ∷ s) = rw (lower_code-semicolon c, has_semicolon-to_lower s) refl

is_space_not_semicolon : (c : ℕ) → is_space c ≡ true → (c == b';') ≡ false
is_space_not_semicolon c h = ground arith

has_semicolon-trim_left : (s : Text) → has_semicolon (trim_left s) ≡ has_semicolon s
unfolding trim_left
has_semicolon-trim_left [] = refl
has_semicolon-trim_left (c ∷ s) = elim (Bool-cases (is_space c)) [
  | inl e ↦ rw (e, is_space_not_semicolon c e) (has_semicolon-trim_left s)
  | inr e ↦ rw e refl
]

is_empty-has_semicolon : (s : Text) → is_empty s ≡ true → has_semicolon s ≡ false
is_empty-has_semicolon [] h = refl
is_empty-has_semicolon (c ∷ s) h = ground arith

has_semicolon-trim_right : (s : Text) → has_semicolon (trim_right s) ≡ has_semicolon s
unfolding trim_right
has_semicolon-trim_right [] = refl
has_semicolon-trim_right (c ∷ s) =
    let ih = has_semicolon-trim_right s in
    ground (arith, ih, is_space_not_semicolon c, is_empty-has_semicolon (trim_right s))

text_eq-has_semicolon :
    (s l : Text) → has_semicolon s ≡ true → not (has_semicolon l) ≡ true → text_eq s l ≡ false
text_eq-has_semicolon s l h n = elim (Bool-cases (text_eq s l)) [
  | inl e ↦ let same = ap has_semicolon (text_eq_sound s l e) in ground (arith, h, n, same)
  | inr e ↦ e
]

any_label_with_semicolon :
    (s : Text) (labels : List Text)
    → has_semicolon s ≡ true
    → all_of (λ l. not (has_semicolon l)) labels ≡ true
    → any_of (text_eq s) labels ≡ false
any_label_with_semicolon s [] h n = refl
any_label_with_semicolon s (l ∷ labels) h n =
    rw (text_eq-has_semicolon s l h (ground arith))
      (any_label_with_semicolon s labels h (ground arith))

find_encoding_with_semicolon :
    (rows : List (Text × List Text)) (s : Text)
    → has_semicolon s ≡ true
    → all_of (λ row. all_of (λ l. not (has_semicolon l)) row.1) rows ≡ true
    → find_encoding rows s ≡ none
unfolding find_encoding
find_encoding_with_semicolon [] s h n = refl
find_encoding_with_semicolon ((encoding, labels) ∷ rows) s h n =
    rw
      (
        find_encoding_with_semicolon rows s h (ground arith),
        any_label_with_semicolon s labels h (ground arith),
      )
      refl

lookup_table_with_semicolon : (s : Text) → has_semicolon s ≡ true → lookup_table s ≡ no_name
unfolding lookup_table
lookup_table_with_semicolon s h =
    ap (own_or_inherited s) (find_encoding_with_semicolon encoding_labels s h refl)
    ∙ rw (any_label_with_semicolon s (codes "constructor" ∷ codes "__proto__" ∷ []) h refl) refl

-- A label with a semicolon, whatever is around it, names nothing.
pub get_encoding_name_with_semicolon :
    (label : Text) → has_semicolon label ≡ true → get_encoding_name label ≡ no_name
unfolding get_encoding_name trim
get_encoding_name_with_semicolon [] h = ground arith
get_encoding_name_with_semicolon (c ∷ s) h = lookup_table_with_semicolon (trim (to_lower (c ∷ s))) (
    has_semicolon-trim_right (trim_left (to_lower (c ∷ s)))
    ∙ has_semicolon-trim_left (to_lower (c ∷ s))
    ∙ has_semicolon-to_lower (c ∷ s)
    ∙ h)
